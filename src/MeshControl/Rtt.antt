-- ===== src/MeshControl/Rtt.antt =====
-- The RTT estimator of lib/mb-mesh-control/src/lib.rs over a sequence of samples.
use meshbus_rs.Prelude.{ℕ, ◌+◌, ◌*◌, ◌/◌, ◌%◌, ◌≤◌, ◌<◌, min}
use meshbus_rs.Prelude.{true, List, [], ◌∷◌, All}
use meshbus_rs.Prelude.{◌≡◌, refl, arith}
use meshbus_rs.MeshControl.{
  MeshRttEstimator, word, adjusted_rtt, abs_diff, on_sample, default_rtt, max_ack_delay_us,
}

-- The samples, in the order they came: the RTT and the delay the peer reports.
pub on_samples : MeshRttEstimator → List (ℕ × ℕ) → MeshRttEstimator
on_samples r [] = r
on_samples r ((rtt, ack_delay) ∷ samples) = on_samples (on_sample r rtt ack_delay) samples

abbrev pub InRange : ℕ → ℕ → ℕ × ℕ → Type 0
InRange lo hi (rtt, ack_delay) = (lo ≤ rtt) × (rtt ≤ hi)

-- A sampled estimator whose smoothed value, least sample and variation keep to the bounds.
abbrev pub IsWithin : ℕ → ℕ → MeshRttEstimator → Type 0
IsWithin lo hi r =
    (r.sampled ≡ true)
    × ((lo ≤ r.min_rtt) × (r.min_rtt ≤ hi))
    × ((lo ≤ r.smoothed) × (r.smoothed ≤ hi))
    × (r.rttvar ≤ hi)

mod_small : (a : ℕ) → a < word → a % word ≡ a
mod_small a h = ground arith

adjusted_within :
    (lo hi least rtt d : ℕ)
    → hi * 8 < word
    → lo ≤ least
    → least ≤ rtt
    → rtt ≤ hi
    → (lo ≤ adjusted_rtt least rtt d) × (adjusted_rtt least rtt d ≤ hi)
unfolding adjusted_rtt
adjusted_within lo hi least rtt d w a b c =
    rw (mod_small (least + min d max_ack_delay_us) (omega arith)) (ground arith)

smooth_within :
    (lo hi s a : ℕ)
    → hi * 8 < word
    → (lo ≤ s) × (s ≤ hi)
    → (lo ≤ a) × (a ≤ hi)
    → (lo ≤ ((s * 7 + a) % word) / 8) × (((s * 7 + a) % word) / 8 ≤ hi)
smooth_within lo hi s a w h k = rw (mod_small (s * 7 + a) (omega arith)) (omega arith, omega arith)

abs_diff_le : (hi s a : ℕ) → s ≤ hi → a ≤ hi → abs_diff s a ≤ hi
abs_diff_le hi s a h k = ground arith

var_within : (hi v d : ℕ) → hi * 8 < word → v ≤ hi → d ≤ hi → ((v * 3 + d) % word) / 4 ≤ hi
var_within hi v d w h k = rw (mod_small (v * 3 + d) (omega arith)) (omega arith)

sampled-IsWithin :
    (lo hi : ℕ) (r : MeshRttEstimator) (rtt d : ℕ)
    → hi * 8 < word
    → IsWithin lo hi r
    → InRange lo hi (rtt, d)
    → IsWithin lo hi (on_sample r rtt d)
unfolding on_sample
sampled-IsWithin lo hi r rtt d w (e, m, s, v) k =
    let a = adjusted_within lo hi (min r.min_rtt rtt) rtt d w (omega arith) (omega arith) k.1 in
    simp e (
      refl,
      (omega arith, omega arith),
      smooth_within lo hi r.smoothed (adjusted_rtt (min r.min_rtt rtt) rtt d) w s a,
      var_within hi r.rttvar (abs_diff r.smoothed (adjusted_rtt (min r.min_rtt rtt) rtt d)) w v
          (abs_diff_le hi r.smoothed (adjusted_rtt (min r.min_rtt rtt) rtt d) s.1 a.1),
    )

from-IsWithin :
    (lo hi : ℕ) (r : MeshRttEstimator) (samples : List (ℕ × ℕ))
    → hi * 8 < word
    → IsWithin lo hi r
    → All (InRange lo hi) samples
    → IsWithin lo hi (on_samples r samples)
unfolding on_samples
from-IsWithin lo hi r [] w h k = h
from-IsWithin lo hi r ((rtt, d) ∷ samples) w h (k, ks) =
    from-IsWithin lo hi (on_sample r rtt d) samples w (sampled-IsWithin lo hi r rtt d w h k) ks

-- If every RTT sample lies between two bounds, of which the upper is less than 2 ^ 61, then after the
-- first sample the smoothed RTT and the least RTT always lie between them, and the variation is at
-- most the upper one, whatever the delays that the peer reports.
pub on_samples-IsWithin :
    (lo hi rtt d : ℕ) (samples : List (ℕ × ℕ))
    → hi * 8 < word
    → InRange lo hi (rtt, d)
    → All (InRange lo hi) samples
    → IsWithin lo hi (on_samples default_rtt ((rtt, d) ∷ samples))
unfolding on_samples on_sample
on_samples-IsWithin lo hi rtt d samples w k ks =
    from-IsWithin lo hi
      (record { latest = rtt; min_rtt = rtt; smoothed = rtt; rttvar = rtt / 2; sampled = true })
      samples w (refl, k, k, omega arith) ks
