-- ===== src/Quic/Congested.antt =====
-- lib/mb-quic/src/recovery.rs: what the estimate and the window keep to.
use meshbus_rs.Prelude.{ℕ, ◌+◌, ◌*◌, ◌/◌, ◌≡◌, ◌≤◌, ◌<◌, min, max, arith, List, [], ◌∷◌}
use native.Mathlib.Nat.{div-le_of_le-mul, mul-le-mul_right}
use meshbus_rs.Quic.{wrap64}
use meshbus_rs.Quic.Recovery.{
  RttEstimator, adjust, on_sample, Congestion, on_sent, on_acked, on_loss,
}

-- The smoothed time is not below the least sample, and both are far from the end of a `u64`.
abbrev pub IsPaced : RttEstimator → Type 0
IsPaced r = (r.min_rtt ≤ r.smoothed) × (r.smoothed < 1152921504606846976)

-- An adjusted sample is at least the least one, and at most the sample itself.
adjust_bounds :
    (least rtt delay : ℕ)
    → least ≤ rtt
    → rtt < 1152921504606846976
    → delay < 1152921504606846976
    → (least ≤ adjust least rtt delay) × (adjust least rtt delay ≤ rtt)
unfolding adjust
adjust_bounds least rtt delay l r d = ground arith

-- A sample of less than 2 ^ 60 microseconds keeps the smoothed time at or above the least sample.
pub on_sample-IsPaced :
    (r : RttEstimator) (rtt ack_delay max_ack_delay : ℕ)
    → IsPaced r
    → rtt < 1152921504606846976
    → max_ack_delay < 1152921504606846976
    → IsPaced (on_sample r rtt ack_delay max_ack_delay)
unfolding on_sample
on_sample-IsPaced r rtt a m p s d =
    let b = adjust_bounds (min r.min_rtt rtt) rtt (min a m) (omega arith) s (omega arith) in
    ground arith

-- A loss within the epoch of an earlier one does not shrink the window again.
pub on_loss-on_loss :
    (c : Congestion) (lost more sent later : ℕ)
    → later ≤ sent
    → (on_loss (on_loss c lost sent) more later).cwnd ≡ (on_loss c lost sent).cwnd
unfolding on_loss
on_loss-on_loss c lost more sent later l = ground arith

pub data CongestionOp : Type 0 where
  sent_op acked_op : ℕ → CongestionOp
  loss_op : ℕ → ℕ → CongestionOp

unfoldable pub congestion_step : Congestion → CongestionOp → Congestion
unfolding on_sent on_acked on_loss
congestion_step c (CongestionOp.sent_op size) = on_sent c size
congestion_step c (CongestionOp.acked_op size) = on_acked c size
congestion_step c (CongestionOp.loss_op bytes sent) = on_loss c bytes sent

unfoldable pub congestion_run : Congestion → List CongestionOp → Congestion
congestion_run c [] = c
congestion_run c (op ∷ ops) = congestion_run (congestion_step c op) ops

unfoldable pub acked : CongestionOp → ℕ
acked (CongestionOp.acked_op size) = size
acked (CongestionOp.sent_op size) = 0
acked (CongestionOp.loss_op bytes sent) = 0

unfoldable pub acked_all : List CongestionOp → ℕ
acked_all [] = 0
acked_all (op ∷ ops) = acked op + acked_all ops

-- The window is at least the minimum, and at most the initial one and all that was acknowledged.
abbrev pub IsWindowOf : Congestion → ℕ → Type 0
IsWindowOf c total = (2400 ≤ c.cwnd) × (c.cwnd ≤ 12000 + total)

max_le : (cwnd : ℕ) → 2400 ≤ cwnd → 1200 ≤ max cwnd 1
max_le cwnd l = omega arith

-- The growth in congestion avoidance is at most the size.
growth_le : (cwnd size : ℕ) → 2400 ≤ cwnd → wrap64 (1200 * size) / max cwnd 1 ≤ size
growth_le cwnd size l =
    div-le_of_le-mul (max cwnd 1) (omega (arith, mul-le-mul_right size (max_le cwnd l)))

congestion_step-IsWindowOf :
    (c : Congestion) (total : ℕ) (op : CongestionOp)
    → IsWindowOf c total
    → acked op + total < 4611686018427387904
    → IsWindowOf (congestion_step c op) (acked op + total)
unfolding congestion_step on_sent on_acked on_loss acked
congestion_step-IsWindowOf c total (CongestionOp.sent_op size) w l = (w.0, omega (arith, w.1))
congestion_step-IsWindowOf c total (CongestionOp.acked_op size) w l =
    let g = growth_le c.cwnd size w.0 in ground arith
congestion_step-IsWindowOf c total (CongestionOp.loss_op bytes sent) w l = ground arith

-- The congestion window of a run that acknowledges less than 2 ^ 62 bytes is never below the
-- minimum, never above the initial window and the acknowledged bytes, and so never wraps.
pub congestion_run-IsWindowOf :
    (c : Congestion) (total : ℕ) (ops : List CongestionOp)
    → IsWindowOf c total
    → acked_all ops + total < 4611686018427387904
    → IsWindowOf (congestion_run c ops) (acked_all ops + total)
unfolding congestion_run acked_all
congestion_run-IsWindowOf c total [] w l = (w.0, omega (arith, w.1))
congestion_run-IsWindowOf c total (op ∷ ops) w l =
    let step = congestion_step-IsWindowOf c total op w (omega arith) in
    let rest =
      congestion_run-IsWindowOf (congestion_step c op) (acked op + total) ops step (omega arith) in
    (rest.0, omega arith)
