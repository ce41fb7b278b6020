-- ===== src/Quic/Recovery.antt =====
-- lib/mb-quic/src/recovery.rs: the round-trip estimate and the congestion window. The times are in
-- microseconds, the sizes in bytes.
use meshbus_rs.Prelude.{ℕ, ◌+◌, ◌-◌, ◌*◌, ◌/◌, min, max, ltb, leb, Bool, true, false, if◌then◌else◌}
use meshbus_rs.Quic.{wrap64}

pub record RttEstimator : Type 0 where
  pub latest : ℕ
  pub min_rtt : ℕ
  pub smoothed : ℕ
  pub rttvar : ℕ
  pub sampled : Bool

abbrev pub default_rtt : RttEstimator
default_rtt = record {
  latest = 333000;
  min_rtt = 333000;
  smoothed = 333000;
  rttvar = 333000 / 2;
  sampled = false;
}

unfoldable pub abs_diff : ℕ → ℕ → ℕ
abs_diff a b = (a - b) + (b - a)

-- The sample less the delay of its acknowledgement, where that stays above the least sample.
unfoldable pub adjust : ℕ → ℕ → ℕ → ℕ
adjust least rtt delay = if leb (wrap64 (least + delay)) rtt then rtt - delay else rtt

unfoldable pub on_sample : RttEstimator → ℕ → ℕ → ℕ → RttEstimator
unfolding adjust abs_diff
on_sample r rtt ack_delay max_ack_delay =
    if r.sampled
    then (let least = min r.min_rtt rtt in
        let adjusted = adjust least rtt (min ack_delay max_ack_delay) in
        let var_sample = abs_diff r.smoothed adjusted in
        record {
          latest = rtt;
          min_rtt = least;
          smoothed = wrap64 (wrap64 (r.smoothed * 7) + adjusted) / 8;
          rttvar = wrap64 (wrap64 (r.rttvar * 3) + var_sample) / 4;
          sampled = true;
        })
    else record { latest = rtt; min_rtt = rtt; smoothed = rtt; rttvar = rtt / 2; sampled = true }

unfoldable pub pto_base : RttEstimator → ℕ → ℕ
pto_base r max_ack_delay =
    wrap64 (wrap64 (r.smoothed + max (wrap64 (4 * r.rttvar)) 1000) + max_ack_delay)

pub record Congestion : Type 0 where
  pub cwnd : ℕ
  pub bytes_in_flight : ℕ
  pub ssthresh : ℕ
  pub recovery_start : ℕ

abbrev pub default_congestion : Congestion
default_congestion = record {
  cwnd = 12000;
  bytes_in_flight = 0;
  ssthresh = 18446744073709551615;
  recovery_start = 0;
}

unfoldable pub budget : Congestion → ℕ
budget c = c.cwnd - c.bytes_in_flight

unfoldable pub on_sent : Congestion → ℕ → Congestion
on_sent c size = record c { bytes_in_flight = wrap64 (c.bytes_in_flight + size) }

unfoldable pub on_acked : Congestion → ℕ → Congestion
on_acked c size =
    let growth = if ltb c.cwnd c.ssthresh then size else wrap64 (1200 * size) / max c.cwnd 1 in
    record c { bytes_in_flight = c.bytes_in_flight - size; cwnd = wrap64 (c.cwnd + growth) }

unfoldable pub on_loss : Congestion → ℕ → ℕ → Congestion
on_loss c lost_bytes largest_lost_sent =
    let in_flight = c.bytes_in_flight - lost_bytes in
    if leb largest_lost_sent c.recovery_start
    then record c { bytes_in_flight = in_flight }
    else record {
      cwnd = max (c.cwnd / 2) 2400;
      bytes_in_flight = in_flight;
      ssthresh = max (c.cwnd / 2) 2400;
      recovery_start = largest_lost_sent;
    }
