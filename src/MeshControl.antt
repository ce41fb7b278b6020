-- ===== src/MeshControl.antt =====
-- lib/mb-mesh-control/src/lib.rs: the send budget, RTT and loss control of one Mesh path. The
-- controller's state is a record, and a `&mut self` method returns the next state. `u64` arithmetic
-- that is not saturating wraps, as in a release build; a shift counts modulo 64, as there.
use meshbus_rs.Prelude.{
  ℕ, zero, suc, ◌+◌, ◌-◌, ◌*◌, ◌/◌, ◌%◌, ◌^◌, min, max, ltb, leb, nat_eq, Eq, any,
}
use meshbus_rs.Prelude.{Bool, true, false, not, ◌&&◌, List, [], ◌∷◌, ◌++◌, Option, none, some}
use meshbus_rs.Prelude.{lookup, remove, keys, if◌then◌else◌, is_empty}
use meshbus_rs.MeshProto.Types.{SeqRange, AckNack}
pub mod Rtt
pub mod Acks
pub mod Account
mod Tests

abbrev pub granularity_us : ℕ
granularity_us = 1000

abbrev initial_rtt_us : ℕ
initial_rtt_us = 333000

abbrev pub max_ack_delay_us : ℕ
max_ack_delay_us = 25000

abbrev max_datagram_bytes : ℕ
max_datagram_bytes = 1200

abbrev initial_window_bytes : ℕ
initial_window_bytes = 10 * max_datagram_bytes

abbrev pub min_window_bytes : ℕ
min_window_bytes = 2 * max_datagram_bytes

-- `2 ^ 64`.
abbrev pub word : ℕ
word = 18446744073709551616

abbrev pub saturating_add : ℕ → ℕ → ℕ
saturating_add a b = min (a + b) (word - 1)

abbrev pub abs_diff : ℕ → ℕ → ℕ
abs_diff a b = if ltb a b then b - a else a - b

pub record InflightPackage : Type 0 where
  pub seq : ℕ
  pub sent_at_us : ℕ
  pub size : ℕ
  pub ack_eliciting : Bool

pub record AckUpdate : Type 0 where
  pub acked_seqs : List ℕ
  pub lost_seqs : List ℕ

pub record MeshRttEstimator : Type 0 where
  pub latest : ℕ
  pub min_rtt : ℕ
  pub smoothed : ℕ
  pub rttvar : ℕ
  pub sampled : Bool

abbrev pub default_rtt : MeshRttEstimator
default_rtt = record {
  latest = initial_rtt_us;
  min_rtt = initial_rtt_us;
  smoothed = initial_rtt_us;
  rttvar = initial_rtt_us / 2;
  sampled = false;
}

-- The sample less the peer's delay, where that does not fall below the least sample.
pub adjusted_rtt : ℕ → ℕ → ℕ → ℕ
adjusted_rtt least rtt ack_delay =
    let delay = min ack_delay max_ack_delay_us in
    if leb ((least + delay) % word) rtt then rtt - delay else rtt

-- A sample after the first, its adjusted value at hand.
smooth : MeshRttEstimator → ℕ → ℕ → MeshRttEstimator
smooth r rtt adjusted = record {
  latest = rtt;
  min_rtt = min r.min_rtt rtt;
  smoothed = ((r.smoothed * 7 + adjusted) % word) / 8;
  rttvar = ((r.rttvar * 3 + abs_diff r.smoothed adjusted) % word) / 4;
  sampled = true;
}

pub on_sample : MeshRttEstimator → ℕ → ℕ → MeshRttEstimator
unfolding adjusted_rtt smooth
on_sample r rtt ack_delay =
    if r.sampled
    then smooth r rtt (adjusted_rtt (min r.min_rtt rtt) rtt ack_delay)
    else record { latest = rtt; min_rtt = rtt; smoothed = rtt; rttvar = rtt / 2; sampled = true }

pub pto_base : MeshRttEstimator → ℕ
pto_base r = (r.smoothed + max ((4 * r.rttvar) % word) granularity_us + max_ack_delay_us) % word

pub record MeshPathController : Type 0 where
  pub rtt : MeshRttEstimator
  pub cwnd : ℕ
  pub bytes_in_flight : ℕ
  pub pto_count : ℕ
  pub inflight : List (ℕ × InflightPackage)
  pub last_ack_eliciting_sent_at : Option ℕ

abbrev pub default_controller : MeshPathController
default_controller = record {
  rtt = default_rtt;
  cwnd = initial_window_bytes;
  bytes_in_flight = 0;
  pto_count = 0;
  inflight = [];
  last_ack_eliciting_sent_at = none;
}

unfoldable pub send_budget : MeshPathController → ℕ
send_budget c = c.cwnd - c.bytes_in_flight

-- `BTreeMap::insert`: the entries stand in the order of their keys.
pub insert_sorted : ℕ → InflightPackage → List (ℕ × InflightPackage) → List (ℕ × InflightPackage)
insert_sorted k p [] = (k, p) ∷ []
insert_sorted k p ((j, q) ∷ m) =
    if ltb j k
    then (j, q) ∷ insert_sorted k p m
    else if ltb k j
    then (k, p) ∷ (j, q) ∷ m
    else (k, p) ∷ m

pub on_sent : MeshPathController → InflightPackage → MeshPathController
unfolding insert_sorted
on_sent c p =
    if p.ack_eliciting
    then record c {
      last_ack_eliciting_sent_at = some p.sent_at_us;
      bytes_in_flight = saturating_add c.bytes_in_flight p.size;
      inflight = insert_sorted p.seq p c.inflight;
    }
    else record c { inflight = insert_sorted p.seq p c.inflight }

unfoldable pub missing : List SeqRange → ℕ → Bool
missing ranges seq = any (λ r. leb r.start seq && leb seq r.last) ranges

pub lose :
    MeshPathController → AckUpdate → ℕ → Option InflightPackage → MeshPathController × AckUpdate
lose c u seq none = (c, u)
lose c u seq (some p) = (
  record c { inflight = remove seq c.inflight; bytes_in_flight = c.bytes_in_flight - p.size },
  record u { lost_seqs = u.lost_seqs ++ (seq ∷ []) },
)

pub acknowledge :
    MeshPathController
    → AckUpdate
    → ℕ
    → ℕ
    → ℕ
    → Option InflightPackage
    → MeshPathController × AckUpdate
unfolding on_sample
acknowledge c u ack_delay_us now_us seq none = (c, u)
acknowledge c u ack_delay_us now_us seq (some p) =
    let c' = record c { inflight = remove seq c.inflight } in
    (
      (if p.ack_eliciting
          then record c' {
            bytes_in_flight = c.bytes_in_flight - p.size;
            cwnd = saturating_add c.cwnd p.size;
            rtt = on_sample c.rtt (now_us - p.sent_at_us) ack_delay_us;
          }
          else c'),
      record u { acked_seqs = u.acked_seqs ++ (seq ∷ []) },
    )

-- One turn of the loop over the keys that were in flight.
pub settle :
    List SeqRange → ℕ → ℕ → ℕ → MeshPathController × AckUpdate → MeshPathController × AckUpdate
unfolding missing lose acknowledge
settle ranges ack_delay_us now_us seq (c, u) =
    if missing ranges seq
    then lose c u seq (lookup seq c.inflight)
    else acknowledge c u ack_delay_us now_us seq (lookup seq c.inflight)

pub settle_all :
    List SeqRange → ℕ → ℕ → List ℕ → MeshPathController × AckUpdate → MeshPathController × AckUpdate
unfolding settle
settle_all ranges ack_delay_us now_us [] s = s
settle_all ranges ack_delay_us now_us (seq ∷ seqs) s =
    settle_all ranges ack_delay_us now_us seqs (settle ranges ack_delay_us now_us seq s)

pub on_ack : MeshPathController → AckNack → ℕ → ℕ → MeshPathController × AckUpdate
unfolding settle_all
on_ack c ack ack_delay_us now_us =
    let (c', u) =
      settle_all ack.missing_ranges ack_delay_us now_us (keys c.inflight)
        (c, record { acked_seqs = []; lost_seqs = [] }) in
    ((if is_empty u.acked_seqs then c' else record c' { pto_count = 0 }), u)

unfoldable pub loss_timer : MeshPathController → Option ℕ
unfolding pto_base
loss_timer c = elim c.last_ack_eliciting_sent_at [
  | none ↦ none
  | some last ↦ some ((last + (pto_base c.rtt * 2 ^ (c.pto_count % 64)) % word) % word)
]

pub on_pto_expired : MeshPathController → MeshPathController
on_pto_expired c = record c {
  pto_count = min (c.pto_count + 1) (2 ^ 32 - 1);
  cwnd = max c.cwnd min_window_bytes;
}
