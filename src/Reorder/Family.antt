-- ===== src/Reorder/Family.antt =====
-- `FamilyReorderState` of lib/mb-reorder/src/lib.rs.
pub mod Missing
pub mod Deliver
pub mod Invariant
pub mod Stream
pub mod Complete
use meshbus_rs.Prelude.{
  ℕ, zero, suc, ◌+◌, ◌-◌, ◌*◌, ◌/◌, ◌%◌, ◌^◌, min, max, ltb, leb, ◌==◌, nat_eq, Eq,
}
use meshbus_rs.Prelude.{
  Text, Bool, true, false, ◌||◌, List, [], ◌∷◌, ◌++◌, Option, none, some, is_some,
}
use meshbus_rs.Prelude.{length, keys, lookup, insert, remove, contains_key, if◌then◌else◌}
use meshbus_rs.Bits.{set_bit}
use meshbus_rs.MeshProto.Types.{CloseReasonWire, DataPackage, SeqRange, AckNack}

abbrev pub family_bitmap_bits : ℕ
family_bitmap_bits = 128

pub data FamilyPushOutcome : Type 0 where
  deliver : List DataPackage → FamilyPushOutcome
  buffered duplicate : FamilyPushOutcome
  gap window_overflow : AckNack → FamilyPushOutcome

abbrev pub Packages : Type 0
Packages = List (ℕ × DataPackage)

pub record FamilyReorderState : Type 0 where
  pub family_id : Text
  pub next_expected_seq : ℕ
  pub received_bitmap : ℕ
  pub reorder_window : ℕ
  pub repair_deadline_ms : ℕ
  pub buffer : Packages
  pub highest_seen : Option ℕ
  pub closed : Option CloseReasonWire

unfoldable pub new_family : Text → ℕ → ℕ → ℕ → FamilyReorderState
new_family family_id start_seq reorder_window repair_deadline_ms = record {
  family_id = family_id;
  next_expected_seq = start_seq;
  received_bitmap = 0;
  reorder_window = reorder_window;
  repair_deadline_ms = repair_deadline_ms;
  buffer = [];
  highest_seen = none;
  closed = none;
}

abbrev pub window : FamilyReorderState → ℕ
window s = min s.reorder_window family_bitmap_bits

-- `bits |= 1 << d` for each key whose distance fits the bitmap. No key is below `next`, so the
-- subtraction does not stop at 0.
unfoldable pub bitmap_of : ℕ → List ℕ → ℕ
bitmap_of next [] = 0
bitmap_of next (k ∷ ks) =
    let bits = bitmap_of next ks in
    if ltb (k - next) family_bitmap_bits then set_bit bits (k - next) else bits

unfoldable pub rebuild_bitmap : FamilyReorderState → FamilyReorderState
rebuild_bitmap s = record s { received_bitmap = bitmap_of s.next_expected_seq (keys s.buffer) }

-- The run of missing numbers that ends before a number that is there.
pub closed_run : Bool → ℕ → Option ℕ → List SeqRange
closed_run true seq (some start) = record { start = start; last = seq - 1 } ∷ []
closed_run true seq none = []
closed_run false seq run = []

pub next_run : Bool → ℕ → Option ℕ → Option ℕ
next_run true seq run = none
next_run false seq none = some seq
next_run false seq (some start) = some start

-- The ranges that the scan of `seq, seq + 1, …` (`n` numbers, up to `highest`) pushes, where
-- `run_start` is the start of the run of missing numbers before `seq`.
pub missing_from : Packages → ℕ → ℕ → ℕ → Option ℕ → List SeqRange
missing_from buf highest seq zero none = []
missing_from buf highest seq zero (some start) = record { start = start; last = highest } ∷ []
missing_from buf highest seq (suc n) run_start =
    closed_run (contains_key seq buf) seq run_start
    ++ missing_from buf highest (seq + 1) n (next_run (contains_key seq buf) seq run_start)

pub missing_up_to : FamilyReorderState → Option ℕ → List SeqRange
missing_up_to s none = []
missing_up_to s (some highest) =
    missing_from s.buffer highest s.next_expected_seq (highest + 1 - s.next_expected_seq) none

pub missing_ranges_of : FamilyReorderState → List SeqRange
missing_ranges_of s = missing_up_to s s.highest_seen

abbrev hex_digit : ℕ → ℕ
hex_digit d = if ltb d 10 then d + b'0' else d - 10 + b'a'

-- `{:0width$x}`, for a number that fits the width.
unfoldable pub to_hex : ℕ → ℕ → Text
to_hex zero n = []
to_hex (suc width) n = to_hex width (n / 16) ++ (hex_digit (n % 16) ∷ [])

unfoldable pub ack_snapshot : FamilyReorderState → AckNack
ack_snapshot s = record {
  family_id = s.family_id;
  cumulative_seq = s.next_expected_seq;
  received_bitmap = to_hex 32 s.received_bitmap;
  missing_ranges = missing_ranges_of s;
}

-- `while let Some(next) = buffer.remove(&next_expected_seq)`; a round removes a pkg, so the
-- length of the buffer bounds the rounds.
unfoldable pub drain : ℕ → Packages → ℕ → List DataPackage × Packages × ℕ
drain zero buf next = ([], buf, next)
drain (suc fuel) buf next = elim (lookup next buf) [
  | none ↦ ([], buf, next)
  | some p ↦
      let (ps, buf', next') = drain fuel (remove next buf) (next + 1) in (p ∷ ps, buf', next')
]

unfoldable pub deliver_from :
    FamilyReorderState → DataPackage → FamilyPushOutcome × FamilyReorderState
deliver_from s pkg =
    let (ps, buf, next) = drain (length s.buffer) s.buffer (s.next_expected_seq + 1) in
    (
      FamilyPushOutcome.deliver (pkg ∷ ps),
      rebuild_bitmap (record s { buffer = buf; next_expected_seq = next }),
    )

abbrev pub is_new_highest : Option ℕ → ℕ → Bool
is_new_highest none seq = true
is_new_highest (some h) seq = ltb h seq

abbrev pub highest_with : Option ℕ → ℕ → ℕ
highest_with none seq = seq
highest_with (some h) seq = max h seq

unfoldable pub store : FamilyReorderState → DataPackage → FamilyReorderState
store s pkg = rebuild_bitmap (record s {
  buffer = insert pkg.seq pkg s.buffer;
  highest_seen = some (highest_with s.highest_seen pkg.seq);
})

unfoldable pub push_package :
    FamilyReorderState → DataPackage → FamilyPushOutcome × FamilyReorderState
push_package s pkg =
    if is_some s.closed
    then (FamilyPushOutcome.window_overflow (ack_snapshot s), s)
    else if ltb pkg.seq s.next_expected_seq || contains_key pkg.seq s.buffer
    then (FamilyPushOutcome.duplicate, s)
    else if pkg.seq == s.next_expected_seq
    then deliver_from s pkg
    else if leb (window s) (pkg.seq - s.next_expected_seq)
    then (
      FamilyPushOutcome.window_overflow
          (ack_snapshot (record s { closed = some CloseReasonWire.protocol_error })),
      record s { closed = some CloseReasonWire.protocol_error },
    )
    else if is_new_highest s.highest_seen pkg.seq
    then (FamilyPushOutcome.gap (ack_snapshot (store s pkg)), store s pkg)
    else (FamilyPushOutcome.buffered, store s pkg)
