-- ===== src/Quic/Recv.antt =====
-- `RecvStream` of lib/mb-quic/src/stream.rs: chunks that arrive in any order are read in order.
use meshbus_rs.Prelude.{
  ℕ, ◌+◌, ◌-◌, ltb, leb, ◌==◌, max, Bool, true, false, ◌||◌, if◌then◌else◌, is_empty,
}
use meshbus_rs.Prelude.{Bytes, List, [], ◌∷◌, ◌++◌, length, drop, Option, none, some}

-- The chunks stand in the order of their offsets.
pub record RecvStream : Type 0 where
  pub chunks : List (ℕ × Bytes)
  pub read_off : ℕ
  pub final_size : Option ℕ
  pub stopped : Bool

abbrev pub new_recv : RecvStream
new_recv = record { chunks = []; read_off = 0; final_size = none; stopped = false }

-- `BTreeMap::entry(off).or_insert`
unfoldable pub or_insert : ℕ → Bytes → List (ℕ × Bytes) → List (ℕ × Bytes)
or_insert off bytes [] = (off, bytes) ∷ []
or_insert off bytes ((o, b) ∷ rest) =
    if off == o
    then (o, b) ∷ rest
    else if ltb off o
    then (off, bytes) ∷ (o, b) ∷ rest
    else (o, b) ∷ or_insert off bytes rest

unfoldable pub ingest : RecvStream → ℕ → Bytes → Bool → RecvStream
unfolding or_insert
ingest s offset bytes fin =
    let size = offset + length bytes in
    let t : RecvStream = if fin then record s { final_size = some size } else s in
    let start = max offset s.read_off in
    if leb size s.read_off || is_empty bytes
    then t
    else record t { chunks = or_insert start (drop (start - offset) bytes) s.chunks }

-- The loop of `read`: the bytes, the chunks that are left, and the new offset.
unfoldable pub read_from : List (ℕ × Bytes) → ℕ → Bytes × List (ℕ × Bytes) × ℕ
read_from [] at_ = ([], [], at_)
read_from ((off, bytes) ∷ rest) at_ =
    let skip = at_ - off in
    let fresh = drop skip bytes in
    let (out, left, end) = read_from rest (at_ + length fresh) in
    if ltb at_ off then ([], (off, bytes) ∷ rest, at_) else (fresh ++ out, left, end)

unfoldable pub read : RecvStream → Bytes × RecvStream
unfolding read_from
read s =
    let (out, left, end) = read_from s.chunks s.read_off in
    (out, record s { chunks = left; read_off = end })

unfoldable pub is_finished : RecvStream → Bool
is_finished s = elim s.final_size [ none ↦ false | some fs ↦ leb fs s.read_off ]

unfoldable pub stop : RecvStream → RecvStream
stop s = record s { stopped = true }

first_ready : List (ℕ × Bytes) → ℕ → Bool
first_ready [] at_ = false
first_ready ((off, bytes) ∷ rest) at_ = leb off at_

unfoldable pub has_readable : RecvStream → Bool
unfolding first_ready
has_readable s =
    first_ready s.chunks s.read_off
    || elim s.final_size [ none ↦ false | some fs ↦ ltb s.read_off fs ]
