-- ===== src/Quic/Streams.antt =====
-- lib/mb-quic/src/stream.rs: the numbers of streams, and the table of a connection's streams.
use meshbus_rs.Prelude.{
  ℕ, ◌+◌, ◌*◌, ◌/◌, ◌%◌, ◌≡◌, ◌<◌, ◌==◌, arith, Bool, true, false, not, if◌then◌else◌,
}
use meshbus_rs.Quic.{Side, wrap64}

unfoldable pub initiator : ℕ → Side
initiator id = if id % 2 == 0 then Side.client else Side.server

unfoldable pub is_bidi : ℕ → Bool
is_bidi id = id / 2 % 2 == 0

abbrev pub is_server : Side → Bool
is_server Side.client = false
is_server Side.server = true

-- `v |= 1` and `v |= 2`
abbrev or_one : ℕ → ℕ
or_one v = if v % 2 == 0 then v + 1 else v

abbrev or_two : ℕ → ℕ
or_two v = if v / 2 % 2 == 0 then v + 2 else v

unfoldable pub nth : Side → Bool → ℕ → ℕ
nth side bidi index =
    let v = wrap64 (index * 4) in
    let w = if is_server side then or_one v else v in if not bidi then or_two w else w

-- A stream's number tells who opened it, its kind and its index, so that no two streams of a connection
-- have one number, while the index is below 2 ^ 62.
pub nth_lem :
    (side : Side) (bidi : Bool) (index : ℕ)
    → index < 4611686018427387904
    → (initiator (nth side bidi index) ≡ side)
      × (is_bidi (nth side bidi index) ≡ bidi)
      × (nth side bidi index / 4 ≡ index)
unfolding nth initiator is_bidi
nth_lem Side.client true index h = (ground arith, ground arith, ground arith)
nth_lem Side.client false index h = (ground arith, ground arith, ground arith)
nth_lem Side.server true index h = (ground arith, ground arith, ground arith)
nth_lem Side.server false index h = (ground arith, ground arith, ground arith)
