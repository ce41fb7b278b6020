-- ===== src/Quic/FrameRoundTrip.antt =====
-- That lib/mb-quic/src/frame.rs reads back the frames that it writes.
use meshbus_rs.Prelude.{
  ℕ, zero, suc, ◌+◌, ◌≡◌, ◌≤◌, ◌<◌, ◌==◌, leb, refl, ap, ◌∙◌, arith, Bool, true, false, Bool-cases,
  inl, inr,
}
use meshbus_rs.Prelude.{
  Bytes, length, length-append, take-append, drop-append, replicate, List, [], ◌∷◌, ◌++◌, All, ok,
}
use meshbus_rs.Quic.Varint.{encode_varint, decode_varint-encode_varint}
use meshbus_rs.Quic.Frames.{
  AckRange, Frame, encode_ranges, encode_sized, stream_type, encode_offset, encode_cause,
  encode_frame, read_varint, read_bytes, read_sized, read_ranges, skip_varints, skip_zeros,
  read_ack, read_pair, read_one, read_reset, read_crypto, read_offset, read_payload, read_stream,
  read_close, read_datagram, decode_padding, decode_frame,
}
use mathlib.Core.List.{append_assoc}

abbrev pub IsVarint : ℕ → Type 0
IsVarint v = v < 4611686018427387904

-- The bytes behind a run of padding do not go on with padding.
abbrev pub NoZero : Bytes → Type 0
NoZero [] = Unit {0}
NoZero (b ∷ bs) = 0 < b

abbrev pub AreVarints : List AckRange → Type 0
AreVarints rs = All (λ r. (r.gap < 4611686018427387904) × (r.range < 4611686018427387904)) rs

-- A frame that can stand on the wire before the bytes `rest`.
abbrev pub IsWire : Frame → Bytes → Type 0
IsWire (Frame.padding n) rest = (0 < n) × NoZero rest
IsWire Frame.ping rest = Unit {0}
IsWire Frame.handshake_done rest = Unit {0}
IsWire (Frame.ack largest delay first ranges) rest =
    IsVarint largest
    × IsVarint delay
    × IsVarint first
    × IsVarint (length ranges)
    × AreVarints ranges
IsWire (Frame.reset_stream id code size) rest = IsVarint id × IsVarint code × IsVarint size
IsWire (Frame.stop_sending id code) rest = IsVarint id × IsVarint code
IsWire (Frame.crypto offset bytes) rest = IsVarint offset × (length bytes ≤ 1048576)
IsWire (Frame.stream id offset fin bytes) rest =
    IsVarint id × IsVarint offset × (length bytes ≤ 1048576)
IsWire (Frame.max_data max) rest = IsVarint max
IsWire (Frame.max_stream_data id max) rest = IsVarint id × IsVarint max
IsWire (Frame.max_streams bidi max) rest = IsVarint max
IsWire (Frame.data_blocked limit) rest = IsVarint limit
IsWire (Frame.stream_data_blocked id limit) rest = IsVarint id × IsVarint limit
IsWire (Frame.streams_blocked bidi limit) rest = IsVarint limit
IsWire (Frame.connection_close application code reason) rest =
    IsVarint code × (length reason ≤ 1048576)
IsWire (Frame.datagram bytes) rest = length bytes ≤ 1048576

read_varint-encode :
    (v : ℕ) (r : Bytes) → IsVarint v → read_varint (encode_varint v ++ r) ≡ ok (v, r)
unfolding read_varint
read_varint-encode v r h =
    let (p, q) = decode_varint-encode_varint v r h in
    rw (p) (rw (← q, drop-append (encode_varint v) r) refl)

read_sized-encode :
    (b r : Bytes) → length b ≤ 1048576 → read_sized (encode_sized b ++ r) ≡ ok (b, r)
unfolding read_sized encode_sized read_bytes
read_sized-encode b r h =
    let s : leb (length b) 1048576 ≡ true = ground arith in
    let f : leb (length b) (length (b ++ r)) ≡ true = ground (arith, length-append b r) in
    rw
      (
        append_assoc (encode_varint (length b)) b r,
        read_varint-encode (length b) (b ++ r) (omega arith),
        s,
        f,
        take-append b r,
        drop-append b r,
      )
      refl

read_pair-encode :
    (frame : ℕ → ℕ → Frame) (a b : ℕ) (r : Bytes)
    → IsVarint a
    → IsVarint b
    → read_pair frame ((encode_varint a ++ encode_varint b) ++ r) ≡ ok (frame a b, r)
unfolding read_pair
read_pair-encode frame a b r h k =
    rw
      (
        append_assoc (encode_varint a) (encode_varint b) r,
        read_varint-encode a (encode_varint b ++ r) h,
        read_varint-encode b r k,
      )
      refl

read_one-encode :
    (frame : ℕ → Frame) (a : ℕ) (r : Bytes)
    → IsVarint a
    → read_one frame (encode_varint a ++ r) ≡ ok (frame a, r)
unfolding read_one
read_one-encode frame a r h = rw (read_varint-encode a r h) refl

read_ranges-encode :
    (rs : List AckRange) (r : Bytes)
    → AreVarints rs
    → read_ranges (length rs) (encode_ranges rs ++ r) ≡ ok (rs, r)
unfolding read_ranges encode_ranges
read_ranges-encode [] r h = refl
read_ranges-encode (x ∷ rs) r ((h, k), hs) =
    let more = encode_ranges rs ++ r in
    let p : encode_ranges (x ∷ rs) ++ r ≡ encode_varint x.gap ++ (encode_varint x.range ++ more) =
      append_assoc (encode_varint x.gap) (encode_varint x.range ++ encode_ranges rs) r
      ∙ ap (λ (t : Bytes). encode_varint x.gap ++ t)
          (append_assoc (encode_varint x.range) (encode_ranges rs) r) in
    let a = read_varint-encode x.gap (encode_varint x.range ++ more) h in
    let b = read_varint-encode x.range more k in
    let c = read_ranges-encode rs r hs in rw (p, a, b, c) refl

skip_zeros-replicate :
    (n k : ℕ) (rest : Bytes) → NoZero rest → skip_zeros k (replicate n 0 ++ rest) ≡ (k + n, rest)
unfolding skip_zeros
skip_zeros-replicate zero k [] h = let e : k + 0 ≡ k = omega arith in rw (e) refl
skip_zeros-replicate zero k (b ∷ bs) h =
    let e : k + 0 ≡ k = omega arith in let f : (b == 0) ≡ false = ground arith in rw (e, f) refl
skip_zeros-replicate (suc n) k rest h =
    let e : k + suc n ≡ k + 1 + n = omega arith in rw (e) (skip_zeros-replicate n (k + 1) rest h)

assoc3 : (a b c r : Bytes) → (a ++ (b ++ c)) ++ r ≡ a ++ (b ++ (c ++ r))
assoc3 a b c r = append_assoc a (b ++ c) r ∙ ap (λ (t : Bytes). a ++ t) (append_assoc b c r)

read_ack-encode :
    (largest delay first : ℕ) (ranges : List AckRange) (r : Bytes)
    → IsWire (Frame.ack largest delay first ranges) r
    → decode_frame (encode_frame (Frame.ack largest delay first ranges) ++ r)
      ≡ ok (Frame.ack largest delay first ranges, r)
unfolding decode_frame encode_frame read_ack skip_varints
read_ack-encode largest delay first ranges r (h, k, l, m, hs) =
    let a = encode_varint largest in
    let b = encode_varint delay in
    let c = encode_varint (length ranges) in
    let d = encode_varint first in
    let e = encode_ranges ranges in
    let p : (a ++ (b ++ (c ++ (d ++ e)))) ++ r ≡ a ++ (b ++ (c ++ (d ++ (e ++ r)))) =
      assoc3 a b (c ++ (d ++ e)) r ∙ ap (λ (t : Bytes). a ++ (b ++ t)) (assoc3 c d e r) in
    let q1 = read_varint-encode largest (b ++ (c ++ (d ++ (e ++ r)))) h in
    let q2 = read_varint-encode delay (c ++ (d ++ (e ++ r))) k in
    let q3 = read_varint-encode (length ranges) (d ++ (e ++ r)) m in
    let q4 = read_varint-encode first (e ++ r) l in
    rw (p, q1, q2, q3, q4, read_ranges-encode ranges r hs) refl

read_reset-encode :
    (id code size : ℕ) (r : Bytes)
    → IsWire (Frame.reset_stream id code size) r
    → decode_frame (encode_frame (Frame.reset_stream id code size) ++ r)
      ≡ ok (Frame.reset_stream id code size, r)
unfolding decode_frame encode_frame read_reset
read_reset-encode id code size r (h, k, l) =
    let p = assoc3 (encode_varint id) (encode_varint code) (encode_varint size) r in
    let q1 = read_varint-encode id (encode_varint code ++ (encode_varint size ++ r)) h in
    let q2 = read_varint-encode code (encode_varint size ++ r) k in
    let q3 = read_varint-encode size r l in rw (p, q1, q2, q3) refl

read_crypto-encode :
    (offset : ℕ) (bytes r : Bytes)
    → IsWire (Frame.crypto offset bytes) r
    → decode_frame (encode_frame (Frame.crypto offset bytes) ++ r)
      ≡ ok (Frame.crypto offset bytes, r)
unfolding decode_frame encode_frame read_crypto
read_crypto-encode offset bytes r (h, k) =
    let p = append_assoc (encode_varint offset) (encode_sized bytes) r in
    let q = read_varint-encode offset (encode_sized bytes ++ r) h in
    rw (p, q, read_sized-encode bytes r k) refl

read_stream-encode :
    (id offset : ℕ) (fin : Bool) (bytes r : Bytes)
    → IsWire (Frame.stream id offset fin bytes) r
    → decode_frame (encode_frame (Frame.stream id offset fin bytes) ++ r)
      ≡ ok (Frame.stream id offset fin bytes, r)
unfolding decode_frame encode_frame read_stream read_offset read_payload stream_type encode_offset
read_stream-encode id offset fin bytes r (h, k, l) = elim (Bool-cases (offset == 0)) [
  | inl e ↦
      let z : offset ≡ 0 = ground arith in
      let p = append_assoc (encode_varint id) (encode_sized bytes) r in
      let q = read_varint-encode id (encode_sized bytes ++ r) h in
      elim (Bool-cases fin) [
        | inl f ↦ rw (e, f, z) (rw (p, q, read_sized-encode bytes r l) refl)
        | inr f ↦ rw (e, f, z) (rw (p, q, read_sized-encode bytes r l) refl)
      ]
  | inr e ↦
      let p = assoc3 (encode_varint id) (encode_varint offset) (encode_sized bytes) r in
      let q1 = read_varint-encode id (encode_varint offset ++ (encode_sized bytes ++ r)) h in
      let q2 = read_varint-encode offset (encode_sized bytes ++ r) k in
      elim (Bool-cases fin) [
        | inl f ↦ rw (e, f) (rw (p, q1, q2, read_sized-encode bytes r l) refl)
        | inr f ↦ rw (e, f) (rw (p, q1, q2, read_sized-encode bytes r l) refl)
      ]
]

read_close-encode :
    (application : Bool) (code : ℕ) (reason r : Bytes)
    → IsWire (Frame.connection_close application code reason) r
    → decode_frame (encode_frame (Frame.connection_close application code reason) ++ r)
      ≡ ok (Frame.connection_close application code reason, r)
unfolding decode_frame encode_frame read_close encode_cause skip_varints
read_close-encode true code reason r (h, k) =
    let p = append_assoc (encode_varint code) (encode_sized reason) r in
    let q = read_varint-encode code (encode_sized reason ++ r) h in
    rw (p, q, read_sized-encode reason r k) refl
read_close-encode false code reason r (h, k) =
    let p = assoc3 (encode_varint code) (encode_varint 0) (encode_sized reason) r in
    let q1 = read_varint-encode code (encode_varint 0 ++ (encode_sized reason ++ r)) h in
    let q2 = read_varint-encode 0 (encode_sized reason ++ r) (omega arith) in
    rw (p, q1, q2, read_sized-encode reason r k) refl

-- Every frame is decoded from its bytes, and exactly the bytes behind it are left, where its numbers are
-- below 2 ^ 62 and its bytes are at most 2 ^ 20; a run of padding also is not empty, and no zero follows it.
pub decode_frame-encode_frame :
    (f : Frame) (rest : Bytes)
    → IsWire f rest
    → decode_frame (encode_frame f ++ rest) ≡ ok (f, rest)
unfolding decode_frame encode_frame decode_padding read_datagram
decode_frame-encode_frame (Frame.padding zero) rest (h, k) = absurd (omega (arith, h))
decode_frame-encode_frame (Frame.padding (suc n)) rest (h, k) =
    let e : 1 + n ≡ suc n = omega arith in rw (skip_zeros-replicate n 1 rest k, e) refl
decode_frame-encode_frame Frame.ping rest h = refl
decode_frame-encode_frame Frame.handshake_done rest h = refl
decode_frame-encode_frame (Frame.ack largest delay first ranges) rest h =
    read_ack-encode largest delay first ranges rest h
decode_frame-encode_frame (Frame.reset_stream id code size) rest h =
    read_reset-encode id code size rest h
decode_frame-encode_frame (Frame.stop_sending id code) rest (h, k) =
    read_pair-encode Frame.stop_sending id code rest h k
decode_frame-encode_frame (Frame.crypto offset bytes) rest h =
    read_crypto-encode offset bytes rest h
decode_frame-encode_frame (Frame.stream id offset fin bytes) rest h =
    read_stream-encode id offset fin bytes rest h
decode_frame-encode_frame (Frame.max_data max) rest h = read_one-encode Frame.max_data max rest h
decode_frame-encode_frame (Frame.max_stream_data id max) rest (h, k) =
    read_pair-encode Frame.max_stream_data id max rest h k
decode_frame-encode_frame (Frame.max_streams true max) rest h =
    read_one-encode (Frame.max_streams true) max rest h
decode_frame-encode_frame (Frame.max_streams false max) rest h =
    read_one-encode (Frame.max_streams false) max rest h
decode_frame-encode_frame (Frame.data_blocked limit) rest h =
    read_one-encode Frame.data_blocked limit rest h
decode_frame-encode_frame (Frame.stream_data_blocked id limit) rest (h, k) =
    read_pair-encode Frame.stream_data_blocked id limit rest h k
decode_frame-encode_frame (Frame.streams_blocked true limit) rest h =
    read_one-encode (Frame.streams_blocked true) limit rest h
decode_frame-encode_frame (Frame.streams_blocked false limit) rest h =
    read_one-encode (Frame.streams_blocked false) limit rest h
decode_frame-encode_frame (Frame.connection_close application code reason) rest h =
    read_close-encode application code reason rest h
decode_frame-encode_frame (Frame.datagram bytes) rest h = rw (read_sized-encode bytes rest h) refl
