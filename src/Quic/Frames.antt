-- ===== src/Quic/Frames.antt =====
-- lib/mb-quic/src/frame.rs: frames and their bytes. A reader gives its value and the bytes behind it, where
-- the code counts the bytes that it has consumed.
use meshbus_rs.Prelude.{
  ℕ, zero, suc, ◌+◌, ◌/◌, ◌%◌, ◌==◌, leb, Bool, true, false, ◌&&◌, ◌||◌, if◌then◌else◌, text,
}
use meshbus_rs.Prelude.{
  Bytes, length, take, drop, replicate, List, [], ◌∷◌, ◌++◌, Result, ok, err, ◌>>=◌, ◌>>◌, require,
}
use meshbus_rs.Quic.Varint.{QuicError, encode_varint, decode_varint}

pub record AckRange : Type 0 where
  pub gap : ℕ
  pub range : ℕ

pub data Frame : Type 0 where
  padding : ℕ → Frame
  ping handshake_done : Frame
  ack : ℕ → ℕ → ℕ → List AckRange → Frame
  reset_stream : ℕ → ℕ → ℕ → Frame
  stop_sending : ℕ → ℕ → Frame
  crypto : ℕ → Bytes → Frame
  stream : ℕ → ℕ → Bool → Bytes → Frame
  max_data : ℕ → Frame
  max_stream_data : ℕ → ℕ → Frame
  max_streams : Bool → ℕ → Frame
  data_blocked : ℕ → Frame
  stream_data_blocked : ℕ → ℕ → Frame
  streams_blocked : Bool → ℕ → Frame
  connection_close : Bool → ℕ → Bytes → Frame
  datagram : Bytes → Frame

unfoldable pub encode_ranges : List AckRange → Bytes
encode_ranges [] = []
encode_ranges (r ∷ rs) = encode_varint r.gap ++ (encode_varint r.range ++ encode_ranges rs)

-- A length and as many bytes.
unfoldable pub encode_sized : Bytes → Bytes
encode_sized bytes = encode_varint (length bytes) ++ bytes

unfoldable pub stream_type : ℕ → Bool → ℕ
stream_type offset fin = 10 + (if offset == 0 then 0 else 4) + (if fin then 1 else 0)

unfoldable pub encode_offset : ℕ → Bytes
encode_offset offset = if offset == 0 then [] else encode_varint offset

unfoldable pub encode_cause : Bool → Bytes
encode_cause application = if application then [] else encode_varint 0

unfoldable pub encode_frame : Frame → Bytes
encode_frame (Frame.padding n) = replicate n 0
encode_frame Frame.ping = 1 ∷ []
encode_frame (Frame.ack largest delay first ranges) =
    2
    ∷ (encode_varint largest
        ++ (encode_varint delay
            ++ (encode_varint (length ranges) ++ (encode_varint first ++ encode_ranges ranges))))
encode_frame (Frame.reset_stream id code size) =
    4 ∷ (encode_varint id ++ (encode_varint code ++ encode_varint size))
encode_frame (Frame.stop_sending id code) = 5 ∷ (encode_varint id ++ encode_varint code)
encode_frame (Frame.crypto offset bytes) = 6 ∷ (encode_varint offset ++ encode_sized bytes)
encode_frame (Frame.stream id offset fin bytes) =
    stream_type offset fin ∷ (encode_varint id ++ (encode_offset offset ++ encode_sized bytes))
encode_frame (Frame.max_data max) = 16 ∷ encode_varint max
encode_frame (Frame.max_stream_data id max) = 17 ∷ (encode_varint id ++ encode_varint max)
encode_frame (Frame.max_streams bidi max) = (if bidi then 18 else 19) ∷ encode_varint max
encode_frame (Frame.data_blocked limit) = 20 ∷ encode_varint limit
encode_frame (Frame.stream_data_blocked id limit) = 21 ∷ (encode_varint id ++ encode_varint limit)
encode_frame (Frame.streams_blocked bidi limit) = (if bidi then 22 else 23) ∷ encode_varint limit
encode_frame (Frame.datagram bytes) = 49 ∷ encode_sized bytes
encode_frame (Frame.connection_close application code reason) =
    (if application then 29 else 28)
    ∷ (encode_varint code ++ (encode_cause application ++ encode_sized reason))
encode_frame Frame.handshake_done = 30 ∷ []

unfoldable pub read_varint : Bytes → Result QuicError (ℕ × Bytes)
read_varint buf = do v ← decode_varint buf; ok (v.0, drop v.1 buf)

-- `len` bytes, of which one frame holds 2 ^ 20 at most.
unfoldable pub read_bytes : ℕ → Bytes → Result QuicError (Bytes × Bytes)
read_bytes len buf = do
  require (leb len 1048576) (QuicError.malformed (text "frame payload exceeds MAX_FRAME_PAYLOAD"))
  require (leb len (length buf)) QuicError.short_buffer
  ok (take len buf, drop len buf)

unfoldable pub read_sized : Bytes → Result QuicError (Bytes × Bytes)
read_sized buf = do len ← read_varint buf; read_bytes len.0 len.1

unfoldable pub read_ranges : ℕ → Bytes → Result QuicError (List AckRange × Bytes)
read_ranges zero buf = ok ([], buf)
read_ranges (suc count) buf = do
  gap ← read_varint buf
  range ← read_varint gap.1
  more ← read_ranges count range.1
  ok (record { gap = gap.0; range = range.0 } ∷ more.0, more.1)

unfoldable pub skip_varints : ℕ → Bytes → Result QuicError Bytes
skip_varints zero buf = ok buf
skip_varints (suc n) buf = do v ← read_varint buf; skip_varints n v.1

unfoldable pub skip_zeros : ℕ → Bytes → ℕ × Bytes
skip_zeros n [] = (n, [])
skip_zeros n (b ∷ bs) = let more = skip_zeros (n + 1) bs in if b == 0 then more else (n, b ∷ bs)

unfoldable pub read_ack : ℕ → Bytes → Result QuicError (Frame × Bytes)
read_ack ty buf = do
  largest ← read_varint buf
  delay ← read_varint largest.1
  count ← read_varint delay.1
  first ← read_varint count.1
  ranges ← read_ranges count.0 first.1
  rest ← skip_varints (if ty == 3 then 3 else 0) ranges.1
  ok (Frame.ack largest.0 delay.0 first.0 ranges.0, rest)

unfoldable pub read_pair : (ℕ → ℕ → Frame) → Bytes → Result QuicError (Frame × Bytes)
read_pair frame buf = do a ← read_varint buf; b ← read_varint a.1; ok (frame a.0 b.0, b.1)

unfoldable pub read_one : (ℕ → Frame) → Bytes → Result QuicError (Frame × Bytes)
read_one frame buf = do a ← read_varint buf; ok (frame a.0, a.1)

unfoldable pub read_reset : Bytes → Result QuicError (Frame × Bytes)
read_reset buf = do
  id ← read_varint buf
  code ← read_varint id.1
  size ← read_varint code.1
  ok (Frame.reset_stream id.0 code.0 size.0, size.1)

unfoldable pub read_crypto : Bytes → Result QuicError (Frame × Bytes)
read_crypto buf = do
  offset ← read_varint buf
  bytes ← read_sized offset.1
  ok (Frame.crypto offset.0 bytes.0, bytes.1)

unfoldable pub read_offset : Bool → Bytes → Result QuicError (ℕ × Bytes)
read_offset true buf = read_varint buf
read_offset false buf = ok (0, buf)

unfoldable pub read_payload : Bool → Bytes → Result QuicError (Bytes × Bytes)
read_payload true buf = read_sized buf
read_payload false buf = read_bytes (length buf) buf

-- The bits of the type: an offset, a length, the end of the stream.
unfoldable pub read_stream : ℕ → Bytes → Result QuicError (Frame × Bytes)
read_stream ty buf = do
  id ← read_varint buf
  offset ← read_offset (ty / 4 % 2 == 1) id.1
  bytes ← read_payload (ty / 2 % 2 == 1) offset.1
  ok (Frame.stream id.0 offset.0 (ty % 2 == 1) bytes.0, bytes.1)

unfoldable pub read_close : Bool → Bytes → Result QuicError (Frame × Bytes)
read_close application buf = do
  code ← read_varint buf
  rest ← skip_varints (if application then 0 else 1) code.1
  reason ← read_sized rest
  ok (Frame.connection_close application code.0 reason.0, reason.1)

unfoldable pub read_datagram : Bytes → Result QuicError (Frame × Bytes)
read_datagram buf = do bytes ← read_sized buf; ok (Frame.datagram bytes.0, bytes.1)

unfoldable pub decode_padding : ℕ × Bytes → Result QuicError (Frame × Bytes)
decode_padding (n, rest) = ok (Frame.padding n, rest)

unfoldable pub decode_frame : Bytes → Result QuicError (Frame × Bytes)
decode_frame [] = err QuicError.short_buffer
decode_frame (ty ∷ buf) =
    if ty == 0
    then decode_padding (skip_zeros 1 buf)
    else if ty == 1
    then ok (Frame.ping, buf)
    else if ty == 2 || ty == 3
    then read_ack ty buf
    else if ty == 4
    then read_reset buf
    else if ty == 5
    then read_pair Frame.stop_sending buf
    else if ty == 6
    then read_crypto buf
    else if leb 8 ty && leb ty 15
    then read_stream ty buf
    else if ty == 16
    then read_one Frame.max_data buf
    else if ty == 17
    then read_pair Frame.max_stream_data buf
    else if ty == 18 || ty == 19
    then read_one (Frame.max_streams (ty == 18)) buf
    else if ty == 20
    then read_one Frame.data_blocked buf
    else if ty == 21
    then read_pair Frame.stream_data_blocked buf
    else if ty == 22 || ty == 23
    then read_one (Frame.streams_blocked (ty == 22)) buf
    else if ty == 28 || ty == 29
    then read_close (ty == 29) buf
    else if ty == 30
    then ok (Frame.handshake_done, buf)
    else if ty == 48
    then ok (Frame.datagram buf, [])
    else if ty == 49
    then read_datagram buf
    else err (QuicError.malformed (text "unsupported frame type"))
