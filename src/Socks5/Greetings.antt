-- ===== src/Socks5/Greetings.antt =====
-- lib/mb-proto-socks5/src/lib.rs: the greeting with the methods that a client offers.
use meshbus_rs.Prelude.{take-drop}
use meshbus_rs.Prelude.{
  ℕ, zero, suc, ◌+◌, ◌%◌, ◌≡◌, ◌≤◌, ◌<◌, arith, leb, ◌==◌, if◌then◌else◌, refl, ap,
}
use meshbus_rs.Prelude.{Bytes, byte_at, slice, IsBytes}
use meshbus_rs.Prelude.{List, [], ◌∷◌, ◌++◌, length, take, drop, map}
use meshbus_rs.Prelude.{Result, ok, ◌>>◌, require, >>-require, drop-add}
use meshbus_rs.Socks5.{CodecError, Method, wire_code, Greeting}

unfoldable pub encode_greeting : List Method → Bytes
encode_greeting methods = 5 ∷ length methods % 256 ∷ map wire_code methods

unfoldable pub method_from_wire : ℕ → Method
method_from_wire b =
    if b == 0
    then Method.no_auth
    else if b == 1
    then Method.gss_api
    else if b == 2
    then Method.user_pass
    else Method.unknown b

unfoldable pub decode_greeting : Bytes → Result CodecError (Greeting × Bytes)
decode_greeting buf = do
  require (leb 2 (length buf)) CodecError.incomplete
  require (byte_at buf 0 == 5) (CodecError.unsupported_version (byte_at buf 0))
  let n = byte_at buf 1
  require (leb (2 + n) (length buf)) CodecError.incomplete
  ok (record { methods = map method_from_wire (slice buf 2 n) }, drop (2 + n) buf)

wire_code-method_from_wire : (b : ℕ) → wire_code (method_from_wire b) ≡ b
unfolding wire_code method_from_wire
wire_code-method_from_wire b = ground arith

wire_codes : (bs : Bytes) → map wire_code (map method_from_wire bs) ≡ bs
wire_codes [] = refl
wire_codes (b ∷ bs) = rw (wire_code-method_from_wire b, wire_codes bs) refl

length-map-take :
    (n : ℕ) (bs : Bytes) → n ≤ length bs → length (map method_from_wire (take n bs)) ≡ n
length-map-take zero bs h = refl
length-map-take (suc n) [] h = absurd (omega arith)
length-map-take (suc n) (b ∷ bs) h = ap suc (length-map-take n bs (omega arith))

-- A greeting that was decoded from bytes is encoded as the bytes that the decoder has taken off, its
-- unknown methods included.
pub encode_greeting-decode :
    (buf : Bytes) {greeting : Greeting} {rest : Bytes}
    → IsBytes buf
    → decode_greeting buf ≡ ok (greeting, rest)
    → encode_greeting greeting.methods ++ rest ≡ buf
unfolding decode_greeting encode_greeting
encode_greeting-decode [] {greeting} {rest} b h = absurd (cc h)
encode_greeting-decode (v ∷ []) {greeting} {rest} b h = absurd (cc h)
encode_greeting-decode (v ∷ n ∷ bs) {greeting} {rest} (b, c) h =
    let (_, h1) = >>-require (leb 2 (length (v ∷ n ∷ bs))) CodecError.incomplete h in
    let (e, h2) = >>-require (v == 5) (CodecError.unsupported_version v) h1 in
    let (fits, h3) = >>-require (leb (2 + n) (length (v ∷ n ∷ bs))) CodecError.incomplete h2 in
    let g : greeting ≡ record { methods = map method_from_wire (take n bs) } = cc in
    let r : rest ≡ drop (2 + n) (v ∷ n ∷ bs) = cc in
    let count = length-map-take n bs (ground arith) in
    let size : n % 256 ≡ n = let small : n < 256 = c.0 in omega arith in
    let five : 5 ≡ v = ground arith in
    rw (g, r, drop-add 2 n (v ∷ n ∷ bs), wire_codes (take n bs), count, size, take-drop n bs, five)
      refl
