-- ===== src/Socks5/UserPass.antt =====
-- lib/mb-proto-socks5/src/lib.rs: the negotiation of a user's name and password.
use meshbus_rs.Prelude.{
  ℕ, ◌+◌, ◌%◌, ◌≡◌, ◌<◌, arith, leb, ◌==◌, refl, ap, ◌∙◌, not, is_empty, ◌&&◌, located,
}
use meshbus_rs.Prelude.{Bytes, byte_at, slice}
use meshbus_rs.Prelude.{[], ◌∷◌, ◌++◌, length, drop, true, false, length-append}
use meshbus_rs.Prelude.{Result, ok, ◌>>◌, require, >>-require, drop-add}
use meshbus_rs.Socks5.{CodecError, UserPassRequest}
use mathlib.Core.List.{append_assoc}

unfoldable pub encode_user_pass_request : Bytes → Bytes → Result CodecError Bytes
encode_user_pass_request username password = do
  require (not (is_empty username) && leb (length username) 255) CodecError.invalid_auth_len
  require (not (is_empty password) && leb (length password) 255) CodecError.invalid_auth_len
  ok (1 ∷ length username % 256 ∷ (username ++ (length password % 256 ∷ password)))

unfoldable pub decode_user_pass_request : Bytes → Result CodecError (UserPassRequest × Bytes)
decode_user_pass_request buf = do
  require (leb 2 (length buf)) CodecError.incomplete
  require (byte_at buf 0 == 1) (CodecError.unsupported_auth_version (byte_at buf 0))
  let ulen = byte_at buf 1
  require (not (ulen == 0)) CodecError.invalid_auth_len
  require (leb (2 + ulen + 1) (length buf)) CodecError.incomplete
  let plen = byte_at buf (2 + ulen)
  require (not (plen == 0)) CodecError.invalid_auth_len
  let total = 2 + ulen + 1 + plen
  require (leb total (length buf)) CodecError.incomplete
  let request : UserPassRequest = record {
    username = slice buf 2 ulen;
    password = slice buf (2 + ulen + 1) plen;
  }
  ok (request, drop total buf)

unfoldable pub encode_user_pass_reply : ℕ → Bytes
encode_user_pass_reply status = 1 ∷ status ∷ []

unfoldable pub decode_user_pass_reply : Bytes → Result CodecError (ℕ × Bytes)
decode_user_pass_reply buf = do
  require (leb 2 (length buf)) CodecError.incomplete
  require (byte_at buf 0 == 1) (CodecError.unsupported_auth_version (byte_at buf 0))
  ok (byte_at buf 1, drop 2 buf)

encoded :
    (username password : Bytes) {out : Bytes}
    → encode_user_pass_request username password ≡ ok out
    → (out ≡ 1 ∷ length username ∷ (username ++ (length password ∷ password)))
      × (0 < length username)
      × (0 < length password)
unfolding encode_user_pass_request
encoded [] password h = ground arith
encoded (u ∷ us) [] h = ground arith
encoded (u ∷ us) (p ∷ ps) h =
    let (a, h1) = >>-require (leb (length (u ∷ us)) 255) CodecError.invalid_auth_len h in
    let (b, h2) = >>-require (leb (length (p ∷ ps)) 255) CodecError.invalid_auth_len h1 in
    let e : length (u ∷ us) % 256 ≡ length (u ∷ us) = ground arith in
    let e' : length (p ∷ ps) % 256 ≡ length (p ∷ ps) = ground arith in
    (cc, omega arith, omega arith)

-- The name and the password that were encoded are decoded from the bytes and any others behind them,
-- which are left, where the encoder accepts the two.
pub decode_user_pass_request-encode :
    (username password : Bytes) (rest : Bytes) {out : Bytes}
    → encode_user_pass_request username password ≡ ok out
    → decode_user_pass_request (out ++ rest)
      ≡ ok (record { username = username; password = password }, rest)
unfolding decode_user_pass_request
decode_user_pass_request-encode username password rest h =
    let (p, k, l) = encoded username password h in
    let behind = length password ∷ (password ++ rest) in
    let buf = 1 ∷ length username ∷ (username ++ behind) in
    let (name, d1) = located buf 2 (length username) username behind refl refl in
    let d2 : drop (2 + length username + 1) buf ≡ password ++ rest =
      drop-add (2 + length username) 1 buf ∙ ap (λ (r : Bytes). drop 1 r) d1 in
    let (word, d3) =
      located buf (2 + length username + 1) (length password) password rest d2 refl in
    let plen : byte_at buf (2 + length username) ≡ length password = rw (d1) refl in
    let size : length buf ≡ 2 + length username + 1 + length password + length rest =
      omega (arith, length-append username behind, length-append password rest) in
    let t1 : leb 2 (length buf) ≡ true = ground arith in
    let t2 : (length username == 0) ≡ false = ground arith in
    let t3 : leb (2 + length username + 1) (length buf) ≡ true = ground arith in
    let t4 : (length password == 0) ≡ false = ground arith in
    let t5 : leb (2 + length username + 1 + length password) (length buf) ≡ true = ground arith in
    let decoded : decode_user_pass_request buf
        ≡ ok (record { username = username; password = password }, rest) =
      rw (t1, t2, t3, plen) (rw (t4, t5, name, word, d3) refl) in
    rw (p, append_assoc username (length password ∷ password) rest) decoded
