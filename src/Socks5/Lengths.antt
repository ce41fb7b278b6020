-- ===== src/Socks5/Lengths.antt =====
-- That lib/mb-proto-socks5/src/lib.rs has one length of a reply frame.
use meshbus_rs.Prelude.{ℕ, ◌≡◌, ◌≤◌, arith, ltb, leb, refl, inl, inr, ap, ◌∙◌}
use meshbus_rs.Prelude.{Bytes, length, drop, true}
use meshbus_rs.Prelude.{ok, ◌>>=◌, >>=-eq-ok, >>-require, Result-cases}
use meshbus_rs.Socks5.{IpText, CodecError, ReplyFrame}
use meshbus_rs.Socks5.Address.{endpoint_total_at, announced_total, domain_total}
use meshbus_rs.Socks5.Requests.{
  reply_header, decode_reply, decode_reply_frame, reply_frame_total_len, frame_len,
  domain_frame_len,
}

frame_len-announced_total :
    (buf : Bytes) (n : ℕ) → announced_total buf 3 ≡ ok n → frame_len buf ≡ ok n
unfolding announced_total domain_total frame_len domain_frame_len
frame_len-announced_total buf n h = ground arith

reply_frame_total_len-total :
    (buf : Bytes) (n : ℕ)
    → endpoint_total_at buf 3 ≡ ok n
    → (reply_frame_total_len buf ≡ ok n) × (n ≤ length buf)
unfolding endpoint_total_at reply_frame_total_len
reply_frame_total_len-total buf n h =
    let (deep, h1) = >>-require (ltb 3 (length buf)) CodecError.incomplete h in
    let (total, e, h2) = >>=-eq-ok (announced_total buf 3) h1 in
    let (fits, h3) = >>-require (leb total (length buf)) CodecError.incomplete h2 in
    let q : total ≡ n = cc in
    let four : leb 4 (length buf) ≡ true = ground arith in
    (rw (four) (frame_len-announced_total buf n (e ∙ ap (λ (z : ℕ). ok z) q)), ground arith)

-- When a reply frame is decoded, the length that `reply_frame_total_len` gives for the buffer is exactly
-- the number of bytes that the decoder takes off its front, and the buffer has that many.
pub decode_reply_frame-total_len :
    (ip : IpText) (buf : Bytes) {frame : ReplyFrame} {rest : Bytes}
    → decode_reply_frame ip buf ≡ ok (frame, rest)
    → (n : ℕ) × (reply_frame_total_len buf ≡ ok n) × (n ≤ length buf) × (rest ≡ drop n buf)
unfolding decode_reply_frame
decode_reply_frame-total_len ip buf h =
    let (_, _, h1) = >>=-eq-ok (reply_header buf) h in
    let (n, e, h2) = >>=-eq-ok (endpoint_total_at buf 3) h1 in
    let (len, fits) = reply_frame_total_len-total buf n e in (n, len, fits, cc)

-- `decode_reply` takes the same bytes off as `decode_reply_frame`, and gives the same reply, whether or
-- not the endpoint in the frame can be read; each fails exactly when the other does, with the same error.
pub decode_reply-frame :
    (ip : IpText) (buf : Bytes)
    → decode_reply buf ≡ (decode_reply_frame ip buf >>= λ parts. ok (parts.0.reply, parts.1))
unfolding decode_reply decode_reply_frame
decode_reply-frame ip buf = elim (Result-cases (reply_header buf)) [
  | inr (e, h) ↦ rw (h) refl
  | inl (u, h) ↦ elim (Result-cases (endpoint_total_at buf 3)) [
    | inr (e, k) ↦ rw (h, k) refl
    | inl (n, k) ↦ rw (h, k) refl
  ]
]
