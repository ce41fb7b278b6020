-- ===== src/Socks5/Requests.antt =====
-- lib/mb-proto-socks5/src/lib.rs: requests and replies.
use meshbus_rs.Prelude.{ℕ, ◌+◌, ◌≡◌, ◌≤◌, arith, leb, ◌==◌, if◌then◌else◌, refl}
use meshbus_rs.Prelude.{Text, Bytes, is_utf8, byte_at}
use meshbus_rs.Prelude.{[], ◌∷◌, ◌++◌, length, drop, Option, none, some, true, length-append}
use meshbus_rs.Prelude.{Result, ok, err, ◌>>=◌, ◌>>◌, require}
use meshbus_rs.Endpoint.{Endpoint, new_endpoint}
use meshbus_rs.Socks5.{
  IpText, CodecError, Command, command_code, Request, Reply, reply_code, reply_from_wire,
  ReplyFrame,
}
use meshbus_rs.Endpoint.RoundTrip.{new_endpoint-ok}
use meshbus_rs.Socks5.Address.{
  length-encode_endpoint, encode_endpoint, decode_endpoint_at, endpoint_total_at, IpTextLaws,
  canonical, decode_endpoint_at-encode_endpoint,
}

unfoldable pub encode_request : IpText → Command → Endpoint → Bytes
encode_request ip command target = 5 ∷ command_code command ∷ 0 ∷ encode_endpoint ip target

unfoldable pub encode_connect_request : IpText → Endpoint → Bytes
encode_connect_request ip target = encode_request ip Command.connect target

unfoldable pub encode_udp_associate_request : IpText → Endpoint → Bytes
encode_udp_associate_request ip bind = encode_request ip Command.udp_associate bind

unfoldable pub command_from_wire : ℕ → Result CodecError Command
command_from_wire code =
    if code == 1
    then ok Command.connect
    else if code == 2
    then ok Command.bind
    else if code == 3
    then ok Command.udp_associate
    else err (CodecError.unsupported_command code)

unfoldable pub decode_request : IpText → Bytes → Result CodecError (Request × Bytes)
decode_request ip buf = do
  require (leb 7 (length buf)) CodecError.incomplete
  require (byte_at buf 0 == 5) (CodecError.unsupported_version (byte_at buf 0))
  command ← command_from_wire (byte_at buf 1)
  require (byte_at buf 2 == 0) (CodecError.reserved_not_zero (byte_at buf 2))
  parts ← decode_endpoint_at ip buf 3
  ok (record { command = command; endpoint = parts.0 }, drop parts.1 buf)

-- Of a request with another command the code has consumed the bytes: the error carries no buffer.
unfoldable pub decode_connect_request : IpText → Bytes → Result CodecError (Endpoint × Bytes)
decode_connect_request ip buf = do
  parts ← decode_request ip buf
  require (command_code parts.0.command == 1)
      (CodecError.unsupported_command (command_code parts.0.command))
  ok (parts.0.endpoint, parts.1)

unfoldable pub encode_reply : Reply → Bytes
encode_reply reply = 5 ∷ reply_code reply ∷ 0 ∷ 1 ∷ 127 ∷ 0 ∷ 0 ∷ 1 ∷ 0 ∷ 0 ∷ []

unfoldable pub encode_reply_with_endpoint : IpText → Reply → Endpoint → Bytes
encode_reply_with_endpoint ip reply bind = 5 ∷ reply_code reply ∷ 0 ∷ encode_endpoint ip bind

unfoldable pub reply_header : Bytes → Result CodecError (Unit {0})
reply_header buf = do
  require (leb 10 (length buf)) CodecError.incomplete
  require (byte_at buf 0 == 5) (CodecError.unsupported_version (byte_at buf 0))
  require (byte_at buf 2 == 0) (CodecError.reserved_not_zero (byte_at buf 2))

unfoldable pub decode_reply : Bytes → Result CodecError (Reply × Bytes)
decode_reply buf = do
  reply_header buf
  total ← endpoint_total_at buf 3
  ok (reply_from_wire (byte_at buf 1), drop total buf)

unfoldable pub found_endpoint : Result CodecError (Endpoint × ℕ) → Option Endpoint
found_endpoint (ok (endpoint, total)) = some endpoint
found_endpoint (err e) = none

unfoldable pub decode_reply_frame : IpText → Bytes → Result CodecError (ReplyFrame × Bytes)
decode_reply_frame ip buf = do
  reply_header buf
  total ← endpoint_total_at buf 3
  let endpoint = found_endpoint (decode_endpoint_at ip buf 3)
  ok (record { reply = reply_from_wire (byte_at buf 1); endpoint = endpoint }, drop total buf)

unfoldable pub domain_frame_len : Bytes → Result CodecError ℕ
domain_frame_len buf = do
  require (leb 5 (length buf)) CodecError.incomplete
  ok (4 + 1 + byte_at buf 4 + 2)

unfoldable pub frame_len : Bytes → Result CodecError ℕ
frame_len buf =
    if byte_at buf 3 == 1
    then ok (4 + 4 + 2)
    else if byte_at buf 3 == 4
    then ok (4 + 16 + 2)
    else if byte_at buf 3 == 3
    then domain_frame_len buf
    else err (CodecError.invalid_atyp (byte_at buf 3))

unfoldable pub reply_frame_total_len : Bytes → Result CodecError ℕ
reply_frame_total_len buf = do require (leb 4 (length buf)) CodecError.incomplete; frame_len buf

command_from_wire-command_code :
    (command : Command) → command_from_wire (command_code command) ≡ ok command
unfolding command_from_wire command_code
command_from_wire-command_code Command.connect = refl
command_from_wire-command_code Command.bind = refl
command_from_wire-command_code Command.udp_associate = refl

-- A request is decoded from its encoding and any bytes behind it: its command, its endpoint with the
-- host in the usual form of an IP address where it is one, and exactly the bytes behind it, where the
-- endpoint was accepted by `new_endpoint`, its port is below 65536 and its host is UTF-8.
pub decode_request-encode_request :
    (ip : IpText)
    → IpTextLaws ip
    → (command : Command) (host : Text) (port : ℕ) (e : Endpoint) (rest : Bytes)
    → new_endpoint host port ≡ ok e
    → port ≤ 65535
    → is_utf8 host ≡ true
    → decode_request ip (encode_request ip command e ++ rest)
      ≡ ok (record { command = command; endpoint = canonical ip e }, rest)
unfolding decode_request encode_request
decode_request-encode_request ip laws command host port e rest made bound u =
    let (p, nonempty, _, _) = new_endpoint-ok host port made in
    let (n, decoded, left) =
      decode_endpoint_at-encode_endpoint ip laws 5 (command_code command) 0 host port e rest made
        bound u in
    let k = length-encode_endpoint ip laws e (rw (p) nonempty) in
    let enough : leb 7 (length (encode_request ip command e ++ rest)) ≡ true =
      ground (arith, length-append (encode_endpoint ip e) rest) in
    rw (enough, command_from_wire-command_code command, decoded, left) refl

reply_from_wire-reply_code : (reply : Reply) → reply_from_wire (reply_code reply) ≡ reply
unfolding reply_from_wire reply_code
reply_from_wire-reply_code Reply.succeeded = refl
reply_from_wire-reply_code Reply.general_failure = refl
reply_from_wire-reply_code Reply.connection_not_allowed = refl
reply_from_wire-reply_code Reply.network_unreachable = refl
reply_from_wire-reply_code Reply.host_unreachable = refl
reply_from_wire-reply_code Reply.connection_refused = refl
reply_from_wire-reply_code Reply.ttl_expired = refl
reply_from_wire-reply_code Reply.command_not_supported = refl
reply_from_wire-reply_code Reply.address_type_not_supported = refl
