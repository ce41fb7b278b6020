-- ===== src/Socks5/Datagrams.antt =====
-- lib/mb-proto-socks5/src/lib.rs: datagrams of the UDP relay.
use meshbus_rs.Prelude.{ℕ, ◌≡◌, ◌≤◌, arith, leb, ◌==◌, refl, Text, Bytes, is_utf8, byte_at, ◌&&◌}
use meshbus_rs.Prelude.{[], ◌∷◌, ◌++◌, length, drop, true, length-append}
use meshbus_rs.Prelude.{Result, ok, ◌>>=◌, ◌>>◌, require}
use meshbus_rs.Endpoint.{Endpoint, new_endpoint}
use meshbus_rs.Endpoint.RoundTrip.{new_endpoint-ok}
use meshbus_rs.Socks5.{IpText, CodecError, UdpDatagram}
use meshbus_rs.Socks5.Address.{
  encode_endpoint, decode_endpoint_at, IpTextLaws, canonical, decode_endpoint_at-encode_endpoint,
  length-encode_endpoint,
}

unfoldable pub encode_udp_datagram : IpText → Endpoint → Bytes → Bytes
encode_udp_datagram ip target payload = 0 ∷ 0 ∷ 0 ∷ (encode_endpoint ip target ++ payload)

-- All of the buffer is consumed.
unfoldable pub decode_udp_datagram : IpText → Bytes → Result CodecError (UdpDatagram × Bytes)
decode_udp_datagram ip buf = do
  require (leb 7 (length buf)) CodecError.incomplete
  require (byte_at buf 0 == 0 && byte_at buf 1 == 0)
      (CodecError.unsupported_version (byte_at buf 0))
  require (byte_at buf 2 == 0) (CodecError.unsupported_fragment (byte_at buf 2))
  parts ← decode_endpoint_at ip buf 3
  ok (record { target = parts.0; payload = drop parts.1 buf }, [])

-- A datagram is decoded as the payload that was encoded, whatever its bytes, and its target with the
-- host in the usual form of an IP address where it is one; nothing is left. The target was accepted by
-- `new_endpoint`, its port is below 65536 and its host is UTF-8.
pub decode_udp_datagram-encode :
    (ip : IpText)
    → IpTextLaws ip
    → (host : Text) (port : ℕ) (e : Endpoint) (payload : Bytes) → new_endpoint host port ≡ ok e
    → port ≤ 65535
    → is_utf8 host ≡ true
    → decode_udp_datagram ip (encode_udp_datagram ip e payload)
      ≡ ok (record { target = canonical ip e; payload = payload }, [])
unfolding decode_udp_datagram encode_udp_datagram
decode_udp_datagram-encode ip laws host port e payload made bound u =
    let (p, nonempty, _, _) = new_endpoint-ok host port made in
    let (n, decoded, left) =
      decode_endpoint_at-encode_endpoint ip laws 0 0 0 host port e payload made bound u in
    let k = length-encode_endpoint ip laws e (rw (p) nonempty) in
    let enough : leb 7 (length (encode_udp_datagram ip e payload)) ≡ true =
      ground (arith, length-append (encode_endpoint ip e) payload) in
    rw (enough, decoded, left) refl
