-- ===== src/Socks5/Tests.antt =====
-- Runs of lib/mb-proto-socks5/src/lib.rs, with address texts that know one address of each kind.
use meshbus_rs.Socks5.Address.{
  endpoint_total_at, announced_total, decode_endpoint_at, decode_host_at, decode_octets_at,
}
use meshbus_rs.Socks5.{reply_from_wire}
use meshbus_rs.Socks5.Requests.{found_endpoint}
use meshbus_rs.Prelude.{
  ℕ, ◌≡◌, ◌≤◌, arith, Text, text, text_eq, Bytes, is_utf8, refl, [], ◌∷◌, ◌++◌, length, replicate,
  none, some, if◌then◌else◌, ok, err, drop,
}
use meshbus_rs.Endpoint.{Endpoint, new_endpoint}
use meshbus_rs.Socks5.{IpText, CodecError, Command, Reply, ReplyFrame}
use meshbus_rs.Socks5.Address.{IpTextLaws, canonical}
use meshbus_rs.Socks5.Requests.{frame_len, domain_frame_len, reply_header}
use meshbus_rs.Socks5.Requests.{
  encode_request, decode_request, decode_reply_frame, reply_frame_total_len,
  decode_request-encode_request, decode_reply,
}
use meshbus_rs.Socks5.Lengths.{decode_reply_frame-total_len}

abbrev home : Bytes
home = 127 ∷ 0 ∷ 0 ∷ 1 ∷ []

abbrev pub one_address : IpText
one_address = record {
  parse4 = λ (t : Text). if text_eq t (text "127.0.0.1") then some home else none;
  show4 = λ (o : Bytes). text "127.0.0.1";
  parse6 = λ (t : Text). if text_eq t (text "::") then some (replicate 16 0) else none;
  show6 = λ (o : Bytes). text "::";
}

one_address_laws : IpTextLaws one_address
one_address_laws = record {
  octets4 = λ t o e. ground arith;
  octets6 = λ t o e. ground arith;
  shown4 = λ o e. (omega arith, omega arith);
  shown6 = λ o e. (omega arith, omega arith);
}

abbrev proxy : Endpoint
proxy = record { host = text "mesh.example"; port = 1080 }

decode_request-encode_request_example :
    decode_request one_address (encode_request one_address Command.connect proxy ++ (7 ∷ []))
    ≡ ok (record { command = Command.connect; endpoint = canonical one_address proxy }, 7 ∷ [])
unfolding new_endpoint is_utf8
decode_request-encode_request_example =
    decode_request-encode_request one_address one_address_laws Command.connect (text "mesh.example")
      1080 proxy (7 ∷ []) refl (omega arith) refl

abbrev frame_bytes : Bytes
frame_bytes = 5 ∷ 0 ∷ 0 ∷ 1 ∷ 127 ∷ 0 ∷ 0 ∷ 1 ∷ 4 ∷ 56 ∷ 99 ∷ []

abbrev frame : ReplyFrame
frame = record {
  reply = Reply.succeeded;
  endpoint = some (record { host = text "127.0.0.1"; port = 1080 });
}

decode_reply_frame-total_len_example :
    (n : ℕ) × (reply_frame_total_len frame_bytes ≡ ok n)
    × (n ≤ length frame_bytes)
    × ((99 ∷ []) ≡ drop n frame_bytes)
unfolding decode_reply_frame reply_header endpoint_total_at announced_total reply_from_wire
    found_endpoint decode_endpoint_at decode_host_at decode_octets_at new_endpoint
decode_reply_frame-total_len_example =
    decode_reply_frame-total_len one_address frame_bytes {frame = frame} refl

-- A whole reply with a host of one byte: its length is known, and it stays incomplete.
abbrev short_frame : Bytes
short_frame = 5 ∷ 0 ∷ 0 ∷ 3 ∷ 1 ∷ 97 ∷ 0 ∷ 80 ∷ []

short_frame_incomplete :
    (reply_frame_total_len short_frame ≡ ok (length short_frame))
    × (decode_reply short_frame ≡ err CodecError.incomplete)
unfolding reply_frame_total_len decode_reply frame_len domain_frame_len reply_header
short_frame_incomplete = (refl, refl)
