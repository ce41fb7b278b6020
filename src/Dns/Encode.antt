-- ===== src/Dns/Encode.antt =====
-- lib/mb-proto-dns/src/encode.rs: messages as bytes. Every function appends to a buffer.
use meshbus_rs.Prelude.{ℕ, ◌+◌, ◌*◌, ◌/◌, ◌==◌, leb, ◌&&◌, if◌then◌else◌}
use meshbus_rs.Prelude.{
  Text, text, Bytes, be16, length, List, [], ◌∷◌, ◌++◌, Result, ok, err, ◌>>=◌, ◌>>◌, require,
}
use meshbus_rs.Dns.{
  DecodeError, QType, qtype_code, Name, name_labels, default_root, Question, RData, ResourceRecord,
  Message, EdnsConfig,
}

-- An error of the code, or a branch that it marks as unreachable and that panics.
pub data EncodeFailure : Type 0 where
  failed : DecodeError → EncodeFailure
  unreachable : EncodeFailure

abbrev too_large : Text → EncodeFailure
too_large what = EncodeFailure.failed (DecodeError.oversize what)

be32_bytes : ℕ → Bytes
be32_bytes n = be16 (n / 65536) ++ be16 n

encode_labels : List Text → Bytes → Result EncodeFailure Bytes
encode_labels [] buf = ok (buf ++ (0 ∷ []))
encode_labels (label ∷ labels) buf = do
  require (leb (length label) 63) (too_large (text "label > 63 octets"))
  encode_labels labels (buf ++ (length label ∷ label))

unfoldable pub encode_name : Name → Bytes → Result EncodeFailure Bytes
unfolding encode_labels
encode_name name buf = encode_labels (name_labels name) buf

encode_txt : List Text → Bytes → Result EncodeFailure Bytes
encode_txt [] buf = ok buf
encode_txt (p ∷ parts) buf = do
  require (leb (length p) 255) (too_large (text "TXT segment > 255"))
  encode_txt parts (buf ++ (length p ∷ p))

rdata_bytes : RData → Result EncodeFailure Bytes
unfolding encode_txt
rdata_bytes (RData.a_data octets) = ok octets
rdata_bytes (RData.aaaa_data octets) = ok octets
rdata_bytes (RData.ptr_data n) = encode_name n []
rdata_bytes (RData.cname_data n) = encode_name n []
rdata_bytes (RData.txt_data parts) = encode_txt parts []
rdata_bytes (RData.opt_data size rc version flags options) = err EncodeFailure.unreachable
rdata_bytes (RData.opaque_data qtype raw) = ok raw

-- The pseudo record has fields of its own. `ext_rcode`, `edns_version` and `flags` do not overlap.
encode_opt : RData → Bytes → Result EncodeFailure Bytes
unfolding be32_bytes
encode_opt (RData.opt_data size rc version flags options) buf = do
  require (leb (length options) 65535) (too_large (text "OPT options > u16"))
  let ttl = rc * 16777216 + version * 65536 + flags
  ok (
      buf
      ++ (0 ∷ (be16 41 ++ (be16 size ++ (be32_bytes ttl ++ (be16 (length options) ++ options))))))
encode_opt other buf = err (EncodeFailure.failed (DecodeError.invalid_rdata 41))

-- The bytes of the data stand behind their length, which the code fills in afterwards.
encode_plain : ResourceRecord → Bytes → Result EncodeFailure Bytes
unfolding be32_bytes rdata_bytes
encode_plain rr buf = do
  front ← encode_name rr.name buf
  body ← rdata_bytes rr.rdata
  require (leb (length body) 65535) (too_large (text "rdata > u16"))
  ok (
      front
      ++ (be16 (qtype_code rr.qtype)
          ++ (be16 1 ++ (be32_bytes rr.ttl ++ (be16 (length body) ++ body)))))

unfoldable pub encode_rr : ResourceRecord → Bytes → Result EncodeFailure Bytes
unfolding encode_opt encode_plain
encode_rr rr buf =
    if qtype_code rr.qtype == 41 then encode_opt rr.rdata buf else encode_plain rr buf

encode_rrs : List ResourceRecord → Bytes → Result EncodeFailure Bytes
unfolding encode_rr
encode_rrs [] buf = ok buf
encode_rrs (rr ∷ rrs) buf = do next ← encode_rr rr buf; encode_rrs rrs next

encode_questions : List Question → Bytes → Result EncodeFailure Bytes
encode_questions [] buf = ok buf
encode_questions (q ∷ qs) buf = do
  next ← encode_name q.name buf
  encode_questions qs (next ++ (be16 (qtype_code q.qtype) ++ be16 1))

unfoldable pub encode_message : Message → Result EncodeFailure Bytes
unfolding encode_rrs encode_questions
encode_message msg = do
  require
      (leb (length msg.questions) 65535
        && leb (length msg.answers) 65535
        && leb (length msg.authorities) 65535
        && leb (length msg.additionals) 65535)
      (too_large (text "section count > u16"))
  let counts =
      be16 (length msg.questions)
      ++ (be16 (length msg.answers)
          ++ (be16 (length msg.authorities) ++ be16 (length msg.additionals)))
  asked ← encode_questions msg.questions (be16 msg.header.id ++ (be16 msg.header.flags ++ counts))
  encode_rrs (msg.answers ++ (msg.authorities ++ msg.additionals)) asked

unfoldable pub edns_opt_rr : EdnsConfig → ResourceRecord
edns_opt_rr cfg = record {
  name = default_root;
  qtype = QType.opt_type;
  ttl = 0;
  rdata = RData.opt_data cfg.udp_payload_size 0 0 (if cfg.dnssec_ok then 32768 else 0) [];
}
