-- ===== src/Dns/Decode.antt =====
-- lib/mb-proto-dns/src/decode.rs: messages from bytes. A cursor is the place of the next byte.
use meshbus_rs.Prelude.{ℕ, zero, suc, ◌+◌, ◌*◌, ◌/◌, ◌%◌, ◌==◌, leb, is_utf8}
use meshbus_rs.Prelude.{
  Text, Bytes, u16_at, slice, length, drop, List, [], ◌∷◌, Option, none, some, Result, ok, err,
  ◌>>=◌, ◌>>◌, require,
}
use meshbus_rs.Dns.{
  DecodeError, QType, qtype_from_u16, MessageHeader, set_counts, Question, RData, ResourceRecord,
  Message,
}
use meshbus_rs.Dns.Names.{decode_name}

unfoldable pub cursor_u16 : Bytes → ℕ → Result DecodeError (ℕ × ℕ)
cursor_u16 buf pos = do
  require (leb (pos + 2) (length buf)) (DecodeError.truncated pos)
  ok (u16_at buf pos, pos + 2)

unfoldable pub cursor_u32 : Bytes → ℕ → Result DecodeError (ℕ × ℕ)
cursor_u32 buf pos = do
  require (leb (pos + 4) (length buf)) (DecodeError.truncated pos)
  ok (u16_at buf pos * 65536 + u16_at buf (pos + 2), pos + 4)

or_a : Option QType → QType
or_a none = QType.a
or_a (some q) = q

decode_question : Bytes → ℕ → Result DecodeError (Question × ℕ)
unfolding cursor_u16 or_a
decode_question buf pos = do
  name ← decode_name buf pos
  qtype ← cursor_u16 buf name.1
  qclass ← cursor_u16 buf qtype.1
  ok (record { name = name.0; qtype = or_a (qtype_from_u16 qtype.0) }, qclass.1)

-- The segments of a TXT record; each takes a byte at least, so that its length is fuel enough.
txt_parts : ℕ → ℕ → Bytes → Result DecodeError (List Text)
txt_parts fuel qtype [] = ok []
txt_parts zero qtype (l ∷ rest) = err DecodeError.stuck
txt_parts (suc fuel) qtype (l ∷ rest) = do
  require (leb l (length rest)) (DecodeError.invalid_rdata qtype)
  require (is_utf8 (slice rest 0 l)) DecodeError.not_utf8
  parts ← txt_parts fuel qtype (drop l rest)
  ok (slice rest 0 l ∷ parts)

rdata_of : Bytes → ℕ → ℕ → ℕ → ℕ → Bytes → Option QType → Result DecodeError RData
unfolding txt_parts
rdata_of buf pos qtype qclass ttl raw (some QType.a) = do
  require (length raw == 4) (DecodeError.invalid_rdata qtype)
  ok (RData.a_data raw)
rdata_of buf pos qtype qclass ttl raw (some QType.aaaa) = do
  require (length raw == 16) (DecodeError.invalid_rdata qtype)
  ok (RData.aaaa_data raw)
rdata_of buf pos qtype qclass ttl raw (some QType.ptr) = do
  name ← decode_name buf pos
  ok (RData.ptr_data name.0)
rdata_of buf pos qtype qclass ttl raw (some QType.cname) = do
  name ← decode_name buf pos
  ok (RData.cname_data name.0)
rdata_of buf pos qtype qclass ttl raw (some QType.txt) = do
  parts ← txt_parts (length raw) qtype raw
  ok (RData.txt_data parts)
rdata_of buf pos qtype qclass ttl raw (some QType.opt_type) =
    ok (RData.opt_data qclass (ttl / 16777216 % 256) (ttl / 65536 % 256) (ttl % 65536) raw)
rdata_of buf pos qtype qclass ttl raw (some QType.any_type) = ok (RData.opaque_data qtype raw)
rdata_of buf pos qtype qclass ttl raw none = ok (RData.opaque_data qtype raw)

unfoldable pub decode_rr : Bytes → ℕ → Result DecodeError (ResourceRecord × ℕ)
unfolding cursor_u16 cursor_u32 rdata_of or_a
decode_rr buf pos = do
  name ← decode_name buf pos
  qtype ← cursor_u16 buf name.1
  qclass ← cursor_u16 buf qtype.1
  ttl ← cursor_u32 buf qclass.1
  rdlen ← cursor_u16 buf ttl.1
  require (leb (rdlen.1 + rdlen.0) (length buf)) (DecodeError.truncated rdlen.1)
  let raw = slice buf rdlen.1 rdlen.0
  rdata ← rdata_of buf rdlen.1 qtype.0 qclass.0 ttl.0 raw (qtype_from_u16 qtype.0)
  ok (
    record { name = name.0; qtype = or_a (qtype_from_u16 qtype.0); ttl = ttl.0; rdata = rdata },
    rdlen.1 + rdlen.0,
  )

-- `for _ in 0..n`
decode_many :
    {A : Type 0} → (ℕ → Result DecodeError (A × ℕ)) → ℕ → ℕ → Result DecodeError (List A × ℕ)
decode_many one zero pos = ok ([], pos)
decode_many one (suc n) pos = do
  first ← one pos
  rest ← decode_many one n first.1
  ok (first.0 ∷ rest.0, rest.1)

unfoldable pub decode_message : Bytes → Result DecodeError Message
unfolding cursor_u16 decode_many decode_question decode_rr
decode_message buf = do
  id ← cursor_u16 buf 0
  flags ← cursor_u16 buf id.1
  qd ← cursor_u16 buf flags.1
  an ← cursor_u16 buf qd.1
  ns ← cursor_u16 buf an.1
  ar ← cursor_u16 buf ns.1
  questions ← decode_many (decode_question buf) qd.0 ar.1
  answers ← decode_many (decode_rr buf) an.0 questions.1
  authorities ← decode_many (decode_rr buf) ns.0 answers.1
  additionals ← decode_many (decode_rr buf) ar.0 authorities.1
  let header : MessageHeader = record { id = id.0; flags = flags.0; qd = 0; an = 0; ns = 0; ar = 0 }
  ok (record {
    header = set_counts header qd.0 an.0 ns.0 ar.0;
    questions = questions.0;
    answers = answers.0;
    authorities = authorities.0;
    additionals = additionals.0;
  })
