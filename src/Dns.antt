-- ===== src/Dns.antt =====
-- lib/mb-proto-dns/src/types.rs: DNS messages.
use meshbus_rs.Prelude.{
  ℕ, ◌+◌, ◌/◌, ◌%◌, ◌==◌, leb, Bool, true, false, not, if◌then◌else◌, Text, text, Bytes, List, [],
  ◌∷◌, ◌++◌, map, all, any, filter, split, strip_suffix, is_some, is_empty, Option, none, some,
  Result, ok, err,
}
pub mod Names
pub mod Decode
pub mod Encode
pub mod Framing
pub mod Tests

-- `stuck` is of the model alone: what is left when the loop over the labels runs out of fuel.
pub data DecodeError : Type 0 where
  truncated invalid_rdata : ℕ → DecodeError
  invalid_label : ℕ → DecodeError
  oversize : Text → DecodeError
  compression_loop not_utf8 stuck : DecodeError

pub data QType : Type 0 where
  a cname ptr txt aaaa opt_type any_type : QType

unfoldable pub qtype_code : QType → ℕ
qtype_code QType.a = 1
qtype_code QType.cname = 5
qtype_code QType.ptr = 12
qtype_code QType.txt = 16
qtype_code QType.aaaa = 28
qtype_code QType.opt_type = 41
qtype_code QType.any_type = 255

unfoldable pub qtype_from_u16 : ℕ → Option QType
qtype_from_u16 v =
    if v == 1
    then some QType.a
    else if v == 5
    then some QType.cname
    else if v == 12
    then some QType.ptr
    else if v == 16
    then some QType.txt
    else if v == 28
    then some QType.aaaa
    else if v == 41
    then some QType.opt_type
    else if v == 255
    then some QType.any_type
    else none

pub record Name : Type 0 where
  pub canonical : Text

abbrev pub is_ascii : ℕ → Bool
is_ascii b = leb b 127

unfoldable pub lower : ℕ → ℕ
lower b = if leb b'A' b then (if leb b b'Z' then b + 32 else b) else b

unfoldable pub with_dot : Text → Text
with_dot s = if is_some (strip_suffix (b'.' ∷ []) s) then s else s ++ (b'.' ∷ [])

unfoldable pub from_ascii : Text → Result DecodeError Name
from_ascii s =
    if is_empty s
    then err (DecodeError.invalid_label 0)
    else if not (all is_ascii s)
    then err DecodeError.not_utf8
    else ok (record { canonical = with_dot (map lower s) })

unfoldable pub name_labels : Name → List Text
name_labels name = filter (λ s. not (is_empty s)) (split b'.' name.canonical)

abbrev pub default_root : Name
default_root = record { canonical = b'.' ∷ [] }

pub record MessageHeader : Type 0 where
  pub id : ℕ
  pub flags : ℕ
  pub qd : ℕ
  pub an : ℕ
  pub ns : ℕ
  pub ar : ℕ

unfoldable pub set_counts : MessageHeader → ℕ → ℕ → ℕ → ℕ → MessageHeader
set_counts h qd an ns ar = record h { qd = qd; an = an; ns = ns; ar = ar }

unfoldable pub qr : MessageHeader → Bool
qr h = h.flags / 32768 % 2 == 1

unfoldable pub tc : MessageHeader → Bool
tc h = h.flags / 512 % 2 == 1

unfoldable pub rcode : MessageHeader → ℕ
rcode h = h.flags % 16

-- The only class is `In`, which is 1 on the wire.
pub record Question : Type 0 where
  pub name : Name
  pub qtype : QType

pub data RData : Type 0 where
  a_data aaaa_data : Bytes → RData
  ptr_data cname_data : Name → RData
  txt_data : List Text → RData
  opt_data : ℕ → ℕ → ℕ → ℕ → Bytes → RData
  opaque_data : ℕ → Bytes → RData

pub record ResourceRecord : Type 0 where
  pub name : Name
  pub qtype : QType
  pub ttl : ℕ
  pub rdata : RData

pub record Message : Type 0 where
  pub header : MessageHeader
  pub questions : List Question
  pub answers : List ResourceRecord
  pub authorities : List ResourceRecord
  pub additionals : List ResourceRecord

pub record EdnsConfig : Type 0 where
  pub udp_payload_size : ℕ
  pub dnssec_ok : Bool

abbrev pub default_edns : EdnsConfig
default_edns = record { udp_payload_size = 1232; dnssec_ok = false }
