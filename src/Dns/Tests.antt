-- ===== src/Dns/Tests.antt =====
-- Runs of lib/mb-proto-dns.
use meshbus_rs.Dns.Names.{labels_from, pointer, follow}
use meshbus_rs.Dns.{from_ascii, lower, with_dot}
use meshbus_rs.Prelude.{strip_suffix, text_eq}
use meshbus_rs.Prelude.{◌≢◌, ◌≤◌, ◌<◌, refl, Bytes, [], ◌∷◌, length, text, err}
use meshbus_rs.Dns.{DecodeError, Name}
use meshbus_rs.Dns.Names.{decode_name, decode_name-ne-stuck, decode_name-IsCanonical, IsCanonical}

-- `a.b` at 0, and `C.` with a pointer to `b` at 5.
abbrev packet : Bytes
packet = 1 ∷ b'a' ∷ 1 ∷ b'b' ∷ 0 ∷ 1 ∷ b'C' ∷ 192 ∷ 2 ∷ []

decode_name-ne-stuck_example : decode_name packet 5 ≢ err DecodeError.stuck
decode_name-ne-stuck_example = decode_name-ne-stuck packet 5

abbrev c_b : Name
c_b = record { canonical = text "c.b." }

decode_name-IsCanonical_example : IsCanonical c_b × (5 < 9) × (9 ≤ length packet)
unfolding decode_name labels_from pointer follow from_ascii lower with_dot strip_suffix text_eq
decode_name-IsCanonical_example = decode_name-IsCanonical packet 5 {name = c_b} {end = 9} refl
