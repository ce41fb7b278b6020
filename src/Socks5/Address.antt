-- ===== src/Socks5/Address.antt =====
-- lib/mb-proto-socks5/src/lib.rs: the address that requests, replies and datagrams share.
use meshbus_rs.Prelude.{located}
use meshbus_rs.Prelude.{
  ℕ, ◌+◌, ◌%◌, ◌≡◌, ◌≤◌, ◌<◌, arith, ltb, leb, ◌==◌, if◌then◌else◌, refl, ap, ◌∙◌,
}
use meshbus_rs.Prelude.{Text, Bytes, is_utf8, be16, u16_at, byte_at, slice, drop-add}
use meshbus_rs.Prelude.{
  [], ◌∷◌, ◌++◌, length, drop, length-append, none, some, Option-cases, inl, inr, true, false,
}
use meshbus_rs.Prelude.{Result, ok, err, ◌>>=◌, ◌>>◌, require, map_err}
use meshbus_rs.Endpoint.{Endpoint, new_endpoint}
use meshbus_rs.Endpoint.RoundTrip.{new_endpoint-ok}
use meshbus_rs.Socks5.{IpText, CodecError}
use mathlib.Core.List.{append_assoc}

unfoldable pub encode_host : IpText → Text → Bytes
encode_host ip host = elim (ip.parse4 host) [
  | some octets ↦ 1 ∷ octets
  | none ↦ elim (ip.parse6 host) [ some octets ↦ 4 ∷ octets | none ↦ 3 ∷ length host % 256 ∷ host ]
]

unfoldable pub encode_endpoint : IpText → Endpoint → Bytes
encode_endpoint ip target = encode_host ip target.host ++ be16 target.port

-- An address of `size` octets: the host, and where its bytes end.
unfoldable pub decode_octets_at : (Bytes → Text) → Bytes → ℕ → ℕ → Result CodecError (Text × ℕ)
decode_octets_at shown buf size offset = do
  require (leb (offset + 1 + size + 2) (length buf)) CodecError.incomplete
  ok (shown (slice buf (offset + 1) size), offset + 1 + size)

unfoldable pub decode_domain_at : Bytes → ℕ → Result CodecError (Text × ℕ)
decode_domain_at buf offset = do
  require (leb (offset + 2) (length buf)) CodecError.incomplete
  let len = byte_at buf (offset + 1)
  require (leb (offset + 2 + len + 2) (length buf)) CodecError.incomplete
  require (is_utf8 (slice buf (offset + 2) len)) CodecError.invalid_host
  ok (slice buf (offset + 2) len, offset + 2 + len)

unfoldable pub decode_host_at : IpText → Bytes → ℕ → Result CodecError (Text × ℕ)
decode_host_at ip buf offset =
    if byte_at buf offset == 1
    then decode_octets_at ip.show4 buf 4 offset
    else if byte_at buf offset == 3
    then decode_domain_at buf offset
    else if byte_at buf offset == 4
    then decode_octets_at ip.show6 buf 16 offset
    else err (CodecError.invalid_atyp (byte_at buf offset))

unfoldable pub decode_endpoint_at : IpText → Bytes → ℕ → Result CodecError (Endpoint × ℕ)
decode_endpoint_at ip buf offset = do
  require (ltb offset (length buf)) CodecError.incomplete
  parts ← decode_host_at ip buf offset
  ep ← map_err CodecError.endpoint (new_endpoint parts.0 (u16_at buf parts.1))
  ok (ep, parts.1 + 2)

unfoldable pub domain_total : Bytes → ℕ → Result CodecError ℕ
domain_total buf offset = do
  require (leb (offset + 2) (length buf)) CodecError.incomplete
  ok (offset + 2 + byte_at buf (offset + 1) + 2)

unfoldable pub announced_total : Bytes → ℕ → Result CodecError ℕ
announced_total buf offset =
    if byte_at buf offset == 1
    then ok (offset + 1 + 4 + 2)
    else if byte_at buf offset == 3
    then domain_total buf offset
    else if byte_at buf offset == 4
    then ok (offset + 1 + 16 + 2)
    else err (CodecError.invalid_atyp (byte_at buf offset))

unfoldable pub endpoint_total_at : Bytes → ℕ → Result CodecError ℕ
endpoint_total_at buf offset = do
  require (ltb offset (length buf)) CodecError.incomplete
  total ← announced_total buf offset
  require (leb total (length buf)) CodecError.incomplete
  ok total

-- What the library documents of its address texts: 4 or 16 octets, and between 1 and 255 characters.
pub record IpTextLaws (ip : IpText) : Type 0 where
  pub octets4 : (t : Text) (o : Bytes) → ip.parse4 t ≡ some o → length o ≡ 4
  pub octets6 : (t : Text) (o : Bytes) → ip.parse6 t ≡ some o → length o ≡ 16
  pub shown4 : (o : Bytes) → length o ≡ 4 → (0 < length (ip.show4 o)) × (length (ip.show4 o) ≤ 255)
  pub shown6 : (o : Bytes) → length o ≡ 16 → (0 < length (ip.show6 o)) × (length (ip.show6 o) ≤ 255)

-- The host as the other side gets it: the usual form of an IP address, or the host itself.
unfoldable pub canonical_host : IpText → Text → Text
canonical_host ip host = elim (ip.parse4 host) [
  | some octets ↦ ip.show4 octets
  | none ↦ elim (ip.parse6 host) [ some octets ↦ ip.show6 octets | none ↦ host ]
]

abbrev pub canonical : IpText → Endpoint → Endpoint
canonical ip e = record { host = canonical_host ip e.host; port = e.port }

u16_at-be16 :
    (buf : Bytes) (i port : ℕ) (rest : Bytes)
    → drop i buf ≡ be16 port ++ rest
    → port ≤ 65535
    → u16_at buf i ≡ port
u16_at-be16 buf i port rest e h = rw (e) (omega arith)

module _ (ip : IpText) (a b c : ℕ) where
  decode_octets_at-append :
      (shown : Bytes → Text) (kind size : ℕ) (o tail : Bytes)
      → length o ≡ size
      → 2 ≤ length tail
      → decode_octets_at shown (a ∷ b ∷ c ∷ kind ∷ (o ++ tail)) size 3 ≡ ok (shown o, 4 + size)
  unfolding decode_octets_at
  decode_octets_at-append shown kind size o tail h k =
      let buf = a ∷ b ∷ c ∷ kind ∷ (o ++ tail) in
      let (s, _) = located buf 4 size o tail refl h in
      let fits : leb (3 + 1 + size + 2) (length buf) ≡ true =
        ground (arith, length-append o tail) in
      rw (fits, s) refl

  decode_domain_at-append :
      (kind : ℕ) (host tail : Bytes)
      → is_utf8 host ≡ true
      → 2 ≤ length tail
      → decode_domain_at (a ∷ b ∷ c ∷ kind ∷ length host ∷ (host ++ tail)) 3
        ≡ ok (host, 5 + length host)
  unfolding decode_domain_at
  decode_domain_at-append kind host tail h k =
      let buf = a ∷ b ∷ c ∷ kind ∷ length host ∷ (host ++ tail) in
      let (s, _) = located buf 5 (length host) host tail refl refl in
      let fits : leb (3 + 2 + length host + 2) (length buf) ≡ true =
        ground (arith, length-append host tail) in
      let named : leb (3 + 2) (length buf) ≡ true = ground arith in rw (named, fits, s, h) refl

  decode_host_at-encode_host :
      IpTextLaws ip
      → (host tail : Bytes) → length host ≤ 255
      → is_utf8 host ≡ true
      → 2 ≤ length tail
      → decode_host_at ip (a ∷ b ∷ c ∷ (encode_host ip host ++ tail)) 3
        ≡ ok (canonical_host ip host, 3 + length (encode_host ip host))
  unfolding decode_host_at encode_host canonical_host
  decode_host_at-encode_host laws host tail l u k = elim (Option-cases (ip.parse4 host)) [
    | inr (o, e) ↦
        let n = laws.octets4 host o e in
        rw (e, encode_host, canonical_host)
          (decode_octets_at-append ip.show4 1 4 o tail n k
            ∙ ap (λ z. ok (ip.show4 o, z)) (omega (arith, n)))
    | inl e ↦ elim (Option-cases (ip.parse6 host)) [
      | inr (o, e') ↦
          let n = laws.octets6 host o e' in
          rw (e, e', encode_host, canonical_host)
            (decode_octets_at-append ip.show6 4 16 o tail n k
              ∙ ap (λ z. ok (ip.show6 o, z)) (omega (arith, n)))
      | inl e' ↦
          let m : length host % 256 ≡ length host = omega arith in
          rw (e, e', encode_host, canonical_host, m)
            (decode_domain_at-append 3 host tail u k ∙ ap (λ z. ok (host, z)) (omega arith))
    ]
  ]

canonical_host-length :
    (ip : IpText)
    → IpTextLaws ip
    → (host : Text) → 0 < length host
    → length host ≤ 255
    → (0 < length (canonical_host ip host)) × (length (canonical_host ip host) ≤ 255)
unfolding canonical_host
canonical_host-length ip laws host h k = elim (Option-cases (ip.parse4 host)) [
  | inr (o, e) ↦ rw (e, canonical_host) (laws.shown4 o (laws.octets4 host o e))
  | inl e ↦ elim (Option-cases (ip.parse6 host)) [
    | inr (o, e') ↦ rw (e, e', canonical_host) (laws.shown6 o (laws.octets6 host o e'))
    | inl e' ↦ rw (e, e', canonical_host) (h, k)
  ]
]

new_endpoint_accepts :
    (host : Text) (port : ℕ)
    → 0 < length host
    → length host ≤ 255
    → 0 < port
    → new_endpoint host port ≡ ok (record { host = host; port = port })
unfolding new_endpoint
new_endpoint_accepts [] port h k p = absurd (omega arith)
new_endpoint_accepts (c ∷ cs) port h k p =
    let e : leb (length (c ∷ cs)) 255 ≡ true = ground arith in
    let e' : (port == 0) ≡ false = ground arith in rw (e, e') refl

-- An address after three bytes is decoded in its usual form, and its end is found.
pub decode_endpoint_at-encode_endpoint :
    (ip : IpText)
    → IpTextLaws ip
    → (a b c : ℕ) (host : Text) (port : ℕ) (e : Endpoint) (rest : Bytes)
    → new_endpoint host port ≡ ok e
    → port ≤ 65535
    → is_utf8 host ≡ true
    → (n : ℕ) × (decode_endpoint_at ip (a ∷ b ∷ c ∷ (encode_endpoint ip e ++ rest)) 3
        ≡ ok (canonical ip e, n))
      × (drop n (a ∷ b ∷ c ∷ (encode_endpoint ip e ++ rest)) ≡ rest)
unfolding decode_endpoint_at encode_endpoint
decode_endpoint_at-encode_endpoint ip laws a b c host port e rest made bound u =
    let (p, nonempty, short, positive) = new_endpoint-ok host port made in
    let front = encode_host ip host in
    let tail = be16 port ++ rest in
    let buf = a ∷ b ∷ c ∷ (front ++ tail) in
    let (k, l) = canonical_host-length ip laws host nonempty short in
    let named = decode_host_at-encode_host ip a b c laws host tail short u (omega arith) in
    let (_, left) = located buf 3 (length front) front tail refl refl in
    let number = u16_at-be16 buf (3 + length front) port rest left bound in
    let accepted = new_endpoint_accepts (canonical_host ip host) port k l positive in
    let deep : ltb 3 (length buf) ≡ true = ground (arith, length-append front tail) in
    let all : drop (3 + length front + 2) buf ≡ rest =
      drop-add (3 + length front) 2 buf ∙ ap (λ (r : Bytes). drop 2 r) left in
    (
      3 + length front + 2,
      rw (p, append_assoc front (be16 port) rest, named) (rw (number, accepted, deep) refl),
      rw (p, append_assoc front (be16 port) rest) all,
    )

pub length-encode_endpoint :
    (ip : IpText)
    → IpTextLaws ip
    → (e : Endpoint) → 0 < length e.host
    → 4 ≤ length (encode_endpoint ip e)
unfolding encode_endpoint encode_host
length-encode_endpoint ip laws e h = elim (Option-cases (ip.parse4 e.host)) [
  | inr (o, q) ↦
      rw (q, encode_host) (omega (arith, laws.octets4 e.host o q, length-append o (be16 e.port)))
  | inl q ↦ elim (Option-cases (ip.parse6 e.host)) [
    | inr (o, r) ↦
        rw (q, r, encode_host)
          (omega (arith, laws.octets6 e.host o r, length-append o (be16 e.port)))
    | inl r ↦ rw (q, r, encode_host) (omega (arith, length-append e.host (be16 e.port)))
  ]
]
