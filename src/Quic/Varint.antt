-- ===== src/Quic/Varint.antt =====
-- lib/mb-quic/src/packet.rs: variable-length integers.
use meshbus_rs.Prelude.{Text}
use meshbus_rs.Prelude.{
  ℕ, ◌+◌, ◌*◌, ◌/◌, ◌%◌, ◌≡◌, ◌<◌, ltb, leb, ◌==◌, refl, ap, ◌∙◌, arith, if◌then◌else◌, Bool-cases,
  inl, inr,
}
use meshbus_rs.Prelude.{
  Bytes, be16, [], ◌∷◌, ◌++◌, length, take, drop, true, Result, ok, err, ◌>>◌, require,
}

pub data QuicError : Type 0 where
  short_buffer : QuicError
  malformed crypto tls transport : Text → QuicError
  unsupported_version : ℕ → QuicError

abbrev be32 : ℕ → Bytes
be32 n = n / 16777216 % 256 ∷ n / 65536 % 256 ∷ n / 256 % 256 ∷ n % 256 ∷ []

abbrev be64 : ℕ → Bytes
be64 n = be32 (n / 4294967296) ++ be32 n

-- The marks are above the value's bits in the branches for 2 and 4 bytes; in the last one `|` sets the
-- upper two bits of 64.
unfoldable pub encode_varint : ℕ → Bytes
encode_varint value =
    if ltb value 64
    then value ∷ []
    else if ltb value 16384
    then be16 (value + 16384)
    else if ltb value 1073741824
    then be32 (value + 2147483648)
    else be64 (value % 4611686018427387904 + 13835058055282163712)

unfoldable pub varint_len : ℕ → ℕ
varint_len value =
    if ltb value 64 then 1 else if ltb value 16384 then 2 else if ltb value 1073741824 then 4 else 8

-- `1 << (first >> 6)` of a byte
unfoldable pub varint_size : ℕ → ℕ
varint_size first =
    if first / 64 == 0 then 1 else if first / 64 == 1 then 2 else if first / 64 == 2 then 4 else 8

unfoldable pub be_value : ℕ → Bytes → ℕ
be_value acc [] = acc
be_value acc (b ∷ bs) = be_value (acc * 256 + b) bs

unfoldable pub decode_varint : Bytes → Result QuicError (ℕ × ℕ)
decode_varint [] = err QuicError.short_buffer
decode_varint (first ∷ more) = do
  require (leb (varint_size first) (length (first ∷ more))) QuicError.short_buffer
  ok (be_value (first % 64) (drop 1 (take (varint_size first) (first ∷ more))), varint_size first)

two_bytes :
    (a b : ℕ) (rest : Bytes)
    → varint_size a ≡ 2
    → decode_varint (a ∷ b ∷ rest) ≡ ok (a % 64 * 256 + b, 2)
unfolding decode_varint be_value
two_bytes a b rest e = let t : leb 2 (length (a ∷ b ∷ rest)) ≡ true = ground arith in rw (e, t) refl

four_bytes :
    (a b c d : ℕ) (rest : Bytes)
    → varint_size a ≡ 4
    → decode_varint (a ∷ b ∷ c ∷ d ∷ rest) ≡ ok (((a % 64 * 256 + b) * 256 + c) * 256 + d, 4)
unfolding decode_varint be_value
four_bytes a b c d rest e =
    let t : leb 4 (length (a ∷ b ∷ c ∷ d ∷ rest)) ≡ true = ground arith in rw (e, t) refl

eight_bytes :
    (a b c d e f g h : ℕ) (rest : Bytes)
    → varint_size a ≡ 8
    → decode_varint (a ∷ b ∷ c ∷ d ∷ e ∷ f ∷ g ∷ h ∷ rest)
      ≡ ok (
        ((((((a % 64 * 256 + b) * 256 + c) * 256 + d) * 256 + e) * 256 + f) * 256 + g) * 256 + h,
        8,
      )
unfolding decode_varint be_value
eight_bytes a b c d e f g h rest p =
    let t : leb 8 (length (a ∷ b ∷ c ∷ d ∷ e ∷ f ∷ g ∷ h ∷ rest)) ≡ true = ground arith in
    rw (p, t) refl

short_value : (v : ℕ) → v < 64 → varint_size v ≡ 1
unfolding varint_size
short_value v h = ground arith

-- Four bytes and the mark: the upper half, and how the lower half joins it.
upper_half :
    (v : ℕ)
    → v < 4611686018427387904
    → (v % 4611686018427387904 + 13835058055282163712) / 4294967296 ≡ v / 4294967296 + 3221225472
upper_half v h = omega arith

upper_digits :
    (v : ℕ)
    → v < 4611686018427387904
    → let hi = (v % 4611686018427387904 + 13835058055282163712) / 4294967296 in
      ((hi / 16777216 % 256 % 64 * 256 + hi / 65536 % 256) * 256 + hi / 256 % 256) * 256 + hi % 256
      ≡ v / 4294967296
upper_digits v h = rw (upper_half v h) (digits (v / 4294967296) (omega arith))
  where
    digits :
        (k : ℕ)
        → k < 1073741824
        → (((k + 3221225472) / 16777216 % 256 % 64 * 256 + (k + 3221225472) / 65536 % 256) * 256
                + (k + 3221225472) / 256 % 256)
              * 256
            + (k + 3221225472) % 256
          ≡ k
    digits k h = omega arith

upper_mark :
    (v : ℕ)
    → v < 4611686018427387904
    → varint_size ((v % 4611686018427387904 + 13835058055282163712) / 4294967296 / 16777216 % 256)
      ≡ 8
upper_mark v h = rw (upper_half v h) (mark (v / 4294967296) (omega arith))
  where
    mark : (k : ℕ) → k < 1073741824 → varint_size ((k + 3221225472) / 16777216 % 256) ≡ 8
    mark k h = unfold varint_size in ground arith

lower_digits :
    (a n low : ℕ)
    → n % 4294967296 ≡ low
    → (((a * 256 + n / 16777216 % 256) * 256 + n / 65536 % 256) * 256 + n / 256 % 256) * 256
        + n % 256
      ≡ a * 4294967296 + low
lower_digits a n low h = omega arith

-- A value below 2 ^ 62 is read back from its bytes, whatever stands behind them, and exactly these bytes
-- are counted, as many as `varint_len` gives.
pub decode_varint-encode_varint :
    (value : ℕ) (rest : Bytes)
    → value < 4611686018427387904
    → (decode_varint (encode_varint value ++ rest) ≡ ok (value, varint_len value))
      × (length (encode_varint value) ≡ varint_len value)
unfolding encode_varint varint_len
decode_varint-encode_varint value rest h = elim (Bool-cases (ltb value 64)) [
  | inl e ↦
      let small : value < 64 = ground arith in
      let s = short_value value small in
      let t : leb 1 (length (value ∷ rest)) ≡ true = ground arith in
      let m : value % 64 ≡ value = omega arith in
      rw (e) (unfold decode_varint be_value in rw (s, t, m) refl, refl)
  | inr e ↦ elim (Bool-cases (ltb value 16384)) [
    | inl f ↦
        let n = value + 16384 in
        let s : varint_size (n / 256 % 256) ≡ 2 = unfold varint_size in ground arith in
        let q : n / 256 % 256 % 64 * 256 + n % 256 ≡ value = ground arith in
        rw (e, f) (two_bytes (n / 256 % 256) (n % 256) rest s ∙ ap (λ (z : ℕ). ok (z, 2)) q, refl)
    | inr f ↦ elim (Bool-cases (ltb value 1073741824)) [
      | inl g ↦
          let n = value + 2147483648 in
          let s : varint_size (n / 16777216 % 256) ≡ 4 = unfold varint_size in ground arith in
          let q : ((n / 16777216 % 256 % 64 * 256 + n / 65536 % 256) * 256 + n / 256 % 256) * 256
                + n % 256
              ≡ value =
            ground arith in
          rw (e, f, g)
            (
              four_bytes (n / 16777216 % 256) (n / 65536 % 256) (n / 256 % 256) (n % 256) rest s
                  ∙ ap (λ (z : ℕ). ok (z, 4)) q,
              refl,
            )
      | inr g ↦
          let n = value % 4611686018427387904 + 13835058055282163712 in
          let hi = n / 4294967296 in
          let q1 = upper_digits value h in
          let q2 = lower_digits (value / 4294967296) n (value % 4294967296) (omega arith) in
          let s : varint_size (hi / 16777216 % 256) ≡ 8 = upper_mark value h in
          let q : value / 4294967296 * 4294967296 + value % 4294967296 ≡ value = omega arith in
          let whole : ((((((hi / 16777216 % 256 % 64 * 256 + hi / 65536 % 256) * 256
                                    + hi / 256 % 256)
                                  * 256
                                + hi % 256)
                              * 256
                            + n / 16777216 % 256)
                          * 256
                        + n / 65536 % 256)
                      * 256
                    + n / 256 % 256)
                  * 256
                + n % 256
              ≡ value =
            rw (q1) (q2 ∙ q) in
          rw (e, f, g)
            (
              eight_bytes (hi / 16777216 % 256) (hi / 65536 % 256) (hi / 256 % 256) (hi % 256)
                    (n / 16777216 % 256) (n / 65536 % 256) (n / 256 % 256) (n % 256) rest s
                  ∙ ap (λ (z : ℕ). ok (z, 8)) whole,
              refl,
            )
    ]
  ]
]
