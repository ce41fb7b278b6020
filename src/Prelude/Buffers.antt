-- ===== src/Prelude/Buffers.antt =====
-- Byte buffers as lists of numbers below 256: big-endian numbers, slices, and UTF-8.
use Prim.Native.Nat.{ℕ, zero, suc, ◌+◌, ◌*◌, ◌/◌, ◌%◌, ◌≤◌, ◌<◌}
use mathlib.Core.Path.{◌≡◌, refl, ap, sym, ◌∙◌}
use mathlib.Core.Bool.{Bool, true, false, ◌&&◌}
use mathlib.Core.List.{List, [], ◌∷◌, ◌++◌}
use mathlib.Core.Option.{Option, none, some}
use native.Mathlib.Omega.{arith}
use meshbus_rs.Prelude.Tests.{leb, ◌==◌, if◌then◌else◌}
use meshbus_rs.Prelude.Lists.{length, take, drop, get_or, All}

abbrev pub Bytes : Type 0
Bytes = List ℕ

abbrev pub IsBytes : Bytes → Type 0
IsBytes bs = All (λ b. b < 256) bs

-- `u16::to_be_bytes`, `buf[i]`, and the number that two bytes at an index stand for.
abbrev pub be16 : ℕ → Bytes
be16 n = n / 256 % 256 ∷ n % 256 ∷ []

abbrev pub byte_at : Bytes → ℕ → ℕ
byte_at buf i = get_or (drop i buf) 0 0

abbrev pub u16_at : Bytes → ℕ → ℕ
u16_at buf i = get_or (drop i buf) 0 0 * 256 + get_or (drop i buf) 1 0

-- `&buf[from..from + n]`
abbrev pub slice : Bytes → ℕ → ℕ → Bytes
slice buf from n = take n (drop from buf)

module _ {ℓ} {A : Type ℓ} where
  drop_nil : (n : ℕ) → drop {A = A} n [] ≡ []
  drop_nil zero = refl
  drop_nil (suc n) = refl

  pub drop-add : (m n : ℕ) (xs : List A) → drop (m + n) xs ≡ drop n (drop m xs)
  drop-add zero n xs = let e : 0 + n ≡ n = omega arith in ap (λ k. drop k xs) e
  drop-add (suc m) n [] =
      let e : suc m + n ≡ suc (m + n) = omega arith in
      ap (λ k. drop {A = A} k []) e ∙ sym (drop_nil n)
  drop-add (suc m) n (x ∷ xs) =
      let e : suc m + n ≡ suc (m + n) = omega arith in ap (λ k. drop k (x ∷ xs)) e ∙ drop-add m n xs

  pub take-append : (xs ys : List A) → take (length xs) (xs ++ ys) ≡ xs
  take-append [] ys = refl
  take-append (x ∷ xs) ys = ap (λ t. x ∷ t) (take-append xs ys)

  pub drop-append : (xs ys : List A) → drop (length xs) (xs ++ ys) ≡ ys
  drop-append [] ys = refl
  drop-append (x ∷ xs) ys = drop-append xs ys

pub take-drop : (n : ℕ) (bs : Bytes) → take n bs ++ drop n bs ≡ bs
take-drop zero bs = refl
take-drop (suc n) [] = refl
take-drop (suc n) (b ∷ bs) = ap (λ r. b ∷ r) (take-drop n bs)

pub length-take : (n : ℕ) (bs : Bytes) → n ≤ length bs → length (take n bs) ≡ n
length-take zero bs h = refl
length-take (suc n) [] h = absurd (omega arith)
length-take (suc n) (b ∷ bs) h = ap suc (length-take n bs (omega arith))

-- What stands at an index of a buffer, and behind it.
pub located :
    (buf : Bytes) (k n : ℕ) (xs r : Bytes)
    → drop k buf ≡ xs ++ r
    → length xs ≡ n
    → (slice buf k n ≡ xs) × (drop (k + n) buf ≡ r)
located buf k n xs r e h =
    (rw (e, ← h) (take-append xs r), rw (drop-add k n buf, e, ← h) (drop-append xs r))

abbrev between : ℕ → ℕ → ℕ → Bool
between lo hi b = leb lo b && leb b hi

-- How many bytes follow a first byte, and the range of the next one; `none` for no first byte.
utf8_lead : ℕ → Option (ℕ × ℕ × ℕ)
utf8_lead a =
    if leb a 127
    then some (0, 128, 191)
    else if between 194 223 a
    then some (1, 128, 191)
    else if a == 224
    then some (2, 160, 191)
    else if a == 237
    then some (2, 128, 159)
    else if between 225 239 a
    then some (2, 128, 191)
    else if a == 240
    then some (3, 144, 191)
    else if between 241 243 a
    then some (3, 128, 191)
    else if a == 244
    then some (3, 128, 143)
    else none

-- The bytes that are still to follow, and the range of the next one.
utf8_run : ℕ → ℕ → ℕ → Bytes → Bool
unfolding utf8_lead
utf8_run zero lo hi [] = true
utf8_run (suc n) lo hi [] = false
utf8_run (suc n) lo hi (b ∷ bs) = between lo hi b && utf8_run n 128 191 bs
utf8_run zero lo hi (a ∷ bs) = elim (utf8_lead a) [
  | none ↦ false
  | some (n, lo', hi') ↦ utf8_run n lo' hi' bs
]

-- `std::str::from_utf8` succeeds: each code point has its shortest form, and no surrogate is there.
unfoldable pub is_utf8 : Bytes → Bool
unfolding utf8_run
is_utf8 bs = utf8_run 0 128 191 bs
