-- ===== src/Prelude/Lists.antt =====
-- Lists measured and indexed by native numbers, Boolean searches, and membership.
use Prim.Native.Nat.{ℕ, zero, suc, ◌+◌, ◌<◌}
use mathlib.Core.Path.{◌≡◌, refl, ap}
use mathlib.Core.Logic.{inl, inr}
use mathlib.Core.Bool.{Bool, true, false, ◌&&◌, ◌||◌}
use mathlib.Core.List.{List, [], ◌∷◌, ◌++◌}
use mathlib.Core.Option.{Option, none, some}
use native.Mathlib.Omega.{arith}
use meshbus_rs.Prelude.Tests.{Eq, ◌==◌, if◌then◌else◌, Option-cases}

module _ {ℓ} {A : Type ℓ} where
  abbrev pub length : List A → ℕ
  length [] = 0
  length (x ∷ xs) = suc (length xs)

  abbrev pub get_elem? : List A → ℕ → Option A
  get_elem? [] i = none
  get_elem? (x ∷ xs) zero = some x
  get_elem? (x ∷ xs) (suc i) = get_elem? xs i

  abbrev pub set : List A → ℕ → A → List A
  set [] i v = []
  set (x ∷ xs) zero v = v ∷ xs
  set (x ∷ xs) (suc i) v = x ∷ set xs i v

  abbrev pub get_or : List A → ℕ → A → A
  get_or [] i d = d
  get_or (x ∷ xs) zero d = x
  get_or (x ∷ xs) (suc i) d = get_or xs i d

  abbrev pub take : ℕ → List A → List A
  take zero xs = []
  take (suc n) [] = []
  take (suc n) (x ∷ xs) = x ∷ take n xs

  abbrev pub drop : ℕ → List A → List A
  drop zero xs = xs
  drop (suc n) [] = []
  drop (suc n) (x ∷ xs) = drop n xs

  abbrev pub replicate : ℕ → A → List A
  replicate zero a = []
  replicate (suc n) a = a ∷ replicate n a

  abbrev pub any : (A → Bool) → List A → Bool
  any p [] = false
  any p (x ∷ xs) = p x || any p xs

  abbrev pub all : (A → Bool) → List A → Bool
  all p [] = true
  all p (x ∷ xs) = p x && all p xs

  abbrev pub find : (A → Bool) → List A → Option A
  find p [] = none
  find p (x ∷ xs) = if p x then some x else find p xs

  abbrev pub filter : (A → Bool) → List A → List A
  filter p [] = []
  filter p (x ∷ xs) = if p x then x ∷ filter p xs else filter p xs

  pub length-append : (xs ys : List A) → length (xs ++ ys) ≡ length xs + length ys
  length-append [] ys = omega arith
  length-append (x ∷ xs) ys = omega (arith, length-append xs ys)

  -- Membership, with the place where the element stands.
  pub data In (a : A) : List A → Type ℓ where
    head : {b : A} {xs : List A} → a ≡ b → In a (b ∷ xs)
    later : {b : A} {xs : List A} → In a xs → In a (b ∷ xs)

module _ {ℓ} {A : Type ℓ} ⦃e : Eq A⦄ where
  abbrev pub contains : A → List A → Bool
  contains a [] = false
  contains a (x ∷ xs) = e.beq x a || contains a xs

module _ {ℓ} {A : Type ℓ} where
  abbrev pub enumerate : ℕ → List A → List (A × ℕ)
  enumerate n [] = []
  enumerate n (x ∷ xs) = (x, n) ∷ enumerate (suc n) xs

-- `iter().map(f).collect()` where `f` may panic, or give an error: the first failure is the result.
module _ {ℓ κ} {A : Type ℓ} {B : Type κ} where
  unfoldable pub traverse : (A → Option B) → List A → Option (List B)
  traverse f [] = some []
  traverse f (x ∷ xs) = elim (f x) [
    | none ↦ none
    | some y ↦ elim (traverse f xs) [ none ↦ none | some ys ↦ some (y ∷ ys) ]
  ]

  pub traverse-cons :
      (f : A → Option B) (x : A) (xs : List A) {ys : List B}
      → traverse f (x ∷ xs) ≡ some ys
      → (y : B) × (zs : List B) × (f x ≡ some y) × (traverse f xs ≡ some zs) × (ys ≡ y ∷ zs)
  unfolding traverse
  traverse-cons f x xs h = elim (Option-cases (f x)) [
    | inl e ↦ absurd (cc (rw (e, traverse) at h))
    | inr (y, e) ↦ elim (Option-cases (traverse f xs)) [
      | inl e' ↦ absurd (cc (rw (e, e', traverse) at h))
      | inr (zs, e') ↦ (y, zs, e, e', cc (rw (e, e', traverse) at h))
    ]
  ]

  -- An element of the result comes from the element at the same place.
  pub get_elem?-traverse :
      (f : A → Option B) (xs : List A) (i : ℕ) {ys : List B} {x : A}
      → traverse f xs ≡ some ys
      → get_elem? xs i ≡ some x
      → (y : B) × (f x ≡ some y) × (get_elem? ys i ≡ some y)
  get_elem?-traverse f [] i h p = absurd (cc)
  get_elem?-traverse f (x ∷ xs) zero h p =
      let (y, zs, e, e', q) = traverse-cons f x xs h in (y, cc, rw q)
  get_elem?-traverse f (x ∷ xs) (suc i) h p =
      let (y, zs, e, e', q) = traverse-cons f x xs h in rw q (get_elem?-traverse f xs i e' p)

module _ {ℓ κ} {A : Type ℓ} {B : Type κ} where
  pub traverse_all :
      (f : A → Option B) (xs : List A)
      → ((x : A) → In x xs → (y : B) × (f x ≡ some y))
      → (ys : List B) × (traverse f xs ≡ some ys)
  unfolding traverse
  traverse_all f [] h = ([], refl)
  traverse_all f (x ∷ xs) h =
      let (y, e) = h x (head refl) in
      let (ys, e') = traverse_all f xs (λ z i. h z (later i)) in (y ∷ ys, rw (e, e', traverse))

  pub traverse-none :
      (f : A → Option B) {x : A} {xs : List A} → In x xs → f x ≡ none → traverse f xs ≡ none
  unfolding traverse
  traverse-none f {x} (head {b = y} p) h = let e : f y ≡ none = rw (← p) h in rw (e, traverse)
  traverse-none f (later {b = y} {xs = ys} i) h = elim (Option-cases (f y)) [
    | inl e ↦ rw (e, traverse)
    | inr (z, e) ↦ rw (e, traverse-none f i h, traverse)
  ]

module _ {ℓ} {A : Type ℓ} where
  pub length-set : (xs : List A) (i : ℕ) (v : A) → length (set xs i v) ≡ length xs
  length-set [] i v = refl
  length-set (x ∷ xs) zero v = refl
  length-set (x ∷ xs) (suc i) v = ap suc (length-set xs i v)

  pub get_or-set :
      (xs : List A) (i j : ℕ) (v d : A)
      → i < length xs
      → get_or (set xs i v) j d ≡ (if i == j then v else get_or xs j d)
  get_or-set [] i j v d h = absurd (omega arith)
  get_or-set (x ∷ xs) zero zero v d h = refl
  get_or-set (x ∷ xs) zero (suc j) v d h = ground arith
  get_or-set (x ∷ xs) (suc i) zero v d h = ground arith
  get_or-set (x ∷ xs) (suc i) (suc j) v d h = ground (arith, get_or-set xs i j v d)

  pub length-replicate : (n : ℕ) (a : A) → length (replicate n a) ≡ n
  length-replicate zero a = refl
  length-replicate (suc n) a = ap suc (length-replicate n a)

pub get_or-replicate : (n j : ℕ) → ◌≡◌ {A = ℕ} (get_or (replicate n 0) j 0) 0
get_or-replicate zero j = refl
get_or-replicate (suc n) zero = refl
get_or-replicate (suc n) (suc j) = get_or-replicate n j

pub any-append {ℓ} :
    {A : Type ℓ} (p : A → Bool) (xs ys : List A) → any p (xs ++ ys) ≡ (any p xs || any p ys)
any-append p [] ys = refl
any-append p (x ∷ xs) ys = ground (arith, any-append p xs ys)

abbrev pub All {ℓ κ} : {A : Type ℓ} → (A → Type κ) → List A → Type κ
All P [] = Unit
All P (x ∷ xs) = P x × All P xs

pub All-append {ℓ κ} :
    {A : Type ℓ} (P : A → Type κ) (xs ys : List A) → All P xs → All P ys → All P (xs ++ ys)
All-append P [] ys h k = k
All-append P (x ∷ xs) ys (p, h) k = (p, All-append P xs ys h k)
