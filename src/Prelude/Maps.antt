-- ===== src/Prelude/Maps.antt =====
-- `HashMap` and `BTreeMap` as association lists: the entries in iteration order.
use Prim.Native.Nat.{◌≤◌, ◌<◌}
use mathlib.Core.Path.{◌≡◌, refl, sym}
use mathlib.Core.Logic.{◌≢◌, ◌⊎◌, inl, inr}
use mathlib.Core.Bool.{Bool, true, false, not, ◌&&◌, ◌||◌}
use mathlib.Core.List.{List, [], ◌∷◌, map}
use mathlib.Core.Option.{Option, none, some}
use native.Mathlib.Omega.{arith}
use meshbus_rs.Prelude.Tests.{Eq, if◌then◌else◌, Bool-cases, Option-cases, is_some}
use meshbus_rs.Prelude.Lists.{contains, In, head, later, length}

module _ {ℓ κ} {K : Type ℓ} {V : Type κ} where
  abbrev pub keys : List (K × V) → List K
  keys m = map (λ e. e.0) m

  abbrev pub values : List (K × V) → List V
  values m = map (λ e. e.1) m

module _ {ℓ} {K : Type ℓ} ⦃e : Eq K⦄ where
  pub beq_refl : (k : K) → e.beq k k ≡ true
  beq_refl k = (e.beq_iff k k).1 refl

  pub beq-cases : (j k : K) → ((e.beq j k ≡ true) × (j ≡ k)) ⊎ ((e.beq j k ≡ false) × (j ≢ k))
  beq-cases j k = elim (Bool-cases (e.beq j k)) [
    | inl p ↦ inl (p, (e.beq_iff j k).0 p)
    | inr p ↦ inr (p, λ q. cc (p, (e.beq_iff j k).1 q))
  ]

  pub beq_sym : (j k : K) → e.beq j k ≡ e.beq k j
  beq_sym j k = elim (beq-cases j k) [
    | inl p ↦ rw p.1
    | inr p ↦ elim (beq-cases k j) [ inl q ↦ absurd (p.1 (sym q.1)) | inr q ↦ rw (p.0, q.0) ]
  ]

module _ {ℓ κ} {K : Type ℓ} {V : Type κ} ⦃e : Eq K⦄ where
  abbrev pub lookup : K → List (K × V) → Option V
  lookup k [] = none
  lookup k ((j, v) ∷ m) = if e.beq j k then some v else lookup k m

  abbrev pub contains_key : K → List (K × V) → Bool
  contains_key k m = is_some (lookup k m)

  -- An insertion replaces the value of a key that is there.
  abbrev pub insert : K → V → List (K × V) → List (K × V)
  insert k v [] = (k, v) ∷ []
  insert k v ((j, w) ∷ m) = if e.beq j k then (k, v) ∷ m else (j, w) ∷ insert k v m

  abbrev pub remove : K → List (K × V) → List (K × V)
  remove k [] = []
  remove k ((j, w) ∷ m) = if e.beq j k then remove k m else (j, w) ∷ remove k m

  -- No key stands twice: what a map's type promises.
  abbrev pub IsMap : List (K × V) → Type 0
  IsMap [] = Unit {0}
  IsMap ((j, v) ∷ m) = (contains_key j m ≡ false) × IsMap m

  pub lookup-insert :
      (k j : K) (v : V) (m : List (K × V))
      → lookup j (insert k v m) ≡ (if e.beq k j then some v else lookup j m)
  lookup-insert k j v [] = refl
  lookup-insert k j v ((i, w) ∷ m) = elim (beq-cases i k) [
    | inl p ↦ rw (p.0, p.1) (ground arith)
    | inr p ↦ rw p.0 (
        rw (lookup-insert k j v m) (elim (beq-cases i j) [
          | inl q ↦ rw q.0 (rw (beq_sym k j) (rw (← q.1) (rw p.0)))
          | inr q ↦ rw q.0
        ]))
  ]

  pub lookup-remove :
      (k j : K) (m : List (K × V))
      → lookup j (remove k m) ≡ (if e.beq k j then none else lookup j m)
  lookup-remove k j [] = ground arith
  lookup-remove k j ((i, w) ∷ m) = elim (beq-cases i k) [
    | inl p ↦ rw (p.0, p.1, lookup-remove k j m) (ground arith)
    | inr p ↦ rw p.0 (
        rw (lookup-remove k j m) (elim (beq-cases i j) [
          | inl q ↦ rw q.0 (rw (beq_sym k j) (rw (← q.1) (rw p.0)))
          | inr q ↦ rw q.0
        ]))
  ]

module _ {ℓ} {K : Type ℓ} {V : Type ℓ} ⦃e : Eq K⦄ where
  pub lookup-In : (k : K) (m : List (K × V)) {v : V} → lookup k m ≡ some v → In (k, v) m
  lookup-In k [] h = absurd (cc h)
  lookup-In k ((j, w) ∷ m) {v} h = elim (beq-cases j k) [
    | inl p ↦ head (ground (arith, p.0, p.1))
    | inr p ↦ later (lookup-In k m (rw p.0 at h))
  ]

  pub contains_key-lookup :
      (k : K) (m : List (K × V)) → contains_key k m ≡ true → (v : V) × (lookup k m ≡ some v)
  contains_key-lookup k m h = elim (Option-cases (lookup k m)) [
    | inl p ↦ absurd (cc (rw p at h))
    | inr q ↦ q
  ]

module _ {ℓ} {K : Type ℓ} ⦃e : Eq K⦄ where
  pub contains-In : (k : K) (ks : List K) → contains k ks ≡ true → In k ks
  contains-In k [] h = absurd (cc h)
  contains-In k (j ∷ ks) h = elim (beq-cases j k) [
    | inl p ↦ head (sym p.1)
    | inr p ↦ later (contains-In k ks (rw p.0 at h))
  ]

tail_In {ℓ} : {K : Type ℓ} (k j : K) (ks : List K) → In k (j ∷ ks) → j ≢ k → In k ks
tail_In k j ks (head p) ne = absurd (ne (sym p))
tail_In k j ks (later i) ne = i

module _ {ℓ} {K : Type ℓ} {V : Type ℓ} ⦃e : Eq K⦄ where
  pub In-keys : (k : K) (m : List (K × V)) → contains_key k m ≡ true → In k (keys m)
  In-keys k [] h = absurd (cc h)
  In-keys k ((j, w) ∷ m) h = elim (beq-cases j k) [
    | inl p ↦ head (sym p.1)
    | inr p ↦ later (In-keys k m (rw p.0 at h))
  ]

  pub lookup-In-keys : (k : K) (m : List (K × V)) → In k (keys m) → (v : V) × (lookup k m ≡ some v)
  lookup-In-keys k [] i = elim i [ ]
  lookup-In-keys k ((j, w) ∷ m) i = elim (beq-cases j k) [
    | inl p ↦ (w, rw p.0)
    | inr p ↦ let (v, found) = lookup-In-keys k m (tail_In k j (keys m) i p.1) in (v, rw p.0 found)
  ]

module _ {ℓ κ} {K : Type ℓ} {V : Type κ} ⦃e : Eq K⦄ where
  pub contains-keys : (k : K) (m : List (K × V)) → contains k (keys m) ≡ contains_key k m
  contains-keys k [] = refl
  contains-keys k ((j, v) ∷ m) = ground (arith, contains-keys k m)

  pub length-remove_le : (k : K) (m : List (K × V)) → length (remove k m) ≤ length m
  length-remove_le k [] = omega arith
  length-remove_le k ((j, v) ∷ m) = ground (arith, length-remove_le k m)

  pub length-remove_lt :
      (k : K) (m : List (K × V)) → contains_key k m ≡ true → length (remove k m) < length m
  length-remove_lt k [] h = cc
  length-remove_lt k ((j, v) ∷ m) h = ground (arith, length-remove_le k m, length-remove_lt k m)

  pub contains_key-insert :
      (k j : K) (v : V) (m : List (K × V))
      → contains_key j (insert k v m) ≡ (e.beq k j || contains_key j m)
  contains_key-insert k j v m = rw lookup-insert (ground arith)

  pub contains_key-remove :
      (k j : K) (m : List (K × V))
      → contains_key j (remove k m) ≡ (not (e.beq k j) && contains_key j m)
  contains_key-remove k j m = rw lookup-remove (ground arith)
