-- ===== src/Kernel/Compiled/Slots.antt =====
-- Interned slots point back at their ids, and a compiled registry's tables at its entries.
use meshbus_rs.Prelude.{ℕ, suc, ◌+◌, Text, text_eq_inst, text_eq, List, [], ◌∷◌}
use meshbus_rs.Prelude.{Option, none, some, lookup, lookup-insert, enumerate}
use meshbus_rs.Prelude.{get_elem?, if◌then◌else◌, ◌≡◌, refl, inl, inr, Option-cases}
use meshbus_rs.Prelude.{beq-cases, keys, arith, false}
use meshbus_rs.Kernel.Compiled.{Slot, from_iter, intern}

abbrev slots_from : ℕ → List Text → List (Text × Slot)
slots_from n ids = from_iter (enumerate n ids)

-- One step of the collection: a key that comes again later keeps its later slot.
lookup-slots_old :
    (n : ℕ) (x k : Text) (xs : List Text) {w : Slot}
    → lookup x (slots_from (suc n) xs) ≡ some w
    → lookup k (slots_from n (x ∷ xs)) ≡ lookup k (slots_from (suc n) xs)
unfolding from_iter
lookup-slots_old n x k xs e = rw e

lookup-slots_new :
    (n : ℕ) (x k : Text) (xs : List Text)
    → lookup x (slots_from (suc n) xs) ≡ none
    → lookup k (slots_from n (x ∷ xs))
      ≡ (if text_eq x k then some n else lookup k (slots_from (suc n) xs))
unfolding from_iter
lookup-slots_new n x k xs e = rw e (lookup-insert x k n (slots_from (suc n) xs))

lookup_later :
    (n : ℕ) (x k : Text) (xs : List Text) {o : Option Slot}
    → lookup x (slots_from (suc n) xs) ≡ none
    → text_eq x k ≡ false
    → lookup k (slots_from n (x ∷ xs)) ≡ o
    → lookup k (slots_from (suc n) xs) ≡ o
lookup_later n x k xs e p h = ground (arith, lookup-slots_new n x k xs e)

slots_from_sound :
    (n : ℕ) (k : Text) (ids : List Text) {i : Slot}
    → lookup k (slots_from n ids) ≡ some i
    → (d : ℕ) × (i ≡ n + d) × (get_elem? ids d ≡ some k)
slots_from_sound n k [] h = absurd (unfold from_iter in cc h)
slots_from_sound n k (x ∷ xs) {i} h = elim (Option-cases (lookup x (slots_from (suc n) xs))) [
  | inr (w, e) ↦ next (slots_from_sound (suc n) k xs (rw (lookup-slots_old n x k xs e) at h))
  | inl e ↦ elim (beq-cases x k) [
    | inl p ↦ (0, ground (arith, lookup-slots_new n x k xs e), cc)
    | inr p ↦ next (slots_from_sound (suc n) k xs (lookup_later n x k xs e p.0 h))
  ]
]
  where
    next :
        (d : ℕ) × (i ≡ suc n + d) × (get_elem? xs d ≡ some k)
        → (d : ℕ) × (i ≡ n + d) × (get_elem? (x ∷ xs) d ≡ some k)
    next (d, p, q) = (suc d, omega arith, q)

slots_from_complete :
    {V : Type 0} (n : ℕ) (k : Text) (m : List (Text × V))
    → lookup k (slots_from n (keys m)) ≡ none
    → lookup k m ≡ none
slots_from_complete n k [] h = refl
slots_from_complete n k ((x, v) ∷ m) h =
    elim (Option-cases (lookup x (slots_from (suc n) (keys m)))) [
      | inr (w, e) ↦
          let ih = slots_from_complete (suc n) k m (rw (lookup-slots_old n x k (keys m) e) at h) in
          elim (beq-cases x k) [
            | inl p ↦ absurd (cc (e, p.1, rw (lookup-slots_old n x k (keys m) e) at h))
            | inr p ↦ rw p.0 ih
          ]
      | inl e ↦ elim (beq-cases x k) [
        | inl p ↦ absurd (ground (arith, lookup-slots_new n x k (keys m) e))
        | inr p ↦ rw p.0 (slots_from_complete (suc n) k m (lookup_later n x k (keys m) e p.0 h))
      ]
    ]

-- A slot is the place of its id.
pub intern_sound :
    (k : Text) (ids : List Text) {i : Slot}
    → lookup k (intern ids) ≡ some i
    → get_elem? ids i ≡ some k
unfolding intern
intern_sound k ids {i} h =
    let (d, p, q) = slots_from_sound 0 k ids h in let e : i ≡ d = omega arith in rw e q

-- An id without a slot is no key.
pub intern_complete :
    {V : Type 0} (k : Text) (m : List (Text × V))
    → lookup k (intern (keys m)) ≡ none
    → lookup k m ≡ none
unfolding intern
intern_complete k m h = slots_from_complete 0 k m h
