-- ===== src/Kernel/Dispatch/Order.antt =====
-- The steps that turn a scheduler's decision into an order of egresses, in
-- crates/mesh-bus-core/src/kernel/dispatch.rs and dispatch_forwarder.rs, keep to the decision.
use meshbus_rs.Prelude.{ℕ, zero, suc, ltb, leb, ◌==◌, nat_eq, Text, text_eq_inst}
use meshbus_rs.Prelude.{Bool, true, false, not, ◌&&◌, List, [], ◌∷◌, Option, none, some}
use meshbus_rs.Prelude.{length, get_elem?, find, contains}
use meshbus_rs.Prelude.{
  In, head, later, Bool-cases, Option-cases, ◌≡◌, sym, inl, inr, arith, subst, ◌⊎◌, contains-In,
}
use meshbus_rs.Kernel.Dispatch.{Egress}
use meshbus_rs.Kernel.Dispatch.{
  map_candidate_order, remove_first, compare_scores, against_alternative,
}
use meshbus_rs.Kernel.Dispatch.{apply_pin_with_hysteresis, pin_healthy, apply_pin, valid_order_from}

pub In-cons {ℓ} : {A : Type ℓ} {x y : A} {ys : List A} → In x (y ∷ ys) → (x ≡ y) ⊎ In x ys
In-cons (head e) = inl e
In-cons (later i) = inr i

In-get_elem? : (xs : List ℕ) (k : ℕ) {i : ℕ} → get_elem? xs k ≡ some i → In i xs
In-get_elem? [] k h = absurd (cc h)
In-get_elem? (x ∷ xs) zero h = head (cc h)
In-get_elem? (x ∷ xs) (suc k) h = later (In-get_elem? xs k h)

pub In-map_candidate_order :
    (order m : List ℕ) {i : ℕ} → In i (map_candidate_order order m) → In i m
unfolding map_candidate_order
In-map_candidate_order [] m i = elim i [ ]
In-map_candidate_order (k ∷ order) m i = elim (Option-cases (get_elem? m k)) [
  | inl e ↦ In-map_candidate_order order m (rw (e, map_candidate_order) at i)
  | inr (j, e) ↦ elim (In-cons (rw (e, map_candidate_order) at i)) [
    | inl q ↦ In-get_elem? m k (rw q e)
    | inr r ↦ In-map_candidate_order order m r
  ]
]

In-remove_first : (k : ℕ) (order : List ℕ) {i : ℕ} → In i (remove_first k order) → In i order
unfolding remove_first
In-remove_first k [] i = elim i [ ]
In-remove_first k (j ∷ order) i = elim (Bool-cases (j == k)) [
  | inl y ↦ later (rw y at i)
  | inr n ↦ elim (In-cons (rw n at i)) [
    | inl q ↦ head q
    | inr r ↦ later (In-remove_first k order r)
  ]
]

-- What an operation on an order returns, where it does not panic, stood in the order.
abbrev pub Keeps : List ℕ → Option (List ℕ) → Type 0
Keeps order o = (order' : List ℕ) (i : ℕ) → o ≡ some order' → In i order' → In i order

none-Keeps : (order : List ℕ) → Keeps order none
none-Keeps order order' i e j = absurd (cc e)

some-Keeps : (order xs : List ℕ) → ((i : ℕ) → In i xs → In i order) → Keeps order (some xs)
some-Keeps order xs h order' i e j =
    let e' : xs ≡ order' = cc e in h i (subst (λ t. In i t) (sym e') j)

module _ (beats : Text → Text → Bool) (es : List Egress) (order : List ℕ) where
  promoted-Keeps :
      (pinned : ℕ)
      → contains pinned order ≡ true
      → Keeps order (some (pinned ∷ remove_first pinned order))
  promoted-Keeps pinned h = some-Keeps order (pinned ∷ remove_first pinned order) (λ i j.
      elim (In-cons j) [
        | inl e ↦ rw e (contains-In pinned order h)
        | inr k ↦ In-remove_first pinned order k
      ])

  compare_scores-Keeps :
      (pinned : ℕ) (p a : Option Egress)
      → contains pinned order ≡ true
      → Keeps order (compare_scores beats pinned order p a)
  unfolding compare_scores
  compare_scores-Keeps pinned none a h = none-Keeps order
  compare_scores-Keeps pinned (some p) none h = none-Keeps order
  compare_scores-Keeps pinned (some p) (some a) h = elim (Bool-cases (beats p.exit_id a.exit_id)) [
    | inl y ↦ rw y (promoted-Keeps pinned h)
    | inr n ↦ rw n (some-Keeps order order (λ i j. j))
  ]

  against_alternative-Keeps :
      (pinned : ℕ) (alt : Option ℕ)
      → contains pinned order ≡ true
      → Keeps order (against_alternative beats es pinned order alt)
  unfolding against_alternative
  against_alternative-Keeps pinned none h = some-Keeps order order (λ i j. j)
  against_alternative-Keeps pinned (some alt) h =
      compare_scores-Keeps pinned (get_elem? es pinned) (get_elem? es alt) h

  apply_pin_with_hysteresis-Keeps :
      (pinned : ℕ) → Keeps order (apply_pin_with_hysteresis beats es pinned order)
  unfolding apply_pin_with_hysteresis
  apply_pin_with_hysteresis-Keeps pinned = elim (Bool-cases (contains pinned order)) [
    | inl y ↦ elim (Bool-cases (leb (length order) 1)) [
      | inl short ↦ rw (y, short) (promoted-Keeps pinned y)
      | inr long ↦
          rw (y, long) (against_alternative-Keeps pinned (find (λ i. not (i == pinned)) order) y)
    ]
    | inr n ↦ rw n (some-Keeps order order (λ i j. j))
  ]

  pin_healthy-Keeps :
      (unhealthy : List Text) (pinned : ℕ) (e : Option Egress)
      → Keeps order (pin_healthy beats es unhealthy pinned order e)
  unfolding pin_healthy
  pin_healthy-Keeps unhealthy pinned none = none-Keeps order
  pin_healthy-Keeps unhealthy pinned (some e) = elim (Bool-cases (contains e.exit_id unhealthy)) [
    | inl y ↦ rw y (some-Keeps order order (λ i j. j))
    | inr n ↦ rw n (apply_pin_with_hysteresis-Keeps pinned)
  ]

  pub apply_pin-Keeps :
      (unhealthy : List Text) (pin : Option ℕ)
      → Keeps order (apply_pin beats es unhealthy order pin)
  unfolding apply_pin
  apply_pin-Keeps unhealthy none = some-Keeps order order (λ i j. j)
  apply_pin-Keeps unhealthy (some pinned) = pin_healthy-Keeps unhealthy pinned (get_elem? es pinned)

pub In-valid_order_from :
    (seen order : List ℕ) (n : ℕ) {i : ℕ} → In i (valid_order_from seen order n) → In i order
unfolding valid_order_from
In-valid_order_from seen [] n i = elim i [ ]
In-valid_order_from seen (k ∷ order) n i = elim (Bool-cases (ltb k n && not (contains k seen))) [
  | inl y ↦ elim (In-cons (rw y at i)) [
    | inl e ↦ head e
    | inr j ↦ later (In-valid_order_from (k ∷ seen) order n j)
  ]
  | inr stale ↦ later (In-valid_order_from seen order n (rw stale at i))
]

-- Each element is none of those seen, nor again later.
abbrev pub AllNew : List ℕ → List ℕ → Type 0
AllNew seen [] = Unit {0}
AllNew seen (k ∷ order) = (contains k seen ≡ false) × AllNew (k ∷ seen) order

pub valid_order_from-AllNew :
    (order seen : List ℕ) (n : ℕ) → AllNew seen (valid_order_from seen order n)
unfolding valid_order_from
valid_order_from-AllNew [] seen n = tt
valid_order_from-AllNew (k ∷ order) seen n = elim (Bool-cases (ltb k n && not (contains k seen))) [
  | inl y ↦ rw y (ground (arith, y), valid_order_from-AllNew order (k ∷ seen) n)
  | inr stale ↦ rw stale (valid_order_from-AllNew order seen n)
]
