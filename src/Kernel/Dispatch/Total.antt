-- ===== src/Kernel/Dispatch/Total.antt =====
-- No index panics while a frame's dispatch order is computed, in
-- crates/mesh-bus-core/src/kernel/dispatch.rs and dispatch_forwarder.rs.
use meshbus_rs.Prelude.{ℕ, zero, suc, ◌<◌, leb, ◌==◌, nat_eq, Text, text_eq_inst}
use meshbus_rs.Prelude.{Bool, not, List, [], ◌∷◌, Option, none, some, length, get_elem?, find}
use meshbus_rs.Prelude.{contains, lookup, In, head, later, Bool-cases, ◌≡◌, refl, inl, inr, arith}
use meshbus_rs.Kernel.Dispatch.{
  ScheduleDecision, Egress, Frame, from_egresses, healthy_candidates, schedule_frame,
  map_candidate_order, indices, compare_scores, against_alternative,
}
use meshbus_rs.Kernel.Dispatch.{
  apply_pin_with_hysteresis, pin_healthy, apply_pin, validated, dispatch_order,
}
use meshbus_rs.Kernel.Dispatch.Order.{In-map_candidate_order}
use meshbus_rs.Kernel.Dispatch.Targets.{healthy_candidates-IsTarget}

abbrev Returns : Option (List ℕ) → Type 0
Returns o = (order : List ℕ) × (o ≡ some order)

abbrev Stands : List Egress → ℕ → Type 0
Stands es i = (e : Egress) × (get_elem? es i ≡ some e)

get_elem?-Stands : (es : List Egress) (i : ℕ) → i < length es → Stands es i
get_elem?-Stands [] i h = absurd (omega (arith, h))
get_elem?-Stands (e ∷ es) zero h = (e, refl)
get_elem?-Stands (e ∷ es) (suc i) h = get_elem?-Stands es i (omega (arith, h))

find-In : (p : ℕ → Bool) (xs : List ℕ) {a : ℕ} → find p xs ≡ some a → In a xs
find-In p [] h = absurd (cc h)
find-In p (x ∷ xs) h = elim (Bool-cases (p x)) [
  | inl y ↦ let e : some x ≡ some _ = (rw y at h) in head (cc e)
  | inr n ↦ later (find-In p xs (rw n at h))
]

module _ (beats : Text → Text → Bool) (es : List Egress) (order : List ℕ)
    (standing : (i : ℕ) → In i order → Stands es i) where
  against_alternative-Returns :
      (pinned : ℕ) (alt : Option ℕ)
      → Stands es pinned
      → ((i : ℕ) → alt ≡ some i → In i order)
      → Returns (against_alternative beats es pinned order alt)
  unfolding against_alternative compare_scores
  against_alternative-Returns pinned none s h = (order, refl)
  against_alternative-Returns pinned (some alt) (p, e) h =
      let (a, e') = standing alt (h alt refl) in rw (e, e') (_, refl)

  apply_pin_with_hysteresis-Returns :
      (pinned : ℕ) → Stands es pinned → Returns (apply_pin_with_hysteresis beats es pinned order)
  unfolding apply_pin_with_hysteresis
  apply_pin_with_hysteresis-Returns pinned s = elim (Bool-cases (contains pinned order)) [
    | inl y ↦ elim (Bool-cases (leb (length order) 1)) [
      | inl short ↦ rw (y, short) (_, refl)
      | inr long ↦
          rw (y, long)
            (against_alternative-Returns pinned (find (λ i. not (i == pinned)) order) s
              (λ i e. find-In (λ i. not (i == pinned)) order e))
    ]
    | inr n ↦ rw n (_, refl)
  ]

  apply_pin-Returns :
      (unhealthy : List Text) (pin : Option ℕ)
      → ((i : ℕ) → pin ≡ some i → i < length es)
      → Returns (apply_pin beats es unhealthy order pin)
  unfolding apply_pin pin_healthy
  apply_pin-Returns unhealthy none h = (order, refl)
  apply_pin-Returns unhealthy (some pinned) h =
      let (e, found) = get_elem?-Stands es pinned (h pinned refl) in
      rw found (elim (Bool-cases (contains e.exit_id unhealthy)) [
        | inl y ↦ rw y (order, refl)
        | inr n ↦ rw n (apply_pin_with_hysteresis-Returns pinned (e, found))
      ])

validated-Returns : (n : ℕ) (o : Option (List ℕ)) → Returns o → Returns (validated n o)
unfolding validated
validated-Returns n o (order, e) = rw e (_, refl)

-- If each flow is pinned to an egress that is there, a frame gets a dispatch order, whatever the
-- scheduler decides and however it scores: no index is out of range on the way.
pub dispatch_order_total :
    (es : List Egress) (unhealthy : List Text) (pins : List (Text × ℕ))
    (scheduler : List Text → ScheduleDecision) (beats : Text → Text → Bool) (f : Frame)
    → ((flow : Text) (i : ℕ) → lookup flow pins ≡ some i → i < length es)
    → (order : List ℕ) × (dispatch_order es unhealthy pins scheduler beats f ≡ some order)
unfolding dispatch_order
dispatch_order_total es unhealthy pins scheduler beats f h =
    let found = healthy_candidates unhealthy (from_egresses es) f in
    let picked = indices (schedule_frame scheduler f found.0) in
    let first = map_candidate_order picked found.1 in
    validated-Returns (length es) (apply_pin beats es unhealthy first (lookup f.flow_id pins)) (
      apply_pin-Returns beats es first
        (λ i j.
          let (e, (there, _, _), _) =
            healthy_candidates-IsTarget es unhealthy f (In-map_candidate_order picked found.1 j) in
          (e, there))
        unhealthy (lookup f.flow_id pins) (h f.flow_id))
