-- ===== src/Kernel/Dispatch/Targets.antt =====
-- Whatever the plugins decide, a frame goes only where its flow may: the proofs for the dispatch
-- order of crates/mesh-bus-core/src/kernel/dispatch.rs.
use meshbus_rs.Prelude.{ℕ, suc, ◌+◌, nat_eq, Text, text_eq_inst}
use meshbus_rs.Prelude.{Bool, true, false, not, ◌&&◌, ◌||◌, List, [], ◌∷◌, map, Option, none, some}
use meshbus_rs.Prelude.{length, get_elem?, filter, contains, lookup, is_some}
use meshbus_rs.Prelude.{
  In, head, later, Bool-cases, ◌≡◌, refl, sym, ap, inl, inr, arith, subst, ◌∙◌,
}
use meshbus_rs.Kernel.Dispatch.{
  FlowSemantics, byte_stream, datagram, message, ScheduleDecision, capability_matches_flow,
}
use meshbus_rs.Kernel.Dispatch.{
  Egress, CompiledCandidate, bucket_from, from_egresses, bucket, semantics_index, Frame, matches,
  split_candidates, choose_candidates,
}
use meshbus_rs.Kernel.Dispatch.{healthy_candidates, schedule_frame, map_candidate_order, indices}
use meshbus_rs.Kernel.Dispatch.{apply_pin, valid_order_from, valid_order, validated, dispatch_order}
use meshbus_rs.Kernel.Dispatch.Order.{
  In-cons, In-map_candidate_order, Keeps, apply_pin-Keeps, In-valid_order_from, AllNew,
  valid_order_from-AllNew,
}

-- The candidate that stands for an egress.
pub candidate_of : ℕ → Egress → CompiledCandidate
candidate_of i e = record {
  egress_idx = i;
  candidate_id = e.exit_id;
  candidate_groups = e.capabilities.groups;
}

-- An egress that the frame may go to: it is there, its capabilities carry the flow, and it is of the
-- group and of the name that the frame asks for.
abbrev pub MayCarry : List Egress → Frame → ℕ → Egress → Type 0
MayCarry es f i e =
    (get_elem? es i ≡ some e)
    × (capability_matches_flow e.capabilities f.flow_semantics ≡ true)
    × (matches f (candidate_of i e) ≡ true)

abbrev Standing : FlowSemantics → ℕ → List Egress → CompiledCandidate → Type 0
Standing want start es c =
    (i : ℕ) × (e : Egress) × (get_elem? es i ≡ some e)
    × (capability_matches_flow e.capabilities want ≡ true)
    × (c ≡ candidate_of (start + i) e)

In-filter :
    (p : CompiledCandidate → Bool) (cs : List CompiledCandidate) {c : CompiledCandidate}
    → In c (filter p cs)
    → In c cs × (p c ≡ true)
In-filter p [] i = elim i [ ]
In-filter p (d ∷ cs) {c} i = elim (Bool-cases (p d)) [
  | inl y ↦ elim (In-cons (rw y at i)) [
    | inl e ↦ (head e, rw e y)
    | inr j ↦ let (k, h) = In-filter p cs j in (later k, h)
  ]
  | inr n ↦ let (j, h) = In-filter p cs (rw n at i) in (later j, h)
]

later_egress :
    (want : FlowSemantics) (start : ℕ) (e : Egress) (es : List Egress) {c : CompiledCandidate}
    → Standing want (suc start) es c
    → Standing want start (e ∷ es) c
later_egress want start e es {c} (i, e', found, able, q) =
    (suc i, e', found, able, q ∙ ap (λ n. candidate_of n e') (omega arith))

In-bucket_from :
    (want : FlowSemantics) (start : ℕ) (es : List Egress) {c : CompiledCandidate}
    → In c (bucket_from want start es)
    → Standing want start es c
unfolding bucket_from candidate_of
In-bucket_from want start [] i = elim i [ ]
In-bucket_from want start (e ∷ es) {c} i =
    elim (Bool-cases (capability_matches_flow e.capabilities want)) [
      | inl y ↦ elim (In-cons (rw y at i)) [
        | inl q ↦ (0, e, refl, y, (q ∙ ap (λ n. candidate_of n e) (omega arith)))
        | inr j ↦ later_egress want start e es (In-bucket_from want (suc start) es j)
      ]
      | inr n ↦ later_egress want start e es (In-bucket_from want (suc start) es (rw n at i))
    ]

In-map_idx :
    (cs : List CompiledCandidate) {i : ℕ}
    → In i (map (λ c. c.egress_idx) cs)
    → (c : CompiledCandidate) × (In c cs) × (c.egress_idx ≡ i)
In-map_idx [] i = elim i [ ]
In-map_idx (c ∷ cs) (head e) = (c, head refl, sym e)
In-map_idx (c ∷ cs) (later i) = let (d, j, e) = In-map_idx cs i in (d, later j, e)

bucket-from_egresses :
    (es : List Egress) (s : FlowSemantics) → bucket (from_egresses es) s ≡ bucket_from s 0 es
unfolding bucket from_egresses semantics_index
bucket-from_egresses es byte_stream = refl
bucket-from_egresses es datagram = refl
bucket-from_egresses es message = refl

-- Where a frame may go, told without the bus's tables: an egress that may carry it and that, if the
-- frame asks for a group or for an exit, is not known to be unhealthy.
abbrev pub IsTarget : List Egress → List Text → Frame → ℕ → Type 0
IsTarget es unhealthy f i =
    (e : Egress) × MayCarry es f i e
    × ((is_some f.route_group || is_some f.target_sink) && contains e.exit_id unhealthy ≡ false)

module _ (es : List Egress) (unhealthy : List Text) (f : Frame) where
  candidate-IsTarget :
      (c : CompiledCandidate)
      → In c (bucket_from f.flow_semantics 0 es)
      → matches f c ≡ true
      → (is_some f.route_group || is_some f.target_sink ≡ true
          → contains c.candidate_id unhealthy ≡ false)
      → IsTarget es unhealthy f c.egress_idx
  unfolding candidate_of
  candidate-IsTarget c i h healthy =
      let (k, e, found, able, q) = In-bucket_from f.flow_semantics 0 es i in
      let q' : c ≡ candidate_of k e = q ∙ ap (λ n. candidate_of n e) (omega arith) in
      (
        e,
        (
          ap (λ d. get_elem? es d.egress_idx) q' ∙ found,
          able,
          ap (λ d. matches f (candidate_of d.egress_idx e)) q' ∙ ap (λ d. matches f d) (sym q') ∙ h,
        ),
        elim (Bool-cases (is_some f.route_group || is_some f.target_sink)) [
          | inl asks ↦ rw asks (ap (λ d. contains d.candidate_id unhealthy) (sym q') ∙ healthy asks)
          | inr free ↦ rw free refl
        ],
      )

  choose-IsTarget :
      (cs : List CompiledCandidate)
      → ((c : CompiledCandidate)
          → In c cs
          → In c (bucket_from f.flow_semantics 0 es)
            × (matches f c ≡ true)
            × (contains c.candidate_id unhealthy ≡ false))
      → {i : ℕ} → In i (choose_candidates f (bucket_from f.flow_semantics 0 es) cs).1
      → IsTarget es unhealthy f i
  unfolding choose_candidates split_candidates
  choose-IsTarget [] h i = elim (Bool-cases (is_some f.route_group || is_some f.target_sink)) [
    | inl asks ↦ elim (rw asks at i) [ ]
    | inr free ↦
        let (c, j, e) =
          In-map_idx (filter (matches f) (bucket_from f.flow_semantics 0 es)) (rw free at i) in
        let (k, m) = In-filter (matches f) (bucket_from f.flow_semantics 0 es) j in
        subst (λ t. IsTarget es unhealthy f t) e
          (candidate-IsTarget c k m (λ asks. absurd (cc (asks, free))))
  ]
  choose-IsTarget (d ∷ cs) h i =
      let (c, j, e) = In-map_idx (d ∷ cs) i in
      let (k, m, w) = h c j in
      subst (λ t. IsTarget es unhealthy f t) e (candidate-IsTarget c k m (λ asks. w))

  pub healthy_candidates-IsTarget :
      {i : ℕ}
      → In i (healthy_candidates unhealthy (from_egresses es) f).1
      → IsTarget es unhealthy f i
  unfolding healthy_candidates
  healthy_candidates-IsTarget i =
      choose-IsTarget
        (filter (λ c. matches f c && not (contains c.candidate_id unhealthy))
          (bucket_from f.flow_semantics 0 es))
        (λ c j.
          let (k, m) =
            In-filter (λ c. matches f c && not (contains c.candidate_id unhealthy))
              (bucket_from f.flow_semantics 0 es) j in
          (k, ground (arith, m), ground (arith, m)))
        (rw bucket-from_egresses at i)

validated-Keeps :
    (first : List ℕ) (n : ℕ) (o : Option (List ℕ)) {order : List ℕ}
    → Keeps first o
    → validated n o ≡ some order
    → ((i : ℕ) → In i order → In i first) × AllNew [] order
unfolding validated valid_order
validated-Keeps first n none k h = absurd (cc h)
validated-Keeps first n (some o) {order} k h =
    let e : valid_order_from [] o n ≡ order = cc h in
    subst (λ t. ((i : ℕ) → In i t → In i first) × AllNew [] t) e
      (λ i j. k o i refl (In-valid_order_from [] o n j), valid_order_from-AllNew o [] n)

module _ (es : List Egress) (unhealthy : List Text) (pins : List (Text × ℕ))
    (scheduler : List Text → ScheduleDecision) (beats : Text → Text → Bool) (f : Frame)
    {order : List ℕ} where
  order_holds :
      dispatch_order es unhealthy pins scheduler beats f ≡ some order
      → ((i : ℕ) → In i order → IsTarget es unhealthy f i) × AllNew [] order
  unfolding dispatch_order
  order_holds h =
      let found = healthy_candidates unhealthy (from_egresses es) f in
      let picked = indices (schedule_frame scheduler f found.0) in
      let pin = lookup f.flow_id pins in
      let first = map_candidate_order picked found.1 in
      let (kept, fresh) =
        validated-Keeps first (length es) (apply_pin beats es unhealthy first pin)
          (apply_pin-Keeps beats es first unhealthy pin) h in
      (
        λ i j.
            healthy_candidates-IsTarget es unhealthy f
              (In-map_candidate_order picked found.1 (kept i j)),
        fresh,
      )

  -- Whatever the scheduler decides and however it scores, and whatever the pins, each egress in a
  -- frame's dispatch order carries the frame's kind of flow and is of the group and of the name that
  -- the frame asks for; if the frame asks for either, it is not known to be unhealthy.
  pub dispatch_order-IsTarget :
      (i : ℕ)
      → dispatch_order es unhealthy pins scheduler beats f ≡ some order
      → In i order
      → IsTarget es unhealthy f i
  dispatch_order-IsTarget i h j = (order_holds h).0 i j

  -- If a frame has a dispatch order, no egress stands in it twice.
  pub dispatch_order-AllNew :
      dispatch_order es unhealthy pins scheduler beats f ≡ some order → AllNew [] order
  dispatch_order-AllNew h = (order_holds h).1
