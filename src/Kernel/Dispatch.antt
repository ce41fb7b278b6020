-- ===== src/Kernel/Dispatch.antt =====
-- Where a frame may go: the candidates of crates/mesh-bus-core/src/kernel/compiled.rs, and the order
-- in which kernel/dispatch.rs and kernel/dispatch_forwarder.rs try the egresses. An index out of
-- range, where the code panics, is `none`. The plugins are parameters: an egress is what its trait's
-- `id` and `capabilities` return, a scheduler is its decision for the candidates, and `beats` is the
-- comparison of its two scores in `f64`, by the exits' names.
use meshbus_rs.Prelude.{
  ℕ, zero, suc, ◌+◌, min, ltb, leb, ◌==◌, nat_eq, Eq, Text, text_eq, text_eq_inst,
}
use meshbus_rs.Prelude.{Bool, true, false, not, ◌&&◌, ◌||◌, List, [], ◌∷◌, map, Option, none, some}
use meshbus_rs.Prelude.{
  length, get_elem?, get_or, filter, find, any, contains, lookup, is_some, is_empty, if◌then◌else◌,
}
pub mod Order
pub mod Targets
pub mod Total
mod Tests

pub data FlowSemantics : Type 0 where
  byte_stream datagram message : FlowSemantics

pub data ScheduleHint : Type 0 where
  auto single_path : ScheduleHint
  fan_out stripe : ℕ → ScheduleHint

pub data ScheduleDecision : Type 0 where
  ordered replicated : List ℕ → ScheduleDecision

pub indices : ScheduleDecision → List ℕ
indices (ordered order) = order
indices (replicated order) = order

pub record Capabilities : Type 0 where
  pub protocol : Text
  pub supports_stream : Bool
  pub supports_datagram : Bool
  pub max_payload_bytes : Option ℕ
  pub groups : List Text

pub capability_matches_flow : Capabilities → FlowSemantics → Bool
capability_matches_flow cap byte_stream = cap.supports_stream
capability_matches_flow cap datagram = cap.supports_datagram
capability_matches_flow cap message = cap.supports_stream || cap.supports_datagram

pub record Egress : Type 0 where
  pub exit_id : Text
  pub capabilities : Capabilities

pub record CompiledCandidate : Type 0 where
  pub egress_idx : ℕ
  pub candidate_id : Text
  pub candidate_groups : List Text

pub bucket_from : FlowSemantics → ℕ → List Egress → List CompiledCandidate
bucket_from want idx [] = []
bucket_from want idx (e ∷ es) =
    if capability_matches_flow e.capabilities want
    then record {
      egress_idx = idx;
      candidate_id = e.exit_id;
      candidate_groups = e.capabilities.groups;
    }
      ∷ bucket_from want (suc idx) es
    else bucket_from want (suc idx) es

-- `by_semantics`, an array of three buckets.
pub from_egresses : List Egress → List (List CompiledCandidate)
from_egresses es =
    bucket_from byte_stream 0 es ∷ bucket_from datagram 0 es ∷ bucket_from message 0 es ∷ []

pub semantics_index : FlowSemantics → ℕ
semantics_index byte_stream = 0
semantics_index datagram = 1
semantics_index message = 2

pub bucket : List (List CompiledCandidate) → FlowSemantics → List CompiledCandidate
unfolding semantics_index
bucket by_semantics semantics = get_or by_semantics (semantics_index semantics) []

-- The fields of a frame that routing reads.
pub record Frame : Type 0 where
  pub flow_id : Text
  pub flow_semantics : FlowSemantics
  pub schedule_hint : ScheduleHint
  pub route_group : Option Text
  pub target_sink : Option Text

pub matches_sink : Option Text → CompiledCandidate → Bool
matches_sink none c = true
matches_sink (some sink) c = text_eq c.candidate_id sink

pub matches_group : Option Text → CompiledCandidate → Bool
matches_group none c = true
matches_group (some group) c = any (λ g. text_eq g group) c.candidate_groups

pub matches : Frame → CompiledCandidate → Bool
unfolding matches_sink matches_group
matches f c = matches_sink f.target_sink c && matches_group f.route_group c

pub split_candidates : List CompiledCandidate → List Text × List ℕ
split_candidates cs = (map (λ c. c.candidate_id) cs, map (λ c. c.egress_idx) cs)

pub choose_candidates : Frame → List CompiledCandidate → List CompiledCandidate → List Text × List ℕ
unfolding split_candidates matches
choose_candidates f compiled [] =
    if is_some f.route_group || is_some f.target_sink
    then ([], [])
    else split_candidates (filter (matches f) compiled)
choose_candidates f compiled (c ∷ cs) = split_candidates (c ∷ cs)

pub healthy_candidates : List Text → List (List CompiledCandidate) → Frame → List Text × List ℕ
unfolding bucket matches choose_candidates
healthy_candidates unhealthy by_semantics f =
    let compiled = bucket by_semantics f.flow_semantics in
    choose_candidates f compiled
      (filter (λ c. matches f c && not (contains c.candidate_id unhealthy)) compiled)

pub range_from : ℕ → ℕ → List ℕ
range_from start zero = []
range_from start (suc n) = start ∷ range_from (suc start) n

pub schedule_frame : (List Text → ScheduleDecision) → Frame → List Text → ScheduleDecision
unfolding range_from
schedule_frame scheduler f candidates = elim f.flow_semantics [
  | datagram ↦ elim f.schedule_hint [
    | fan_out k ↦ replicated (range_from 0 (min k (length candidates)))
    | _ ↦ scheduler candidates
  ]
  | _ ↦ scheduler candidates
]

pub map_candidate_order : List ℕ → List ℕ → List ℕ
map_candidate_order [] candidate_map = []
map_candidate_order (idx ∷ order) candidate_map = elim (get_elem? candidate_map idx) [
  | none ↦ map_candidate_order order candidate_map
  | some i ↦ i ∷ map_candidate_order order candidate_map
]

pub remove_first : ℕ → List ℕ → List ℕ
remove_first i [] = []
remove_first i (j ∷ order) = if j == i then order else j ∷ remove_first i order

pub compare_scores :
    (Text → Text → Bool) → ℕ → List ℕ → Option Egress → Option Egress → Option (List ℕ)
unfolding remove_first
compare_scores beats pinned order (some p) (some a) =
    some (if beats p.exit_id a.exit_id then pinned ∷ remove_first pinned order else order)
compare_scores beats pinned order (some p) none = none
compare_scores beats pinned order none alt = none

pub against_alternative :
    (Text → Text → Bool) → List Egress → ℕ → List ℕ → Option ℕ → Option (List ℕ)
unfolding compare_scores
against_alternative beats es pinned order none = some order
against_alternative beats es pinned order (some alt) =
    compare_scores beats pinned order (get_elem? es pinned) (get_elem? es alt)

pub apply_pin_with_hysteresis : (Text → Text → Bool) → List Egress → ℕ → List ℕ → Option (List ℕ)
unfolding remove_first against_alternative
apply_pin_with_hysteresis beats es pinned order =
    if not (contains pinned order)
    then some order
    else if leb (length order) 1
    then some (pinned ∷ remove_first pinned order)
    else against_alternative beats es pinned order (find (λ i. not (i == pinned)) order)

pub pin_healthy :
    (Text → Text → Bool) → List Egress → List Text → ℕ → List ℕ → Option Egress → Option (List ℕ)
unfolding apply_pin_with_hysteresis
pin_healthy beats es unhealthy pinned order none = none
pin_healthy beats es unhealthy pinned order (some e) =
    if contains e.exit_id unhealthy
    then some order
    else apply_pin_with_hysteresis beats es pinned order

pub apply_pin : (Text → Text → Bool) → List Egress → List Text → List ℕ → Option ℕ → Option (List ℕ)
unfolding pin_healthy
apply_pin beats es unhealthy order none = some order
apply_pin beats es unhealthy order (some pinned) =
    pin_healthy beats es unhealthy pinned order (get_elem? es pinned)

pub valid_order_from : List ℕ → List ℕ → ℕ → List ℕ
valid_order_from seen [] egress_count = []
valid_order_from seen (idx ∷ order) egress_count =
    if ltb idx egress_count && not (contains idx seen)
    then idx ∷ valid_order_from (idx ∷ seen) order egress_count
    else valid_order_from seen order egress_count

pub valid_order : List ℕ → ℕ → List ℕ
unfolding valid_order_from
valid_order order egress_count = valid_order_from [] order egress_count

pub validated : ℕ → Option (List ℕ) → Option (List ℕ)
unfolding valid_order
validated egress_count none = none
validated egress_count (some order) = some (valid_order order egress_count)

-- The egresses that `dispatch` tries for a frame, or all at once, in their order: the candidates, the
-- decision on them, the flow's pin, and the last filter, which both ways of sending apply.
pub dispatch_order :
    List Egress
    → List Text
    → List (Text × ℕ)
    → (List Text → ScheduleDecision)
    → (Text → Text → Bool)
    → Frame
    → Option (List ℕ)
unfolding healthy_candidates schedule_frame map_candidate_order apply_pin validated indices
    from_egresses
dispatch_order es unhealthy pins scheduler beats f =
    let found = healthy_candidates unhealthy (from_egresses es) f in
    let order = map_candidate_order (indices (schedule_frame scheduler f found.0)) found.1 in
    validated (length es) (apply_pin beats es unhealthy order (lookup f.flow_id pins))
