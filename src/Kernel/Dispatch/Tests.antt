-- ===== src/Kernel/Dispatch/Tests.antt =====
-- Two exits and a pinned flow.
use meshbus_rs.Prelude.{
  Text, text, true, false, List, [], ◌∷◌, none, some, ◌≡◌, refl, head, text_eq,
}
use meshbus_rs.Kernel.Dispatch.{
  Egress, Frame, FlowSemantics, ScheduleHint, ScheduleDecision, dispatch_order,
}
use meshbus_rs.Kernel.Dispatch.{
  indices, capability_matches_flow, bucket_from, from_egresses, semantics_index, bucket,
  matches_sink, matches_group, matches, split_candidates, choose_candidates, healthy_candidates,
  range_from, schedule_frame, map_candidate_order, remove_first, compare_scores,
  against_alternative, apply_pin_with_hysteresis, pin_healthy, apply_pin, valid_order_from,
  valid_order, validated,
}
use meshbus_rs.Prelude.{ℕ, lookup, length, ◌<◌, arith, text_eq_inst}
use meshbus_rs.Kernel.Dispatch.Total.{dispatch_order_total}
use meshbus_rs.Kernel.Dispatch.Targets.{IsTarget, dispatch_order-IsTarget, dispatch_order-AllNew}
use meshbus_rs.Kernel.Dispatch.Order.{AllNew}

abbrev stream_exit : Text → Egress
stream_exit name = record {
  exit_id = name;
  capabilities = record {
    protocol = text "tcp";
    supports_stream = true;
    supports_datagram = false;
    max_payload_bytes = none;
    groups = text "eu" ∷ [];
  };
}

abbrev exits : List Egress
exits = stream_exit (text "a") ∷ stream_exit (text "b") ∷ stream_exit (text "c") ∷ []

abbrev to_eu : Frame
to_eu = record {
  flow_id = text "f";
  flow_semantics = FlowSemantics.byte_stream;
  schedule_hint = ScheduleHint.auto;
  route_group = some (text "eu");
  target_sink = none;
}

-- `b` is unhealthy, the scheduler names a candidate twice and one that is not there, and the flow is
-- pinned to the last exit.
pinned_first :
    dispatch_order exits
      (text "b" ∷ [])
      ((text "f", 2) ∷ [])
      (λ cs. ScheduleDecision.ordered (0 ∷ 7 ∷ 1 ∷ 0 ∷ []))
      (λ a b. true)
      to_eu
    ≡ some (2 ∷ 0 ∷ [])
unfolding dispatch_order indices capability_matches_flow bucket_from from_egresses semantics_index
    bucket matches_sink matches_group matches split_candidates choose_candidates healthy_candidates
    range_from schedule_frame map_candidate_order remove_first compare_scores against_alternative
    apply_pin_with_hysteresis pin_healthy apply_pin valid_order_from valid_order validated text_eq
pinned_first = refl

dispatch_order-IsTarget_example : IsTarget exits (text "b" ∷ []) to_eu 2
dispatch_order-IsTarget_example =
    dispatch_order-IsTarget exits (text "b" ∷ []) ((text "f", 2) ∷ [])
      (λ cs. ScheduleDecision.ordered (0 ∷ 7 ∷ 1 ∷ 0 ∷ [])) (λ a b. true) to_eu 2 pinned_first
      (head refl)

dispatch_order-AllNew_example : AllNew [] (2 ∷ 0 ∷ [])
dispatch_order-AllNew_example =
    dispatch_order-AllNew exits (text "b" ∷ []) ((text "f", 2) ∷ [])
      (λ cs. ScheduleDecision.ordered (0 ∷ 7 ∷ 1 ∷ 0 ∷ [])) (λ a b. true) to_eu pinned_first

pins_in_range : (flow : Text) (i : ℕ) → lookup flow ((text "f", 2) ∷ []) ≡ some i → i < length exits
pins_in_range flow i h = ground (arith, h)

dispatch_order_total_example :
    (order : List ℕ) × (dispatch_order exits
        (text "b" ∷ [])
        ((text "f", 2) ∷ [])
        (λ cs. ScheduleDecision.ordered (0 ∷ 7 ∷ 1 ∷ 0 ∷ []))
        (λ a b. true)
        to_eu
      ≡ some order)
dispatch_order_total_example =
    dispatch_order_total exits (text "b" ∷ []) ((text "f", 2) ∷ [])
      (λ cs. ScheduleDecision.ordered (0 ∷ 7 ∷ 1 ∷ 0 ∷ [])) (λ a b. true) to_eu pins_in_range
