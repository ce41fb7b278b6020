-- ===== src/Kernel/SourceActivity/Tests.antt =====
-- A source that opens two flows and closes them.
use meshbus_rs.Prelude.{◌==◌, text, text_eq, List, [], ◌∷◌, some, is_some, ◌≡◌, refl}
use meshbus_rs.Kernel.SourceActivity.{
  SourceActivityState, snapshot, mark_open, mark_closed, opened, closed_at, or_default,
}
use meshbus_rs.Kernel.SourceActivity.Idle.{Mark, run_marks, snapshot_idle}

abbrev two_flows : List Mark
two_flows =
    Mark.open_mark (some (text "s"))
    ∷ Mark.open_mark (some (text "s"))
    ∷ Mark.close_mark 10 (some (text "s"))
    ∷ Mark.close_mark 20 (some (text "s"))
    ∷ []

abbrev idle_state : SourceActivityState
idle_state = record { active_flows = 0; idle_since_ms = some 20 }

idle_at_end : snapshot (run_marks [] two_flows) (some (text "s")) ≡ some idle_state
unfolding snapshot run_marks mark_open mark_closed opened closed_at or_default text_eq
idle_at_end = refl

snapshot_idle_example : is_some idle_state.idle_since_ms ≡ (idle_state.active_flows == 0)
snapshot_idle_example = snapshot_idle two_flows (some (text "s")) idle_state idle_at_end
