-- ===== src/Kernel/SourceActivity.antt =====
-- crates/mesh-bus-core/src/kernel/source_activity.rs: how many flows each source has open, and since
-- when a source is idle. The table is a map; the clock's reading is an argument.
use meshbus_rs.Prelude.{ℕ, ◌+◌, ◌-◌, min, ◌==◌, Text, text_eq_inst, Eq, Option, none, some, List}
use meshbus_rs.Prelude.{lookup, insert, if◌then◌else◌, true, false}
pub mod Idle
mod Tests

pub record SourceActivityState : Type 0 where
  pub active_flows : ℕ
  pub idle_since_ms : Option ℕ

abbrev pub Activity : Type 0
Activity = List (Text × SourceActivityState)

-- `entry(..).or_default()`
unfoldable pub or_default : Option SourceActivityState → SourceActivityState
or_default none = record { active_flows = 0; idle_since_ms = none }
or_default (some s) = s

-- The counter is a `u32`.
unfoldable pub opened : SourceActivityState → SourceActivityState
opened s = record { active_flows = min (s.active_flows + 1) 4294967295; idle_since_ms = none }

unfoldable pub closed_at : ℕ → SourceActivityState → SourceActivityState
closed_at now_ms s =
    if s.active_flows - 1 == 0
    then record { active_flows = s.active_flows - 1; idle_since_ms = some now_ms }
    else record s { active_flows = s.active_flows - 1 }

unfoldable pub mark_open : Activity → Option Text → Activity
unfolding opened or_default
mark_open a none = a
mark_open a (some key) = insert key (opened (or_default (lookup key a))) a

unfoldable pub mark_closed : Activity → ℕ → Option Text → Activity
unfolding closed_at or_default
mark_closed a now_ms none = a
mark_closed a now_ms (some key) = insert key (closed_at now_ms (or_default (lookup key a))) a

unfoldable pub snapshot : Activity → Option Text → Option SourceActivityState
snapshot a none = none
snapshot a (some key) = lookup key a
