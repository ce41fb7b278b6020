-- ===== src/Health.antt =====
-- `ExitHealthTable` of lib/mb-health/src/lib.rs: which exits may be tried, from the outcomes recorded.
use meshbus_rs.Prelude.{
  ℕ, zero, suc, ◌+◌, ◌-◌, ◌≤◌, ◌<◌, min, ltb, leb, nat_eq, Eq, Text, text_eq, text_eq_inst,
}
use meshbus_rs.Prelude.{
  Bool, true, false, List, [], ◌∷◌, Option, none, some, lookup, insert, if◌then◌else◌,
}
pub mod Outcomes
pub mod Refusal
mod Tests

pub record HealthPolicy : Type 0 where
  pub failure_threshold : ℕ
  pub recovery_window_ms : ℕ
  pub probe_after_ms : ℕ

abbrev pub default_policy : HealthPolicy
default_policy = record { failure_threshold = 2; recovery_window_ms = 60000; probe_after_ms = 1000 }

pub record ExitHealth : Type 0 where
  pub failures : ℕ
  pub last_failure_ms : ℕ
  pub last_success_ms : ℕ

pub record ExitHealthTable : Type 0 where
  pub policy : HealthPolicy
  pub exits : List (Text × ExitHealth)

pub new_table : HealthPolicy → ExitHealthTable
new_table policy = record { policy = policy; exits = [] }

pub exit_can_dispatch : HealthPolicy → ℕ → Option ExitHealth → Bool
exit_can_dispatch policy now_ms none = true
exit_can_dispatch policy now_ms (some health) =
    if ltb health.failures policy.failure_threshold
    then true
    else leb policy.probe_after_ms (now_ms - health.last_failure_ms)

pub can_dispatch : ExitHealthTable → Text → ℕ → Bool
unfolding exit_can_dispatch
can_dispatch t exit_id now_ms = exit_can_dispatch t.policy now_ms (lookup exit_id t.exits)

-- `entry(..).or_insert(..)`.
unfoldable pub or_new : Option ExitHealth → ExitHealth
or_new none = record { failures = 0; last_failure_ms = 0; last_success_ms = 0 }
or_new (some health) = health

-- One outcome of an exit; `failures` is a `u8`.
pub record_exit : HealthPolicy → ExitHealth → Bool → ℕ → ExitHealth
record_exit policy health success now_ms =
    if success then record health { failures = 0; last_success_ms = now_ms } else record health {
      failures =
          min
            ((if ltb policy.recovery_window_ms (now_ms - health.last_failure_ms)
                then 0
                else health.failures)
              + 1)
            255;
      last_failure_ms = now_ms;
    }

pub record_outcome : ExitHealthTable → Text → Bool → ℕ → ExitHealthTable
unfolding or_new record_exit
record_outcome t exit_id success now_ms = record t {
  exits =
      insert exit_id (record_exit t.policy (or_new (lookup exit_id t.exits)) success now_ms)
        t.exits;
}
