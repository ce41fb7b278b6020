-- ===== src/Health/Tests.antt =====
-- An exit that fails twice.
use meshbus_rs.Prelude.{
  ℕ, ◌+◌, ◌<◌, text, text_eq, true, false, List, [], ◌∷◌, ◌≡◌, ◌↔◌, refl, In, arith,
}
use meshbus_rs.Health.{
  default_policy, new_table, can_dispatch, exit_can_dispatch, record_outcome, record_exit, or_new,
}
use meshbus_rs.Health.Outcomes.{Outcome, record_all, refused_after_failure}
use meshbus_rs.Health.Refusal.{IsFailing, IsRecent, log_of, refused_iff}

abbrev two_failures : List Outcome
two_failures = (text "a", false, 5000) ∷ (text "b", true, 5100) ∷ (text "a", false, 5200) ∷ []

refused_twice :
    can_dispatch (record_all (new_table default_policy) two_failures) (text "a") 6000 ≡ false
unfolding can_dispatch record_all new_table exit_can_dispatch record_outcome record_exit or_new
    text_eq
refused_twice = refl

refused_after_failure_example :
    (at_ms : ℕ) × In (text "a", false, at_ms) two_failures × (6000 < at_ms + 1000)
refused_after_failure_example =
    refused_after_failure default_policy two_failures (text "a") 6000 (omega arith) refused_twice

refused_iff_example :
    (can_dispatch (record_all (new_table default_policy) two_failures) (text "a") 6000 ≡ false) ↔ (
      IsFailing 60000 2 (log_of (text "a") [] two_failures)
      × IsRecent 1000 6000 (log_of (text "a") [] two_failures))
refused_iff_example =
    refused_iff default_policy two_failures (text "a") 6000 (omega arith) (omega arith)
