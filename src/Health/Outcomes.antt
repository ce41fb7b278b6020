-- ===== src/Health/Outcomes.antt =====
-- What the outcomes recorded in the table of lib/mb-health/src/lib.rs say of an exit.
use meshbus_rs.Prelude.{ℕ, ◌+◌, ◌<◌, nat_eq, Text, text_eq, text_eq_inst}
use meshbus_rs.Prelude.{Bool, true, false, List, [], ◌∷◌, Option, none, some, lookup, if◌then◌else◌}
use meshbus_rs.Prelude.{
  ◌≡◌, refl, sym, ap, ◌∙◌, subst, arith, lookup-insert, beq-cases, inl, inr, In, head, later, ◌⊎◌,
  Option-cases,
}
use meshbus_rs.Health.{
  HealthPolicy, ExitHealth, ExitHealthTable, new_table, can_dispatch, exit_can_dispatch, or_new,
  record_exit, record_outcome,
}

-- The exit, whether it succeeded, and the time.
abbrev pub Outcome : Type 0
Outcome = Text × Bool × ℕ

unfoldable pub record_all : ExitHealthTable → List Outcome → ExitHealthTable
record_all t [] = t
record_all t ((exit_id, success, now_ms) ∷ outcomes) =
    record_all (record_outcome t exit_id success now_ms) outcomes

-- One exit's record, from its own outcomes alone.
unfoldable pub exit_history :
    HealthPolicy → Text → Option ExitHealth → List Outcome → Option ExitHealth
exit_history policy exit_id health [] = health
exit_history policy exit_id health ((other, success, now_ms) ∷ outcomes) =
    if text_eq other exit_id
    then exit_history policy exit_id (some (record_exit policy (or_new health) success now_ms))
        outcomes
    else exit_history policy exit_id health outcomes

lookup-record_all :
    (outcomes : List Outcome) (t : ExitHealthTable) (exit_id : Text)
    → lookup exit_id (record_all t outcomes).exits
      ≡ exit_history t.policy exit_id (lookup exit_id t.exits) outcomes
unfolding record_all exit_history record_outcome
lookup-record_all [] t exit_id = refl
lookup-record_all ((other, success, now_ms) ∷ outcomes) t exit_id =
    lookup-record_all outcomes (record_outcome t other success now_ms) exit_id
    ∙ elim (beq-cases other exit_id) [
      | inl p ↦
          rw
            (
              p.0,
              lookup-insert other exit_id
                  (record_exit t.policy (or_new (lookup other t.exits)) success now_ms) t.exits,
              p.0,
              p.1,
            )
            refl
      | inr n ↦
          rw
            (
              n.0,
              lookup-insert other exit_id
                  (record_exit t.policy (or_new (lookup other t.exits)) success now_ms) t.exits,
              n.0,
            )
            refl
    ]

policy-record_all :
    (outcomes : List Outcome) (t : ExitHealthTable) → (record_all t outcomes).policy ≡ t.policy
unfolding record_all record_outcome
policy-record_all [] t = refl
policy-record_all ((other, success, now_ms) ∷ outcomes) t =
    policy-record_all outcomes (record_outcome t other success now_ms)

-- From a new table, whether an exit may be tried is told from its own outcomes alone.
pub can_dispatch-record_all :
    (policy : HealthPolicy) (outcomes : List Outcome) (exit_id : Text) (now_ms : ℕ)
    → can_dispatch (record_all (new_table policy) outcomes) exit_id now_ms
      ≡ exit_can_dispatch policy now_ms (exit_history policy exit_id none outcomes)
unfolding can_dispatch new_table
can_dispatch-record_all policy outcomes exit_id now_ms =
    rw
      (
        policy-record_all outcomes (new_table policy),
        lookup-record_all outcomes (new_table policy) exit_id,
      )
      refl

-- Where the last failure of a record that counts failures comes from.
abbrev FromFailure : Text → Option ExitHealth → List Outcome → ExitHealth → Type 0
FromFailure exit_id start outcomes e =
    ((e' : ExitHealth) × (start ≡ some e')
      × (0 < e'.failures)
      × (e'.last_failure_ms ≡ e.last_failure_ms))
    ⊎ In (exit_id, false, e.last_failure_ms) outcomes

record_exit-failures :
    (policy : HealthPolicy) (h : ExitHealth) (s : Bool) (n : ℕ)
    → 0 < (record_exit policy h s n).failures
    → (s ≡ false) × ((record_exit policy h s n).last_failure_ms ≡ n)
unfolding record_exit
record_exit-failures policy h true n k = absurd (omega (arith, k))
record_exit-failures policy h false n k = (refl, refl)

outcome_eq :
    (policy : HealthPolicy) (start : Option ExitHealth) (exit_id other : Text) (s : Bool) (n : ℕ)
    (e e' : ExitHealth)
    → other ≡ exit_id
    → some (record_exit policy (or_new start) s n) ≡ some e'
    → 0 < e'.failures
    → e'.last_failure_ms ≡ e.last_failure_ms
    → ◌≡◌ {A = Outcome} (exit_id, false, e.last_failure_ms) (other, s, n)
outcome_eq policy start exit_id other s n e e' p q pos same =
    let q' : e' ≡ record_exit policy (or_new start) s n = cc q in
    let (f, l) =
      record_exit-failures policy (or_new start) s n (subst (λ t. 0 < t.failures) q' pos) in
    cc (p, f, l, same, ap (λ t. t.last_failure_ms) q')

refused-recent :
    (policy : HealthPolicy) (now_ms : ℕ) (e : ExitHealth)
    → 0 < policy.failure_threshold
    → exit_can_dispatch policy now_ms (some e) ≡ false
    → (0 < e.failures) × (now_ms < e.last_failure_ms + policy.probe_after_ms)
unfolding exit_can_dispatch
refused-recent policy now_ms e pos h = (ground (arith, pos, h), ground (arith, pos, h))

exit_history-FromFailure :
    (policy : HealthPolicy) (exit_id : Text) (start : Option ExitHealth) (outcomes : List Outcome)
    (e : ExitHealth)
    → exit_history policy exit_id start outcomes ≡ some e
    → 0 < e.failures
    → FromFailure exit_id start outcomes e
unfolding exit_history
exit_history-FromFailure policy exit_id start [] e h k = inl (e, h, k, refl)
exit_history-FromFailure policy exit_id start ((other, s, n) ∷ outcomes) e h k =
    elim (beq-cases other exit_id) [
      | inl p ↦
          elim (exit_history-FromFailure policy exit_id
            (some (record_exit policy (or_new start) s n)) outcomes e (rw p.0 at h) k) [
              | inl (e', q, pos, same) ↦
                  inr (head (outcome_eq policy start exit_id other s n e e' p.1 q pos same))
              | inr i ↦ inr (later i)
            ]
      | inr q ↦ elim (exit_history-FromFailure policy exit_id start outcomes e (rw q.0 at h) k) [
        | inl found ↦ inl found
        | inr i ↦ inr (later i)
      ]
    ]

-- From a new table with a failure threshold above 0, an exit that is refused has a failure on record
-- less than `probe_after_ms` ago.
pub refused_after_failure :
    (policy : HealthPolicy) (outcomes : List Outcome) (exit_id : Text) (now_ms : ℕ)
    → 0 < policy.failure_threshold
    → can_dispatch (record_all (new_table policy) outcomes) exit_id now_ms ≡ false
    → (at_ms : ℕ) × In (exit_id, false, at_ms) outcomes × (now_ms < at_ms + policy.probe_after_ms)
unfolding exit_can_dispatch
refused_after_failure policy outcomes exit_id now_ms pos h =
    let refused = sym (can_dispatch-record_all policy outcomes exit_id now_ms) ∙ h in
    elim (Option-cases (exit_history policy exit_id none outcomes)) [
      | inl none_yet ↦ absurd (cc (rw (none_yet, exit_can_dispatch) at refused))
      | inr (e, found) ↦
          let (failed, recent) = refused-recent policy now_ms e pos (rw found at refused) in
          elim (exit_history-FromFailure policy exit_id none outcomes e found failed) [
            | inl (e', q, _, _) ↦ absurd (cc q)
            | inr i ↦ (e.last_failure_ms, i, recent)
          ]
    ]
