-- ===== src/Health/Refusal.antt =====
-- When the table of lib/mb-health/src/lib.rs refuses an exit, told from the log of its outcomes.
use meshbus_rs.Prelude.{
  ℕ, zero, suc, ◌+◌, ◌-◌, ◌≤◌, ◌<◌, min, ltb, leb, Text, text_eq, text_eq_inst, Bool, true, false,
  List, [], ◌∷◌, Option, none, some, if◌then◌else◌, ◌≡◌, ◌↔◌, refl, arith, beq-cases, inl, inr,
}
use meshbus_rs.Health.{
  HealthPolicy, ExitHealth, new_table, can_dispatch, exit_can_dispatch, or_new, record_exit,
}
use meshbus_rs.Health.Outcomes.{Outcome, record_all, exit_history, can_dispatch-record_all}

-- The outcomes of one exit, whether it succeeded and when, the newest first.
abbrev pub Log : Type 0
Log = List (Bool × ℕ)

-- The outcomes of an exit, put before the log of its earlier ones.
unfoldable pub log_of : Text → Log → List Outcome → Log
log_of exit_id log [] = log
log_of exit_id log ((other, success, at_ms) ∷ outcomes) =
    if text_eq other exit_id
    then log_of exit_id ((success, at_ms) ∷ log) outcomes
    else log_of exit_id log outcomes

-- The newest outcome is less than `span` old.
abbrev pub IsRecent : ℕ → ℕ → Log → Type 0
IsRecent span now_ms [] = ⊥
IsRecent span now_ms ((success, at_ms) ∷ log) = now_ms - at_ms < span

-- The newest `n` outcomes are failures, each at most `recovery_ms` after the one before it.
abbrev pub IsFailing : ℕ → ℕ → Log → Type 0
IsFailing recovery_ms zero log = Unit {0}
IsFailing recovery_ms (suc n) [] = ⊥
IsFailing recovery_ms (suc zero) ((success, at_ms) ∷ log) = success ≡ false
IsFailing recovery_ms (suc (suc n)) ((success, at_ms) ∷ []) = ⊥
IsFailing recovery_ms (suc (suc n)) ((success, at_ms) ∷ (earlier, before_ms) ∷ log) =
    (success ≡ false)
    × (at_ms - before_ms ≤ recovery_ms)
    × IsFailing recovery_ms (suc n) ((earlier, before_ms) ∷ log)

-- The length of the newest run of failures.
streak : ℕ → Log → ℕ
streak recovery_ms [] = 0
streak recovery_ms ((true, at_ms) ∷ log) = 0
streak recovery_ms ((false, at_ms) ∷ []) = 1
streak recovery_ms ((false, at_ms) ∷ (earlier, before_ms) ∷ log) =
    let rest = streak recovery_ms ((earlier, before_ms) ∷ log) in
    if ltb recovery_ms (at_ms - before_ms) then 1 else suc rest

-- One more failure, `gap` after the newest outcome of a run of `run` failures.
longer-run :
    (P : Type 0) (recovery_ms gap n run : ℕ)
    → P ↔ (suc n ≤ run)
    → ((gap ≤ recovery_ms) × P) ↔ (suc (suc n) ≤ (if ltb recovery_ms gap then 1 else suc run))
longer-run P w gap n run (to, from) =
    (λ (near, p). let k = to p in ground arith, λ k. (ground arith, from (ground arith)))

IsFailing-streak :
    (recovery_ms n : ℕ) (log : Log) → IsFailing recovery_ms n log ↔ (n ≤ streak recovery_ms log)
unfolding streak
IsFailing-streak w zero log = (λ _. omega arith, λ _. tt)
IsFailing-streak w (suc n) [] = (λ h. absurd h, λ h. absurd (omega arith))
IsFailing-streak w (suc zero) ((true, t) ∷ log) = (λ h. absurd (cc h), λ h. absurd (omega arith))
IsFailing-streak w (suc zero) ((false, t) ∷ []) = (λ h. omega arith, λ h. refl)
IsFailing-streak w (suc zero) ((false, t) ∷ (s, u) ∷ log) = (λ h. ground arith, λ h. refl)
IsFailing-streak w (suc (suc n)) ((true, t) ∷ []) = (λ h. absurd h, λ h. absurd (omega arith))
IsFailing-streak w (suc (suc n)) ((false, t) ∷ []) = (λ h. absurd h, λ h. absurd (omega arith))
IsFailing-streak w (suc (suc n)) ((true, t) ∷ (s, u) ∷ log) =
    (λ h. absurd (cc h.0), λ h. absurd (omega arith))
IsFailing-streak w (suc (suc n)) ((false, t) ∷ (s, u) ∷ log) =
    let (to, from) =
      longer-run _ w (t - u) n (streak w ((s, u) ∷ log))
        (IsFailing-streak w (suc n) ((s, u) ∷ log)) in
    (λ h. to (h.1, h.2), λ k. let (near, rest) = from k in (refl, near, rest))

-- The record that the table keeps of a log: the length of its newest run of failures, as a `u8` that
-- stops at 255, and the time of the newest outcome where that is a failure.
abbrev Tells : ℕ → Option ExitHealth → Log → Type 0
Tells recovery_ms health [] = health ≡ none
Tells recovery_ms health ((success, at_ms) ∷ log) =
    (e : ExitHealth) × (health ≡ some e)
    × (e.failures ≡ min (streak recovery_ms ((success, at_ms) ∷ log)) 255)
    × (success ≡ false → e.last_failure_ms ≡ at_ms)

next_count :
    (recovery_ms gap run failures : ℕ)
    → failures ≡ min run 255
    → min ((if ltb recovery_ms gap then 0 else failures) + 1) 255
      ≡ min (if ltb recovery_ms gap then 1 else suc run) 255
next_count w gap run failures count = ground (arith, count)

refused-count :
    (threshold probe failures run age : ℕ)
    → failures ≡ min run 255
    → threshold ≤ 255
    → ((if ltb failures threshold then true else leb probe age) ≡ false)
      ↔ ((threshold ≤ run) × (age < probe))
refused-count threshold probe failures run age count small =
    (λ h. (ground arith, ground arith), λ h. ground arith)

record_exit-Tells :
    (policy : HealthPolicy) (health : Option ExitHealth) (log : Log) (success : Bool) (at_ms : ℕ)
    → Tells policy.recovery_window_ms health log
    → Tells policy.recovery_window_ms
        (some (record_exit policy (or_new health) success at_ms))
        ((success, at_ms) ∷ log)
unfolding record_exit or_new streak
record_exit-Tells policy health log true t k = (_, refl, omega arith, λ e. absurd (cc e))
record_exit-Tells policy health [] false t k = rw k (_, refl, ground arith, λ _. refl)
record_exit-Tells policy health ((true, u) ∷ log) false t (e, k, count, last) =
    rw k (_, refl, ground (arith, count), λ _. refl)
record_exit-Tells policy health ((false, u) ∷ log) false t (e, k, count, last) = rw k (
  _,
  refl,
  rw (last refl) (
      next_count policy.recovery_window_ms (t - u)
        (streak policy.recovery_window_ms ((false, u) ∷ log)) e.failures count),
  λ _. refl,
)

exit_history-Tells :
    (policy : HealthPolicy) (exit_id : Text) (health : Option ExitHealth) (log : Log)
    (outcomes : List Outcome)
    → Tells policy.recovery_window_ms health log
    → Tells policy.recovery_window_ms
        (exit_history policy exit_id health outcomes)
        (log_of exit_id log outcomes)
unfolding exit_history log_of
exit_history-Tells policy exit_id health log [] k = k
exit_history-Tells policy exit_id health log ((other, s, t) ∷ outcomes) k =
    elim (beq-cases other exit_id) [
      | inl p ↦ rw p.0 (
          exit_history-Tells policy exit_id (some (record_exit policy (or_new health) s t))
            ((s, t) ∷ log) outcomes (record_exit-Tells policy health log s t k))
      | inr p ↦ rw p.0 (exit_history-Tells policy exit_id health log outcomes k)
    ]

refused-Tells :
    (policy : HealthPolicy) (now_ms : ℕ) (health : Option ExitHealth) (log : Log)
    → 0 < policy.failure_threshold
    → policy.failure_threshold ≤ 255
    → Tells policy.recovery_window_ms health log
    → (exit_can_dispatch policy now_ms health ≡ false) ↔ (
        (policy.failure_threshold ≤ streak policy.recovery_window_ms log)
        × IsRecent policy.probe_after_ms now_ms log)
unfolding exit_can_dispatch streak
refused-Tells policy now_ms health [] pos small k = (λ h. absurd (cc (rw k at h)), λ h. absurd h.1)
refused-Tells policy now_ms health ((true, t) ∷ log) pos small (e, k, count, last) =
    rw k (λ h. ground (arith, count, h), λ h. absurd (omega (arith, h.0, pos)))
refused-Tells policy now_ms health ((false, t) ∷ log) pos small (e, k, count, last) =
    rw (k, last refl)
      (refused-count policy.failure_threshold policy.probe_after_ms e.failures
        (streak policy.recovery_window_ms ((false, t) ∷ log)) (now_ms - t) count small)

-- From a new table with a threshold from 1 to 255, an exit is refused exactly if its newest outcomes, as
-- many as the threshold, are all failures, each at most the recovery window after the one before it,
-- and the newest of them is less than `probe_after_ms` old.
pub refused_iff :
    (policy : HealthPolicy) (outcomes : List Outcome) (exit_id : Text) (now_ms : ℕ)
    → 0 < policy.failure_threshold
    → policy.failure_threshold ≤ 255
    → (can_dispatch (record_all (new_table policy) outcomes) exit_id now_ms ≡ false) ↔ (
        IsFailing policy.recovery_window_ms policy.failure_threshold (log_of exit_id [] outcomes)
        × IsRecent policy.probe_after_ms now_ms (log_of exit_id [] outcomes))
refused_iff policy outcomes exit_id now_ms pos small =
    let log = log_of exit_id [] outcomes in
    let told = exit_history-Tells policy exit_id none [] outcomes refl in
    let (to, from) =
      refused-Tells policy now_ms (exit_history policy exit_id none outcomes) log pos small told in
    let (count, run) = IsFailing-streak policy.recovery_window_ms policy.failure_threshold log in
    rw (can_dispatch-record_all policy outcomes exit_id now_ms) (
      λ h. let (n, recent) = to h in (run n, recent),
      λ (failing, recent). from (count failing, recent),
    )
