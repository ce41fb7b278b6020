-- ===== src/Kernel/SourceActivity/Idle.antt =====
-- When a source counts as idle.
use meshbus_rs.Prelude.{ℕ, ◌==◌, Text, text_eq_inst, Option, none, some, List, [], ◌∷◌}
use meshbus_rs.Prelude.{
  lookup, insert, lookup-insert, beq-cases, is_some, ◌≡◌, refl, subst, arith, inl, inr,
  Option-cases,
}
use meshbus_rs.Kernel.SourceActivity.{
  SourceActivityState, Activity, or_default, opened, closed_at, mark_open, mark_closed, snapshot,
}

pub data Mark : Type 0 where
  open_mark : Option Text → Mark
  close_mark : ℕ → Option Text → Mark

unfoldable pub run_marks : Activity → List Mark → Activity
run_marks a [] = a
run_marks a (open_mark key ∷ marks) = run_marks (mark_open a key) marks
run_marks a (close_mark now_ms key ∷ marks) = run_marks (mark_closed a now_ms key) marks

-- Idle since some time exactly with no flow open.
abbrev IsMarked : SourceActivityState → Type 0
IsMarked s = is_some s.idle_since_ms ≡ (s.active_flows == 0)

abbrev AllMarked : Activity → Type 0
AllMarked a = (key : Text) (s : SourceActivityState) → lookup key a ≡ some s → IsMarked s

opened-IsMarked : (s : SourceActivityState) → IsMarked (opened s)
unfolding opened
opened-IsMarked s = ground arith

closed_at-IsMarked :
    (now_ms : ℕ) (a : Activity) (key : Text)
    → AllMarked a
    → IsMarked (closed_at now_ms (or_default (lookup key a)))
unfolding closed_at or_default
closed_at-IsMarked now_ms a key h = elim (Option-cases (lookup key a)) [
  | inl e ↦ rw e refl
  | inr (s, e) ↦ rw e (ground (arith, h key s e))
]

insert-AllMarked :
    (a : Activity) (key : Text) (s : SourceActivityState)
    → IsMarked s
    → AllMarked a
    → AllMarked (insert key s a)
insert-AllMarked a key s m h other t e = elim (beq-cases key other) [
  | inl p ↦
      let same : s ≡ t = cc (rw (lookup-insert key other s a, p.0) at e) in
      subst (λ u. IsMarked u) same m
  | inr n ↦ h other t (rw (lookup-insert key other s a, n.0) at e)
]

run_marks-AllMarked :
    (marks : List Mark) (a : Activity) → AllMarked a → AllMarked (run_marks a marks)
unfolding run_marks mark_open mark_closed
run_marks-AllMarked [] a h = h
run_marks-AllMarked (open_mark none ∷ marks) a h = run_marks-AllMarked marks a h
run_marks-AllMarked (open_mark (some key) ∷ marks) a h = run_marks-AllMarked marks _ (
    insert-AllMarked a key (opened (or_default (lookup key a)))
      (opened-IsMarked (or_default (lookup key a))) h)
run_marks-AllMarked (close_mark now_ms none ∷ marks) a h = run_marks-AllMarked marks a h
run_marks-AllMarked (close_mark now_ms (some key) ∷ marks) a h = run_marks-AllMarked marks _ (
    insert-AllMarked a key (closed_at now_ms (or_default (lookup key a)))
      (closed_at-IsMarked now_ms a key h) h)

-- After any sequence of flows opened and closed, a snapshot of a source has a time since when it is
-- idle exactly if it counts no active flow.
pub snapshot_idle :
    (marks : List Mark) (key : Option Text) (s : SourceActivityState)
    → snapshot (run_marks [] marks) key ≡ some s
    → is_some s.idle_since_ms ≡ (s.active_flows == 0)
unfolding snapshot
snapshot_idle marks none s e = absurd (cc e)
snapshot_idle marks (some key) s e =
    run_marks-AllMarked marks [] (λ k t none_there. absurd (cc none_there)) key s e
