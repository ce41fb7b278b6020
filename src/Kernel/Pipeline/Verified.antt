-- ===== src/Kernel/Pipeline/Verified.antt =====
-- Runs of a registry that `verify` accepts.
use meshbus_rs.Prelude.{ℕ, zero, suc, text_eq_inst, List, [], ◌∷◌, contains_key, contains}
use meshbus_rs.Prelude.{contains-In, contains_key-lookup, In, head, later, lookup, values}
use meshbus_rs.Prelude.{some, Result, ok, err, Bool-cases, inl, inr, true}
use meshbus_rs.Prelude.{◌≡◌, refl}
use meshbus_rs.Kernel.Types.{PipelineId, HookId, HookSpec, Verdict, Event, KernelCtx, Pipeline}
use meshbus_rs.Kernel.Types.{KernelRegistry}
use meshbus_rs.Kernel.Pipeline.{
  PipelineRunError, Run, Leave, run_verdict, run_leave, run_hooks, run_loop,
}
use meshbus_rs.Kernel.Pipeline.{
  check_declared, resolve_hook, run_pipeline, run_pipeline_with_registry,
}
use meshbus_rs.Kernel.Registry.{verify}
use meshbus_rs.Kernel.Registry.Facts.{
  Checked, verify-Checked, find-values, hook_exists, hook_fn_exists,
}
use meshbus_rs.Kernel.Registry.Facts.{jump_target_exists, sink_exists}

-- What a run may answer: a sink that is registered, a refusal, or an error other than an unknown id.
abbrev pub IsExpected : KernelRegistry → Result PipelineRunError Verdict → Type 0
IsExpected reg (ok Verdict.continue) = ⊥
IsExpected reg (ok (Verdict.jump t)) = ⊥
IsExpected reg (ok (Verdict.accept s)) = contains_key s reg.sinks ≡ true
IsExpected reg (ok (Verdict.reject r)) = Unit {0}
IsExpected reg (ok Verdict.drop_event) = Unit {0}
IsExpected reg (err (PipelineRunError.unknown_hook h)) = ⊥
IsExpected reg (err (PipelineRunError.unknown_pipeline p)) = ⊥
IsExpected reg (err e) = Unit {0}

-- The same of one hook, which may also continue, or jump to a registered pipeline.
abbrev IsExpectedAnswer : KernelRegistry → Result PipelineRunError Verdict → Type 0
IsExpectedAnswer reg (ok Verdict.continue) = Unit {0}
IsExpectedAnswer reg (ok (Verdict.jump t)) = contains_key t reg.pipelines ≡ true
IsExpectedAnswer reg (ok v) = IsExpected reg (ok v)
IsExpectedAnswer reg (err e) = IsExpected reg (err e)

abbrev IsExpectedLeave : KernelRegistry → Leave → Type 0
IsExpectedLeave reg (Leave.terminal v) = IsExpected reg (ok v)
IsExpectedLeave reg (Leave.failed e) = IsExpected reg (err e)
IsExpectedLeave reg (Leave.jump_to t) = contains_key t reg.pipelines ≡ true
IsExpectedLeave reg Leave.end_of_hooks = Unit {0}

module _ {reg : KernelRegistry} (c : Checked reg) (k : PipelineId) {p : Pipeline}
    (found : lookup k reg.pipelines ≡ some p) where
  declared_expected :
      (h : HookId) {spec : HookSpec} (r : Verdict × Event × KernelCtx)
      → In h p.hooks
      → lookup h reg.hooks ≡ some spec
      → IsExpectedAnswer reg (check_declared h spec r).0
  unfolding check_declared
  declared_expected h {spec} (Verdict.accept s, ev, ctx) i e =
      elim (Bool-cases (contains s spec.may_accept_to)) [
        | inl d ↦ rw d (sink_exists c h e (contains-In s spec.may_accept_to d))
        | inr d ↦ rw d tt
      ]
  declared_expected h {spec} (Verdict.jump t, ev, ctx) i e =
      elim (Bool-cases (contains t spec.may_jump_to)) [
        | inl d ↦
            let (q, there) =
              jump_target_exists c k h found i e (contains-In t spec.may_jump_to d) in
            rw d (rw there refl)
        | inr d ↦ rw d tt
      ]
  declared_expected h (Verdict.continue, ev, ctx) i e = tt
  declared_expected h (Verdict.reject r, ev, ctx) i e = tt
  declared_expected h (Verdict.drop_event, ev, ctx) i e = tt

  answer_expected :
      (h : HookId) (ev : Event) (ctx : KernelCtx)
      → In h p.hooks
      → IsExpectedAnswer reg (resolve_hook reg h ev ctx).0
  unfolding resolve_hook
  answer_expected h ev ctx i =
      let (spec, e) = hook_exists c k h found i in
      let (f, e') = hook_fn_exists c k h found i in
      rw (e, e', resolve_hook) (declared_expected h (f ev ctx) i e)

verdict_expected :
    (reg : KernelRegistry) (r : Run Event KernelCtx)
    (rest : Event → KernelCtx → Leave × Event × KernelCtx)
    → IsExpectedAnswer reg r.0
    → ((ev : Event) (ctx : KernelCtx) → IsExpectedLeave reg (rest ev ctx).0)
    → IsExpectedLeave reg (run_verdict r rest).0
unfolding run_verdict
verdict_expected reg (err e, ev, ctx) rest h k = h
verdict_expected reg (ok Verdict.continue, ev, ctx) rest h k = k ev ctx
verdict_expected reg (ok (Verdict.jump t), ev, ctx) rest h k = h
verdict_expected reg (ok (Verdict.accept s), ev, ctx) rest h k = h
verdict_expected reg (ok (Verdict.reject r), ev, ctx) rest h k = h
verdict_expected reg (ok Verdict.drop_event, ev, ctx) rest h k = h

hooks_expected :
    (reg : KernelRegistry) (resolve : HookId → Event → KernelCtx → Run Event KernelCtx)
    (hs : List HookId)
    → ((h : HookId) (ev : Event) (ctx : KernelCtx)
        → In h hs
        → IsExpectedAnswer reg (resolve h ev ctx).0)
    → (ev : Event) (ctx : KernelCtx) → IsExpectedLeave reg (run_hooks resolve hs ev ctx).0
unfolding run_hooks
hooks_expected reg resolve [] good ev ctx = tt
hooks_expected reg resolve (h ∷ hs) good ev ctx =
    verdict_expected reg (resolve h ev ctx) (run_hooks resolve hs) (good h ev ctx (head refl))
      (hooks_expected reg resolve hs (λ j ev' ctx' i. good j ev' ctx' (later i)))

leave-IsExpected :
    (reg : KernelRegistry) (current : PipelineId) (l : Leave × Event × KernelCtx)
    (next : PipelineId → Event → KernelCtx → Run Event KernelCtx)
    → IsExpectedLeave reg l.0
    → ((t : PipelineId) (ev : Event) (ctx : KernelCtx)
        → contains_key t reg.pipelines ≡ true
        → IsExpected reg (next t ev ctx).0)
    → IsExpected reg (run_leave current l next).0
unfolding run_leave
leave-IsExpected reg current (Leave.terminal v, ev, ctx) next h k = h
leave-IsExpected reg current (Leave.failed e, ev, ctx) next h k = h
leave-IsExpected reg current (Leave.jump_to t, ev, ctx) next h k = k t ev ctx h
leave-IsExpected reg current (Leave.end_of_hooks, ev, ctx) next h k = tt

loop-IsExpected :
    {reg : KernelRegistry}
    → Checked reg
    → (left : ℕ) (current : PipelineId) (ev : Event) (ctx : KernelCtx)
    → contains_key current reg.pipelines ≡ true
    → IsExpected reg (run_loop (resolve_hook reg) (values reg.pipelines) left current ev ctx).0
unfolding run_loop
loop-IsExpected c zero current ev ctx h = tt
loop-IsExpected {reg} c (suc left) current ev ctx h =
    let (p, found) = contains_key-lookup current reg.pipelines h in
    rw (find-values c current, found, run_loop)
      (leave-IsExpected reg current (run_hooks (resolve_hook reg) p.hooks ev ctx) _
        (hooks_expected reg (resolve_hook reg) p.hooks (answer_expected c current found) ev ctx)
        (λ t ev' ctx' there. loop-IsExpected c left t ev' ctx' there))

-- From a registered pipeline of a registry that `verify` accepts, a run ends in an acceptance into a
-- registered sink, a rejection, a drop, or an error other than an unknown hook or pipeline.
pub run_IsExpected :
    (reg : KernelRegistry) (entry : PipelineId) (ev : Event) (ctx : KernelCtx)
    → verify reg ≡ ok tt
    → contains_key entry reg.pipelines ≡ true
    → IsExpected reg (run_pipeline_with_registry reg entry ev ctx).0
unfolding run_pipeline_with_registry run_pipeline
run_IsExpected reg entry ev ctx verified there =
    loop-IsExpected (verify-Checked reg verified) _ entry ev ctx there
