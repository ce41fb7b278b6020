-- ===== src/Kernel/Pipeline.antt =====
-- The interpreter of kernel/pipeline/data_handle.rs: `run_pipeline` over a resolver of hooks, and
-- `run_pipeline_with_registry`. `&mut` arguments are threaded; a run returns them on every path.
pub mod Verified
use meshbus_rs.Prelude.{ℕ, zero, suc, ◌+◌, Text, Bool, true, false, not, Option, none, some}
use meshbus_rs.Prelude.{List, [], ◌∷◌, ◌++◌, Result, ok, err, values, lookup, find, contains, Eq}
use meshbus_rs.Prelude.{text_eq_inst, text_eq, if◌then◌else◌}
use meshbus_rs.Kernel.Types.{
  PipelineId, HookId, SinkId, Verdict, Event, KernelCtx, HookFn, HookSpec,
}
use meshbus_rs.Kernel.Types.{Pipeline, KernelRegistry, hook_trace_record}

pub data PipelineRunError : Type 0 where
  unknown_hook : Text → PipelineRunError
  unknown_pipeline : Text → PipelineRunError
  fell_off_end : Text → PipelineRunError
  jump_depth_exceeded : PipelineRunError
  undeclared_accept_target : (hook sink : Text) → PipelineRunError
  undeclared_jump_target : (hook pipeline : Text) → PipelineRunError

abbrev pub max_jump_depth : ℕ
max_jump_depth = 32

-- The answer of a hook, or of a whole run, with the event and the context that it leaves.
abbrev pub Run : Type 0 → Type 0 → Type 0
Run E C = Result PipelineRunError Verdict × E × C

-- How the `for` over a pipeline's hooks ends.
pub data Leave : Type 0 where
  terminal : Verdict → Leave
  failed : PipelineRunError → Leave
  jump_to : PipelineId → Leave
  end_of_hooks : Leave

module _ {E C : Type 0} where
  -- The `match` on one hook's answer; `rest` runs the hooks that follow.
  unfoldable pub run_verdict : Run E C → (E → C → Leave × E × C) → Leave × E × C
  run_verdict (err e, ev, ctx) rest = (Leave.failed e, ev, ctx)
  run_verdict (ok Verdict.continue, ev, ctx) rest = rest ev ctx
  run_verdict (ok (Verdict.jump t), ev, ctx) rest = (Leave.jump_to t, ev, ctx)
  run_verdict (ok (Verdict.accept s), ev, ctx) rest = (Leave.terminal (Verdict.accept s), ev, ctx)
  run_verdict (ok (Verdict.reject r), ev, ctx) rest = (Leave.terminal (Verdict.reject r), ev, ctx)
  run_verdict (ok Verdict.drop_event, ev, ctx) rest = (Leave.terminal Verdict.drop_event, ev, ctx)

  -- What follows the `for`; `next` is the loop's next round.
  unfoldable pub run_leave : PipelineId → Leave × E × C → (PipelineId → E → C → Run E C) → Run E C
  run_leave current (Leave.terminal v, ev, ctx) next = (ok v, ev, ctx)
  run_leave current (Leave.failed e, ev, ctx) next = (err e, ev, ctx)
  run_leave current (Leave.jump_to t, ev, ctx) next = next t ev ctx
  run_leave current (Leave.end_of_hooks, ev, ctx) next =
      (err (PipelineRunError.fell_off_end current), ev, ctx)

module _ {E C : Type 0} (resolve : HookId → E → C → Run E C) where
  -- One pipeline, hook after hook.
  unfoldable pub run_hooks : List HookId → E → C → Leave × E × C
  run_hooks [] ev ctx = (Leave.end_of_hooks, ev, ctx)
  run_hooks (h ∷ hs) ev ctx = run_verdict (resolve h ev ctx) (run_hooks hs)

  -- The `loop`, by the rounds left: `jumps > MAX_JUMP_DEPTH` holds when none is left.
  unfoldable pub run_loop : List Pipeline → ℕ → PipelineId → E → C → Run E C
  run_loop ps zero current ev ctx = (err PipelineRunError.jump_depth_exceeded, ev, ctx)
  run_loop ps (suc left) current ev ctx = elim (find (λ p. text_eq p.id current) ps) [
    | none ↦ (err (PipelineRunError.unknown_pipeline current), ev, ctx)
    | some p ↦ run_leave current (run_hooks p.hooks ev ctx) (run_loop ps left)
  ]

  unfoldable pub run_pipeline : PipelineId → List Pipeline → E → C → Run E C
  run_pipeline entry ps ev ctx = run_loop ps (max_jump_depth + 1) entry ev ctx

-- `c.hook_trace.push(hook_trace_record(hook_id, &verdict))`
unfoldable pub push_trace : HookId → Verdict → KernelCtx → KernelCtx
push_trace h v c = record c { hook_trace = c.hook_trace ++ (hook_trace_record h v ∷ []) }

-- A verdict may name only what the hook's spec declares; it is traced if it does.
unfoldable pub check_declared :
    HookId → HookSpec → Verdict × Event × KernelCtx → Run Event KernelCtx
check_declared h spec (Verdict.accept s, ev, c) =
    if contains s spec.may_accept_to
    then (ok (Verdict.accept s), ev, push_trace h (Verdict.accept s) c)
    else (err (PipelineRunError.undeclared_accept_target h s), ev, c)
check_declared h spec (Verdict.jump t, ev, c) =
    if contains t spec.may_jump_to
    then (ok (Verdict.jump t), ev, push_trace h (Verdict.jump t) c)
    else (err (PipelineRunError.undeclared_jump_target h t), ev, c)
check_declared h spec (v, ev, c) = (ok v, ev, push_trace h v c)

-- The resolver closure.
unfoldable pub resolve_hook : KernelRegistry → HookId → Event → KernelCtx → Run Event KernelCtx
resolve_hook reg h ev c = elim (lookup h reg.hooks) [
  | none ↦ (err (PipelineRunError.unknown_hook h), ev, c)
  | some spec ↦ elim (lookup h reg.fns) [
    | none ↦ (err (PipelineRunError.unknown_hook h), ev, c)
    | some f ↦ check_declared h spec (f ev c)
  ]
]

unfoldable pub run_pipeline_with_registry :
    KernelRegistry → PipelineId → Event → KernelCtx → Run Event KernelCtx
run_pipeline_with_registry reg pid ev ctx =
    run_pipeline (resolve_hook reg) pid (values reg.pipelines) ev ctx
