-- ===== src/Kernel/Compiled.antt =====
-- kernel/compiled.rs: interned slots, the compiled pipeline graph and its interpreter.
-- A panic (an `expect` that fails, an index out of range) is `none`.
pub mod Slots
pub mod Agrees
pub mod Panics
use meshbus_rs.Prelude.{ℕ, zero, suc, ◌+◌, Text, text_eq_inst, Eq, List, [], ◌∷◌, contains, keys}
use meshbus_rs.Prelude.{Option, none, some, Result, ok, err, lookup, insert, contains_key, traverse}
use meshbus_rs.Prelude.{get_elem?, enumerate, if◌then◌else◌}
use meshbus_rs.Kernel.Types.{
  PipelineId, HookId, SinkId, SourceId, Verdict, Event, KernelCtx, HookFn,
}
use meshbus_rs.Kernel.Types.{HookSpec, Pipeline, KernelRegistry}
use meshbus_rs.Kernel.Pipeline.{PipelineRunError, Run, Leave, run_verdict, run_leave, push_trace}
use meshbus_rs.Kernel.Pipeline.{max_jump_depth}
use meshbus_rs.Kernel.Registry.{VerifyError, verify}

abbrev pub Slot : Type 0
Slot = ℕ

-- `collect` into a `HashMap`: of two entries with one key the later stays.
pub from_iter : List (Text × Slot) → List (Text × Slot)
from_iter [] = []
from_iter ((k, v) ∷ r) = let m = from_iter r in if contains_key k m then m else insert k v m

pub intern : List Text → List (Text × Slot)
intern ids = from_iter (enumerate 0 ids)

pub record CompiledHook : Type 0 where
  pub id : HookId
  pub f : HookFn
  pub may_accept_to : List SinkId
  pub may_jump_to : List PipelineId

pub record CompiledPipeline : Type 0 where
  pub id : PipelineId
  pub hooks : List Slot

pub record CompiledKernel : Type 0 where
  pub source_slots : List (SourceId × Slot)
  pub sink_slots : List (SinkId × Slot)
  pub hook_slots : List (HookId × Slot)
  pub pipeline_slots : List (PipelineId × Slot)
  pub source_ids : List SourceId
  pub sink_ids : List SinkId
  pub hook_ids : List HookId
  pub pipeline_ids : List PipelineId
  pub compiled_hooks : List CompiledHook
  pub compiled_pipelines : List CompiledPipeline

pub compile_hook : KernelRegistry → HookId → Option CompiledHook
compile_hook reg hid = elim (lookup hid reg.hooks) [
  | none ↦ none
  | some spec ↦ elim (lookup hid reg.fns) [
    | none ↦ none
    | some f ↦ some (record {
      id = hid;
      f = f;
      may_accept_to = spec.may_accept_to;
      may_jump_to = spec.may_jump_to;
    })
  ]
]

pub compile_pipeline : KernelRegistry → List (HookId × Slot) → PipelineId → Option CompiledPipeline
compile_pipeline reg hook_slots pid = elim (lookup pid reg.pipelines) [
  | none ↦ none
  | some p ↦ elim (traverse (λ h. lookup h hook_slots) p.hooks) [
    | none ↦ none
    | some slots ↦ some (record { id = pid; hooks = slots })
  ]
]

-- What is built once `verify` has passed.
pub compile_verified : KernelRegistry → Option CompiledKernel
compile_verified reg = elim (traverse (compile_hook reg) (keys reg.hooks)) [
  | none ↦ none
  | some hooks ↦
      elim (traverse (compile_pipeline reg (intern (keys reg.hooks))) (keys reg.pipelines)) [
        | none ↦ none
        | some pipelines ↦ some (record {
          source_slots = intern (keys reg.sources);
          sink_slots = intern (keys reg.sinks);
          hook_slots = intern (keys reg.hooks);
          pipeline_slots = intern (keys reg.pipelines);
          source_ids = keys reg.sources;
          sink_ids = keys reg.sinks;
          hook_ids = keys reg.hooks;
          pipeline_ids = keys reg.pipelines;
          compiled_hooks = hooks;
          compiled_pipelines = pipelines;
        })
      ]
]

pub from_registry : KernelRegistry → Option (Result VerifyError CompiledKernel)
from_registry reg = elim (verify reg) [
  | err e ↦ some (err e)
  | ok u ↦ elim (compile_verified reg) [ none ↦ none | some ck ↦ some (ok ck) ]
]

-- The declared targets are tested against the copies in the compiled hook.
pub run_compiled_hook : CompiledHook → Verdict × Event × KernelCtx → Run Event KernelCtx
run_compiled_hook h (Verdict.accept s, ev, c) =
    if contains s h.may_accept_to
    then (ok (Verdict.accept s), ev, push_trace h.id (Verdict.accept s) c)
    else (err (PipelineRunError.undeclared_accept_target h.id s), ev, c)
run_compiled_hook h (Verdict.jump t, ev, c) =
    if contains t h.may_jump_to
    then (ok (Verdict.jump t), ev, push_trace h.id (Verdict.jump t) c)
    else (err (PipelineRunError.undeclared_jump_target h.id t), ev, c)
run_compiled_hook h (v, ev, c) = (ok v, ev, push_trace h.id v c)

-- The `match` on one hook's answer; `rest` runs the hooks that follow.
pub compiled_verdict :
    Run Event KernelCtx
    → (Event → KernelCtx → Option (Leave × Event × KernelCtx))
    → Option (Leave × Event × KernelCtx)
compiled_verdict (err e, ev, c) rest = some (Leave.failed e, ev, c)
compiled_verdict (ok Verdict.continue, ev, c) rest = rest ev c
compiled_verdict (ok (Verdict.jump t), ev, c) rest = some (Leave.jump_to t, ev, c)
compiled_verdict (ok v, ev, c) rest = some (Leave.terminal v, ev, c)

pub run_slots : CompiledKernel → List Slot → Event → KernelCtx → Option (Leave × Event × KernelCtx)
run_slots ck [] ev c = some (Leave.end_of_hooks, ev, c)
run_slots ck (s ∷ ss) ev c = elim (get_elem? ck.compiled_hooks s) [
  | none ↦ none
  | some h ↦ compiled_verdict (run_compiled_hook h (h.f ev c)) (run_slots ck ss)
]

pub compiled_leave :
    PipelineId
    → Leave × Event × KernelCtx
    → (PipelineId → Event → KernelCtx → Option (Run Event KernelCtx))
    → Option (Run Event KernelCtx)
compiled_leave current (Leave.jump_to t, ev, c) next = next t ev c
compiled_leave current (Leave.terminal v, ev, c) next = some (ok v, ev, c)
compiled_leave current (Leave.failed e, ev, c) next = some (err e, ev, c)
compiled_leave current (Leave.end_of_hooks, ev, c) next =
    some (err (PipelineRunError.fell_off_end current), ev, c)

-- The `loop`, by the rounds left.
pub compiled_loop :
    CompiledKernel → ℕ → PipelineId → Event → KernelCtx → Option (Run Event KernelCtx)
compiled_loop ck zero current ev c = some (err PipelineRunError.jump_depth_exceeded, ev, c)
compiled_loop ck (suc left) current ev c = elim (lookup current ck.pipeline_slots) [
  | none ↦ some (err (PipelineRunError.unknown_pipeline current), ev, c)
  | some slot ↦ elim (get_elem? ck.compiled_pipelines slot) [
    | none ↦ none
    | some p ↦ elim (run_slots ck p.hooks ev c) [
      | none ↦ none
      | some left_by ↦ compiled_leave current left_by (compiled_loop ck left)
    ]
  ]
]

unfoldable pub run_pipeline :
    CompiledKernel → PipelineId → Event → KernelCtx → Option (Run Event KernelCtx)
run_pipeline ck entry ev c = compiled_loop ck (max_jump_depth + 1) entry ev c
