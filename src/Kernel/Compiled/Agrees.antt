-- ===== src/Kernel/Compiled/Agrees.antt =====
-- The compiled interpreter against `run_pipeline_with_registry`.
use meshbus_rs.Prelude.{ℕ, zero, suc, text_eq_inst, List, [], ◌∷◌, keys, values}
use meshbus_rs.Prelude.{Option, some, ok, err, lookup, get_elem?, traverse, traverse-cons}
use meshbus_rs.Prelude.{get_elem?-traverse, Option-cases, inl, inr, ◌≡◌, refl, ap, arith}
use meshbus_rs.Kernel.Types.{
  PipelineId, HookId, HookSpec, HookFn, Verdict, Event, KernelCtx, Pipeline,
}
use meshbus_rs.Kernel.Types.{KernelRegistry}
use meshbus_rs.Kernel.Pipeline.{
  Run, Leave, run_verdict, run_leave, run_hooks, run_loop, check_declared,
}
use meshbus_rs.Kernel.Pipeline.{resolve_hook, run_pipeline_with_registry}
use meshbus_rs.Kernel.Pipeline
use meshbus_rs.Kernel.Registry.{verify}
use meshbus_rs.Kernel.Registry.Facts.{Checked, verify-Checked, find-values}
use meshbus_rs.Kernel.Compiled.{Slot, CompiledHook, CompiledPipeline, CompiledKernel, intern}
use meshbus_rs.Kernel.Compiled.{compile_hook, compile_pipeline, compile_verified, from_registry}
use meshbus_rs.Kernel.Compiled.{run_compiled_hook, compiled_verdict, run_slots, compiled_leave}
use meshbus_rs.Kernel.Compiled.{compiled_loop, run_pipeline}
use meshbus_rs.Kernel.Compiled.Slots.{intern_sound, intern_complete}

-- The tables of a kernel that was built from a registry.
record IsCompiled (reg : KernelRegistry) (ck : CompiledKernel) : Type 0 where
  hooks_table : traverse (compile_hook reg) (keys reg.hooks) ≡ some ck.compiled_hooks
  pipelines_table :
      traverse (compile_pipeline reg (intern (keys reg.hooks))) (keys reg.pipelines)
      ≡ some ck.compiled_pipelines
  slots : ck.pipeline_slots ≡ intern (keys reg.pipelines)

compile_verified-IsCompiled :
    (reg : KernelRegistry) (ck : CompiledKernel)
    → compile_verified reg ≡ some ck
    → IsCompiled reg ck
unfolding compile_verified
compile_verified-IsCompiled reg ck h = ground arith

declared_agrees :
    (h : HookId) (spec : HookSpec) (f : HookFn) (r : Verdict × Event × KernelCtx)
    → run_compiled_hook
        (record {
          id = h;
          f = f;
          may_accept_to = spec.may_accept_to;
          may_jump_to = spec.may_jump_to;
        })
        r
      ≡ check_declared h spec r
unfolding run_compiled_hook check_declared
declared_agrees h spec f (Verdict.accept s, ev, c) = refl
declared_agrees h spec f (Verdict.jump t, ev, c) = refl
declared_agrees h spec f (v, ev, c) = refl

-- A compiled hook answers as the resolver does.
hook_agrees :
    (reg : KernelRegistry) (h : HookId) {ch : CompiledHook} (ev : Event) (c : KernelCtx)
    → compile_hook reg h ≡ some ch
    → run_compiled_hook ch (ch.f ev c) ≡ resolve_hook reg h ev c
unfolding compile_hook resolve_hook
hook_agrees reg h {ch} ev c e = elim (Option-cases (lookup h reg.hooks)) [
  | inl p ↦ absurd (cc (rw (p, compile_hook) at e))
  | inr (spec, p) ↦ elim (Option-cases (lookup h reg.fns)) [
    | inl q ↦ absurd (cc (rw (p, q, compile_hook) at e))
    | inr (f, q) ↦
        let built : record {
          id = h;
          f = f;
          may_accept_to = spec.may_accept_to;
          may_jump_to = spec.may_jump_to;
        }
            ≡ ch =
          cc (rw (p, q, compile_hook) at e) in
        rw (← built) (rw (p, q, resolve_hook) (declared_agrees h spec f (f ev c)))
  ]
]

verdict_agrees :
    (r : Run Event KernelCtx) (rest : Event → KernelCtx → Leave × Event × KernelCtx)
    (rest' : Event → KernelCtx → Option (Leave × Event × KernelCtx))
    → ((ev : Event) (c : KernelCtx) → rest' ev c ≡ some (rest ev c))
    → compiled_verdict r rest' ≡ some (run_verdict r rest)
unfolding compiled_verdict run_verdict
verdict_agrees (err e, ev, c) rest rest' h = refl
verdict_agrees (ok Verdict.continue, ev, c) rest rest' h = h ev c
verdict_agrees (ok (Verdict.jump t), ev, c) rest rest' h = refl
verdict_agrees (ok v, ev, c) rest rest' h = refl

leave_agrees :
    (current : PipelineId) (l : Leave × Event × KernelCtx)
    (next : PipelineId → Event → KernelCtx → Run Event KernelCtx)
    (next' : PipelineId → Event → KernelCtx → Option (Run Event KernelCtx))
    → ((t : PipelineId) (ev : Event) (c : KernelCtx) → next' t ev c ≡ some (next t ev c))
    → compiled_leave current l next' ≡ some (run_leave current l next)
unfolding compiled_leave run_leave
leave_agrees current (Leave.jump_to t, ev, c) next next' h = h t ev c
leave_agrees current (Leave.terminal v, ev, c) next next' h = refl
leave_agrees current (Leave.failed e, ev, c) next next' h = refl
leave_agrees current (Leave.end_of_hooks, ev, c) next next' h = refl

compiled_from :
    (reg : KernelRegistry) (k : PipelineId) {cp : CompiledPipeline}
    → compile_pipeline reg (intern (keys reg.hooks)) k ≡ some cp
    → (p : Pipeline) × (lookup k reg.pipelines ≡ some p)
      × (traverse (λ h. lookup h (intern (keys reg.hooks))) p.hooks ≡ some cp.hooks)
unfolding compile_pipeline
compiled_from reg k {cp} h = elim (Option-cases (lookup k reg.pipelines)) [
  | inl e ↦ absurd (cc (rw (e, compile_pipeline) at h))
  | inr (p, e) ↦ elim (Option-cases (traverse (λ h. lookup h (intern (keys reg.hooks))) p.hooks)) [
    | inl e' ↦ absurd (cc (rw (e, e', compile_pipeline) at h))
    | inr (slots, e') ↦
        let built : record { id = k; hooks = slots } ≡ cp =
          cc (rw (e, e', compile_pipeline) at h) in
        (p, e, rw e' (ap (λ (r : CompiledPipeline). some r.hooks) built))
  ]
]

module _ {reg : KernelRegistry} {ck : CompiledKernel} (t : IsCompiled reg ck) where
  -- The slot of a registered hook leads to the hook's compiled form.
  slot_hook :
      (h : HookId) (s : Slot)
      → lookup h (intern (keys reg.hooks)) ≡ some s
      → (ch : CompiledHook) × (compile_hook reg h ≡ some ch)
        × (get_elem? ck.compiled_hooks s ≡ some ch)
  slot_hook h s e =
      get_elem?-traverse (compile_hook reg) (keys reg.hooks) s t.hooks_table
        (intern_sound h (keys reg.hooks) e)

  slots_agree :
      (hs : List HookId) (ss : List Slot) (ev : Event) (c : KernelCtx)
      → traverse (λ h. lookup h (intern (keys reg.hooks))) hs ≡ some ss
      → run_slots ck ss ev c ≡ some (run_hooks (resolve_hook reg) hs ev c)
  unfolding run_slots run_hooks
  slots_agree [] ss ev c e = let q : [] ≡ ss = unfold traverse in cc e in rw (← q)
  slots_agree (h ∷ hs) ss ev c e =
      let (s, ss', e1, e2, q) = traverse-cons (λ h. lookup h (intern (keys reg.hooks))) h hs e in
      let (ch, compiled, found) = slot_hook h s e1 in
      rw q (
        rw (found, run_slots)
          (rw (hook_agrees reg h ev c compiled) (
            verdict_agrees (resolve_hook reg h ev c) (run_hooks (resolve_hook reg) hs)
              (run_slots ck ss') (λ ev' c'. slots_agree hs ss' ev' c' e2))))

  -- The slot of a pipeline leads to a compiled pipeline that runs as the pipeline itself.
  slot_pipeline :
      (k : PipelineId) (s : Slot)
      → lookup k ck.pipeline_slots ≡ some s
      → (cp : CompiledPipeline) × (p : Pipeline) × (get_elem? ck.compiled_pipelines s ≡ some cp)
        × (lookup k reg.pipelines ≡ some p)
        × (traverse (λ h. lookup h (intern (keys reg.hooks))) p.hooks ≡ some cp.hooks)
  slot_pipeline k s e =
      let (cp, built, found) =
        get_elem?-traverse (compile_pipeline reg (intern (keys reg.hooks))) (keys reg.pipelines) s
          t.pipelines_table (intern_sound k (keys reg.pipelines) (rw t.slots at e)) in
      let (p, found', hooks) = compiled_from reg k built in (cp, p, found, found', hooks)

  loop_agrees :
      Checked reg
      → (left : ℕ) (current : PipelineId) (ev : Event) (c : KernelCtx)
      → compiled_loop ck left current ev c
        ≡ some (run_loop (resolve_hook reg) (values reg.pipelines) left current ev c)
  unfolding compiled_loop run_loop
  loop_agrees checked zero current ev c = refl
  loop_agrees checked (suc left) current ev c =
      rw (find-values checked current, run_loop)
        (elim (Option-cases (lookup current ck.pipeline_slots)) [
          | inl p ↦
              rw (p, compiled_loop) (rw (intern_complete current reg.pipelines (rw t.slots at p)))
          | inr (s, p) ↦
              let (cp, q, found, found', hooks) = slot_pipeline current s p in
              rw (p, found, slots_agree q.hooks cp.hooks ev c hooks, compiled_loop)
                (rw found'
                  (leave_agrees current _ _ _ (λ k ev' c'. loop_agrees checked left k ev' c')))
        ])

pub from_registry_parts :
    (reg : KernelRegistry) (ck : CompiledKernel)
    → from_registry reg ≡ some (ok ck)
    → (verify reg ≡ ok tt) × (compile_verified reg ≡ some ck)
unfolding from_registry
from_registry_parts reg ck h = ground arith

-- What `from_registry` builds from a registry runs as the registry itself: from each pipeline, event
-- and context it gives the same verdict or error, the same event and the same context, with its trace
-- of hooks, and it never panics.
pub run_pipeline-from_registry :
    (reg : KernelRegistry) (ck : CompiledKernel) (entry : PipelineId) (ev : Event) (c : KernelCtx)
    → from_registry reg ≡ some (ok ck)
    → run_pipeline ck entry ev c ≡ some (run_pipeline_with_registry reg entry ev c)
unfolding run_pipeline run_pipeline_with_registry Pipeline.run_pipeline
run_pipeline-from_registry reg ck entry ev c h =
    let (verified, compiled) = from_registry_parts reg ck h in
    loop_agrees (compile_verified-IsCompiled reg ck compiled) (verify-Checked reg verified) _ entry
      ev c
