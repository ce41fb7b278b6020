-- ===== src/Kernel/Compiled/Panics.antt =====
-- When `from_registry` returns, and when one of its `expect`s panics.
use meshbus_rs.Prelude.{text_eq_inst, keys, contains_key, In}
use meshbus_rs.Prelude.{lookup-In-keys, contains_key-lookup, none, some, ok, lookup}
use meshbus_rs.Prelude.{traverse_all, traverse-none, Option-cases, inl, inr, true, ◌≡◌}
use meshbus_rs.Prelude.{arith}
use meshbus_rs.Kernel.Types.{HookId, PipelineId, KernelRegistry}
use meshbus_rs.Kernel.Registry.{verify}
use meshbus_rs.Kernel.Registry.Facts.{Checked, verify-Checked, hook_exists}
use meshbus_rs.Kernel.Compiled.{Slot, CompiledHook, CompiledPipeline, CompiledKernel, intern}
use meshbus_rs.Kernel.Compiled.{compile_hook, compile_pipeline, compile_verified, from_registry}
use meshbus_rs.Kernel.Compiled.Slots.{intern_complete}

compile_hook_total :
    (reg : KernelRegistry) (h : HookId)
    → In h (keys reg.hooks)
    → contains_key h reg.fns ≡ true
    → (ch : CompiledHook) × (compile_hook reg h ≡ some ch)
unfolding compile_hook
compile_hook_total reg h i fn =
    let (spec, e) = lookup-In-keys h reg.hooks i in
    let (f, e') = contains_key-lookup h reg.fns fn in
    elim (Option-cases (compile_hook reg h)) [
      | inl panicked ↦ absurd (cc (rw (e, e', compile_hook) at panicked))
      | inr built ↦ built
    ]

-- A registered hook has a slot.
intern_total :
    (reg : KernelRegistry) (h : HookId)
    → contains_key h reg.hooks ≡ true
    → (s : Slot) × (lookup h (intern (keys reg.hooks)) ≡ some s)
intern_total reg h present = elim (Option-cases (lookup h (intern (keys reg.hooks)))) [
  | inl e ↦ absurd (ground (arith, intern_complete h reg.hooks e))
  | inr q ↦ q
]

compile_pipeline_total :
    (reg : KernelRegistry) (k : PipelineId)
    → Checked reg
    → In k (keys reg.pipelines)
    → (cp : CompiledPipeline) × (compile_pipeline reg (intern (keys reg.hooks)) k ≡ some cp)
unfolding compile_pipeline
compile_pipeline_total reg k c i =
    let (p, e) = lookup-In-keys k reg.pipelines i in
    let (slots, e') =
      traverse_all (λ h. lookup h (intern (keys reg.hooks))) p.hooks
        (λ h inside.
          let (spec, known) = hook_exists c k h e inside in intern_total reg h (rw known)) in
    elim (Option-cases (compile_pipeline reg (intern (keys reg.hooks)) k)) [
      | inl panicked ↦ absurd (cc (rw (e, e', compile_pipeline) at panicked))
      | inr built ↦ built
    ]

compile_verified_total :
    (reg : KernelRegistry)
    → Checked reg
    → ((h : HookId) → In h (keys reg.hooks) → contains_key h reg.fns ≡ true)
    → (ck : CompiledKernel) × (compile_verified reg ≡ some ck)
unfolding compile_verified
compile_verified_total reg checked fns =
    let (hooks, e) =
      traverse_all (compile_hook reg) (keys reg.hooks)
        (λ h i. compile_hook_total reg h i (fns h i)) in
    let (pipelines, e') =
      traverse_all (compile_pipeline reg (intern (keys reg.hooks))) (keys reg.pipelines)
        (λ k i. compile_pipeline_total reg k checked i) in
    elim (Option-cases (compile_verified reg)) [
      | inl panicked ↦ absurd (cc (rw (e, e', compile_verified) at panicked))
      | inr built ↦ built
    ]

-- If every registered hook has a function, a registry that `verify` accepts is compiled.
pub from_registry_total :
    (reg : KernelRegistry)
    → verify reg ≡ ok tt
    → ((h : HookId) → In h (keys reg.hooks) → contains_key h reg.fns ≡ true)
    → (ck : CompiledKernel) × (from_registry reg ≡ some (ok ck))
unfolding from_registry
from_registry_total reg verified fns =
    let (ck, e) = compile_verified_total reg (verify-Checked reg verified) fns in
    (ck, rw (verified, e, from_registry))

-- If a registered hook has no function, `from_registry` panics on a registry that `verify` accepts,
-- though `verify` looks only at the functions of hooks that stand in a pipeline.
pub from_registry_panics :
    (reg : KernelRegistry) (h : HookId)
    → verify reg ≡ ok tt
    → In h (keys reg.hooks)
    → lookup h reg.fns ≡ none
    → from_registry reg ≡ none
unfolding from_registry compile_verified compile_hook
from_registry_panics reg h verified i missing =
    let (spec, e) = lookup-In-keys h reg.hooks i in
    rw (
      verified,
      traverse-none (compile_hook reg) i (rw (e, missing, compile_hook)),
      from_registry,
      compile_verified,
    )
