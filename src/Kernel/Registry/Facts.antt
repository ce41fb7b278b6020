-- ===== src/Kernel/Registry/Facts.antt =====
-- What a registry that `verify` accepts promises to the interpreters.
use meshbus_rs.Prelude.{text, text_eq, text_eq_inst, text_eq→eq, List, [], ◌∷◌, values}
use meshbus_rs.Prelude.{true, some, ok, >>-eq-ok, each}
use meshbus_rs.Prelude.{
  each-In, require, require-eq-ok, lookup, lookup-In, contains_key, In, find, keys,
}
use meshbus_rs.Prelude.{contains_key-lookup, ap, ◌≡◌, refl, if◌then◌else◌}
use meshbus_rs.Kernel.Types.{PipelineId, HookId, SinkId, HookSpec, HookFn, Pipeline, KernelRegistry}
use meshbus_rs.Kernel.Registry.Errors.{VerifyError, Verified}
use meshbus_rs.Kernel.Registry.Checks.{check_registry_identities, check_hooks_exist, check_hook_fns}
use meshbus_rs.Kernel.Registry.Checks.{
  check_sink_targets, check_jump_targets, jump_targets, same_id,
}
use meshbus_rs.Kernel.Registry.Checks.{each_pipeline_hook}
use meshbus_rs.Kernel.Registry.JumpDag.{check_jump_dag}
use meshbus_rs.Kernel.Registry.Checks.{check_spec_kinds, check_wirings_exist}
use meshbus_rs.Kernel.Registry.Checks.{check_accept_declarations, check_jump_declarations}
use meshbus_rs.Kernel.Registry.Checks.{check_pipeline_terminates}
use meshbus_rs.Kernel.Registry.Ids.{check_id_shapes}
use meshbus_rs.Kernel.Registry.Metadata.{check_metadata_keys, check_namespace_patterns}
use meshbus_rs.Kernel.Registry.Metadata.{check_namespace_rules, verify}

-- The checks that the theorems use.
pub record Checked (reg : KernelRegistry) : Type 0 where
  pub identities : check_registry_identities reg ≡ ok tt
  pub hooks_exist : check_hooks_exist reg ≡ ok tt
  pub sink_targets : check_sink_targets reg ≡ ok tt
  pub jump_targets_exist : check_jump_targets reg ≡ ok tt
  pub jump_dag : check_jump_dag reg ≡ ok tt
  pub hook_fns : check_hook_fns reg ≡ ok tt

pub verify-Checked : (reg : KernelRegistry) → verify reg ≡ ok tt → Checked reg
unfolding verify
verify-Checked reg h0 =
    let (identities, h1) = >>-eq-ok (check_registry_identities reg) h0 in
    let (ids, h2) = >>-eq-ok (check_id_shapes reg) h1 in
    let (kinds, h3) = >>-eq-ok (check_spec_kinds reg) h2 in
    let (wirings, h4) = >>-eq-ok (check_wirings_exist reg) h3 in
    let (hooks, h5) = >>-eq-ok (check_hooks_exist reg) h4 in
    let (accepts, h6) = >>-eq-ok (check_accept_declarations reg) h5 in
    let (sinks, h7) = >>-eq-ok (check_sink_targets reg) h6 in
    let (jumps, h8) = >>-eq-ok (check_jump_declarations reg) h7 in
    let (targets, h9) = >>-eq-ok (check_jump_targets reg) h8 in
    let (dag, h10) = >>-eq-ok (check_jump_dag reg) h9 in
    let (terminates, h11) = >>-eq-ok (check_pipeline_terminates reg) h10 in
    let (metadata, h12) = >>-eq-ok (check_metadata_keys reg) h11 in
    let (patterns, h13) = >>-eq-ok (check_namespace_patterns reg) h12 in
    let (rules, fns) = >>-eq-ok (check_namespace_rules reg) h13 in
    record {
      identities = identities;
      hooks_exist = hooks;
      sink_targets = sinks;
      jump_targets_exist = targets;
      jump_dag = dag;
      hook_fns = fns;
    }

-- A pipeline that is found by its embedded id is the one under its key.
find-same_id :
    (m : List (PipelineId × Pipeline)) (k : PipelineId)
    → each (λ e. same_id (text "pipeline") e.0 e.1.id) m ≡ ok tt
    → find (λ p. text_eq p.id k) (values m) ≡ lookup k m
unfolding each
find-same_id [] k h = refl
find-same_id ((j, p) ∷ m) k h =
    let same : p.id ≡ j =
      text_eq→eq p.id j (require-eq-ok _ _ (>>-eq-ok (same_id (text "pipeline") j p.id) h).0) in
    let ih = find-same_id m k (>>-eq-ok (same_id (text "pipeline") j p.id) h).1 in
    simp same (ap (λ o. if text_eq j k then some p else o) ih)

-- The check on each hook of each pipeline, at one of them.
pub each_pipeline_hook_at :
    (f : PipelineId → HookId → Verified) (reg : KernelRegistry)
    → each_pipeline_hook f reg ≡ ok tt
    → {k : PipelineId} {p : Pipeline} {h : HookId} → lookup k reg.pipelines ≡ some p
    → In h p.hooks
    → f k h ≡ ok tt
each_pipeline_hook_at f reg c {k} {p} found inside = each-In (f k) inside (
    each-In (λ (e : PipelineId × Pipeline). each (f e.0) e.1.hooks)
      (lookup-In k reg.pipelines found) c)

module _ {reg : KernelRegistry} (c : Checked reg) where
  pub find-values :
      (k : PipelineId) → find (λ p. text_eq p.id k) (values reg.pipelines) ≡ lookup k reg.pipelines
  unfolding check_registry_identities
  find-values k =
      let (sources, h1) =
        >>-eq-ok (each (λ e. same_id (text "source") e.0 e.1.id) reg.sources) c.identities in
      let (sinks, h2) = >>-eq-ok (each (λ e. same_id (text "sink") e.0 e.1.id) reg.sinks) h1 in
      let (hooks, h3) = >>-eq-ok (each (λ e. same_id (text "hook") e.0 e.1.id) reg.hooks) h2 in
      find-same_id reg.pipelines k h3

module _ {reg : KernelRegistry} (c : Checked reg) (k : PipelineId) {p : Pipeline} (h : HookId)
    (found : lookup k reg.pipelines ≡ some p) (inside : In h p.hooks) where
  pub hook_exists : (spec : HookSpec) × (lookup h reg.hooks ≡ some spec)
  unfolding check_hooks_exist
  hook_exists =
      contains_key-lookup h reg.hooks
        (require-eq-ok _ _ (each_pipeline_hook_at _ reg c.hooks_exist found inside))

  pub hook_fn_exists : (f : HookFn) × (lookup h reg.fns ≡ some f)
  unfolding check_hook_fns
  hook_fn_exists = contains_key-lookup h reg.fns (
      require-eq-ok _ _ (
        each_pipeline_hook_at _ reg
          (>>-eq-ok
            (each (λ h. require (contains_key h reg.hooks) (VerifyError.unknown_hook_fn h))
              (keys reg.fns))
            c.hook_fns).1
          found inside))

  pub jump_target_exists :
      {spec : HookSpec} {t : PipelineId}
      → lookup h reg.hooks ≡ some spec
      → In t spec.may_jump_to
      → (q : Pipeline) × (lookup t reg.pipelines ≡ some q)
  unfolding check_jump_targets jump_targets
  jump_target_exists {spec} {t} e i = contains_key-lookup t reg.pipelines (
      require-eq-ok _ _ (
        each-In _ (rw (e, jump_targets) i)
          (each_pipeline_hook_at _ reg c.jump_targets_exist found inside)))

module _ {reg : KernelRegistry} (c : Checked reg) where
  pub sink_exists :
      (h : HookId) {spec : HookSpec} {s : SinkId}
      → lookup h reg.hooks ≡ some spec
      → In s spec.may_accept_to
      → contains_key s reg.sinks ≡ true
  unfolding check_sink_targets
  sink_exists h e i =
      require-eq-ok _ _ (each-In _ i (each-In _ (lookup-In h reg.hooks e) c.sink_targets))
