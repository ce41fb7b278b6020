-- ===== src/Kernel/Registry/Checks.antt =====
-- The checks of kernel/registry/data_handle.rs on identities, references and declarations.
use meshbus_rs.Prelude.{Text, text, text_eq, text_eq_inst, Bool, false, not, ◌&&◌, ◌||◌}
use meshbus_rs.Prelude.{List, [], ◌∷◌, any, contains, contains_key, lookup, keys, is_empty}
use meshbus_rs.Prelude.{none, some, Result, ok, ◌>>◌, ◌>>=◌, require, each}
use meshbus_rs.Kernel.Types.{HookId, PipelineId}
use meshbus_rs.Kernel.Types.{Wiring, KernelRegistry}
use meshbus_rs.Kernel.Registry.Errors.{VerifyError, Verified}

unfoldable pub check_spec_kinds : KernelRegistry → Verified
check_spec_kinds reg = do
  each
      (λ e.
        require (text_eq e.1.kind (text "application/source"))
          (VerifyError.invalid_source_kind e.0 e.1.kind))
      reg.sources
  each
      (λ e.
        require
          (text_eq e.1.kind (text "stream_egress") || text_eq e.1.kind (text "datagram_egress"))
          (VerifyError.invalid_sink_kind e.0 e.1.kind))
      reg.sinks

-- The key and the embedded id of one entry.
abbrev pub same_id : Text → Text → Text → Verified
same_id kind key id = require (text_eq id key) (VerifyError.registry_identity_mismatch kind key id)

unfoldable pub check_registry_identities : KernelRegistry → Verified
check_registry_identities reg = do
  each (λ e. same_id (text "source") e.0 e.1.id) reg.sources
  each (λ e. same_id (text "sink") e.0 e.1.id) reg.sinks
  each (λ e. same_id (text "hook") e.0 e.1.id) reg.hooks
  each (λ e. same_id (text "pipeline") e.0 e.1.id) reg.pipelines

-- `wired` is the set of the sources met so far.
unfoldable pub check_wirings :
    KernelRegistry → List Text → List Wiring → Result VerifyError (List Text)
check_wirings reg wired [] = ok wired
check_wirings reg wired (w ∷ ws) = do
  require (not (contains w.source wired)) (VerifyError.duplicate_wiring_source w.source)
  require (contains_key w.source reg.sources) (VerifyError.unknown_source w.source)
  require (contains_key w.pipeline reg.pipelines)
      (VerifyError.unknown_wiring_pipeline w.source w.pipeline)
  check_wirings reg (w.source ∷ wired) ws

unfoldable pub check_wirings_exist : KernelRegistry → Verified
check_wirings_exist reg = do
  wired ← check_wirings reg [] reg.wirings
  each (λ s. require (contains s wired) (VerifyError.missing_source_wiring s)) (keys reg.sources)

-- `for hook_id in &pipeline.hooks` inside `for (pid, pipeline) in &reg.pipelines`
abbrev pub each_pipeline_hook : (PipelineId → HookId → Verified) → KernelRegistry → Verified
each_pipeline_hook f reg = each (λ e. each (f e.0) e.1.hooks) reg.pipelines

unfoldable pub check_hooks_exist : KernelRegistry → Verified
check_hooks_exist reg =
    each_pipeline_hook
      (λ pid h. require (contains_key h reg.hooks) (VerifyError.unknown_hook pid h)) reg

unfoldable pub check_hook_fns : KernelRegistry → Verified
check_hook_fns reg = do
  each (λ h. require (contains_key h reg.hooks) (VerifyError.unknown_hook_fn h)) (keys reg.fns)
  each_pipeline_hook (λ pid h. require (contains_key h reg.fns) (VerifyError.missing_hook_fn pid h))
      reg

unfoldable pub check_accept_declarations : KernelRegistry → Verified
check_accept_declarations reg =
    each
      (λ e.
        require (e.1.may_terminate || is_empty e.1.may_accept_to)
          (VerifyError.invalid_accept_declaration e.0))
      reg.hooks

unfoldable pub check_sink_targets : KernelRegistry → Verified
check_sink_targets reg =
    each
      (λ e.
        each (λ s. require (contains_key s reg.sinks) (VerifyError.unknown_sink e.0 s))
          e.1.may_accept_to)
      reg.hooks

unfoldable pub check_jump_declarations : KernelRegistry → Verified
check_jump_declarations reg =
    each
      (λ e.
        require (e.1.may_jump || is_empty e.1.may_jump_to)
          (VerifyError.invalid_jump_declaration e.0))
      reg.hooks

-- The declared jump targets of a hook; none if the hook is not registered.
unfoldable pub jump_targets : KernelRegistry → HookId → List PipelineId
jump_targets reg h = elim (lookup h reg.hooks) [ none ↦ [] | some spec ↦ spec.may_jump_to ]

unfoldable pub check_jump_targets : KernelRegistry → Verified
check_jump_targets reg =
    each_pipeline_hook
      (λ pid h.
        each
          (λ t.
            require (contains_key t reg.pipelines)
              (VerifyError.unknown_pipeline_jump_target pid h t))
          (jump_targets reg h))
      reg

unfoldable pub can_terminate : KernelRegistry → HookId → Bool
can_terminate reg h = elim (lookup h reg.hooks) [
  | none ↦ false
  | some s ↦ s.may_terminate || (s.may_jump && not (is_empty s.may_jump_to))
]

unfoldable pub check_pipeline_terminates : KernelRegistry → Verified
check_pipeline_terminates reg =
    each
      (λ e.
        require (any (can_terminate reg) e.1.hooks) (VerifyError.pipeline_does_not_terminate e.0))
      reg.pipelines
