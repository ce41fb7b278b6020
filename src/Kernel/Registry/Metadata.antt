-- ===== src/Kernel/Registry/Metadata.antt =====
-- The checks of kernel/registry/data_handle.rs on metadata keys and namespaces, and `verify`.
use meshbus_rs.Prelude.{◌==◌, Text, text, text_eq, text_eq_inst, Bool, true, false, not}
use meshbus_rs.Prelude.{◌&&◌, ◌||◌, List, [], ◌∷◌, ◌++◌, any, all, contains, lookup, is_empty}
use meshbus_rs.Prelude.{none, some, ok, ◌>>◌, require, each}
use meshbus_rs.Prelude.{if◌then◌else◌, strip_prefix, strip_suffix, split_once, split}
use meshbus_rs.Prelude.{is_ascii_alphanumeric}
use meshbus_rs.Kernel.Types.{PipelineId, HookId, HookKind, HookSpec, Wiring, KernelRegistry}
use meshbus_rs.Kernel.Registry.Errors.{VerifyError, Verified}
use meshbus_rs.Kernel.Registry.Ids.{check_id_shapes}
use meshbus_rs.Kernel.Registry.Checks.{
  check_registry_identities, check_spec_kinds, check_wirings_exist, check_hooks_exist,
}
use meshbus_rs.Kernel.Registry.Checks.{
  check_accept_declarations, check_sink_targets, check_jump_declarations,
}
use meshbus_rs.Kernel.Registry.Checks.{
  check_jump_targets, check_pipeline_terminates, check_hook_fns,
}
use meshbus_rs.Kernel.Registry.JumpDag.{check_jump_dag}

abbrev pub verdict_namespaces : List Text
verdict_namespaces = text "policy" ∷ text "auth" ∷ []

abbrev pub metadata_namespaces : List Text
metadata_namespaces =
    text "net" ∷ text "transport" ∷ text "policy" ∷ text "auth" ∷ text "trace" ∷ text "ext" ∷ []

-- What stands before the first dot, or the whole key.
unfoldable pub head_of : Text → Text
head_of key = elim (split_once b'.' key) [ none ↦ key | some (h, rest) ↦ h ]

starts_with_dot : Text → Bool
starts_with_dot [] = false
starts_with_dot (c ∷ cs) = c == b'.'

pattern_covers : Text → Text → Bool
unfolding starts_with_dot
pattern_covers key p = elim (strip_suffix (text ".*") p) [
  | none ↦ false
  | some p_head ↦ elim (strip_prefix p_head key) [ none ↦ false | some rest ↦ starts_with_dot rest ]
]

unfoldable pub ns_covers : List Text → Text → Bool
unfolding pattern_covers
ns_covers patterns key = any (pattern_covers key) patterns

unfoldable pub is_valid_namespace_pattern : Text → Bool
is_valid_namespace_pattern pattern' = elim (strip_suffix (text ".*") pattern') [
  | none ↦ false
  | some h ↦ contains h metadata_namespaces
]

is_valid_key_part : Text → Bool
is_valid_key_part part = not (is_empty part) && all (λ b. is_ascii_alphanumeric b || b == b'_') part

unfoldable pub is_valid_metadata_key : Text → Bool
unfolding is_valid_key_part
is_valid_metadata_key key = elim (split_once b'.' key) [
  | none ↦ false
  | some (h, rest) ↦ contains h metadata_namespaces && all is_valid_key_part (split b'.' rest)
]

abbrev check_key : Text → Text → Verified
check_key owner key =
    require (is_valid_metadata_key key) (VerifyError.invalid_metadata_key owner key)

unfoldable pub check_metadata_keys : KernelRegistry → Verified
check_metadata_keys reg = do
  each (λ e. each (check_key (text "source:" ++ e.0)) e.1.initial_writes) reg.sources
  each (λ e. each (check_key (text "hook:" ++ e.0)) (e.1.reads ++ e.1.writes)) reg.hooks

unfoldable pub check_namespace_patterns : KernelRegistry → Verified
check_namespace_patterns reg =
    each
      (λ e.
        each
          (λ p.
            require (is_valid_namespace_pattern p) (VerifyError.invalid_namespace_pattern e.0 p))
          e.1.allowed_namespaces)
      reg.hooks

is_policy : HookKind → Bool
is_policy HookKind.policy_hook = true
is_policy _ = false

-- One hook of one pipeline, where `available` are the keys written before it.
unfoldable pub check_hook_namespaces : PipelineId → HookId → HookSpec → List Text → Verified
unfolding is_policy
check_hook_namespaces pid h spec available = do
  require (not (is_policy spec.kind && contains (text "net.payload") spec.reads))
      (VerifyError.policy_reads_payload pid h)
  each
      (λ w.
        require (ns_covers spec.allowed_namespaces w)
          (VerifyError.namespace_violation pid h w (text "write")))
      spec.writes
  each
      (λ r.
        require (ns_covers spec.allowed_namespaces r)
          (VerifyError.namespace_violation pid h r (text "read")))
      spec.reads
  each
      (λ w.
        require (not (spec.side_effect_only && contains (head_of w) verdict_namespaces))
          (VerifyError.side_effect_mutates_verdict pid h w))
      spec.writes
  each (λ r. require (contains r available) (VerifyError.unsatisfied_read pid h r)) spec.reads

-- The hooks of one pipeline in order. A hook that is not registered is passed over.
unfoldable pub check_available : KernelRegistry → PipelineId → List HookId → List Text → Verified
check_available reg pid [] available = ok tt
check_available reg pid (h ∷ hs) available = elim (lookup h reg.hooks) [
  | none ↦ check_available reg pid hs available
  | some spec ↦
      check_hook_namespaces pid h spec available
      >> check_available reg pid hs (spec.writes ++ available)
]

-- The keys that the sources wired to a pipeline write.
unfoldable pub initially_available : KernelRegistry → PipelineId → List Wiring → List Text
initially_available reg pid [] = []
initially_available reg pid (w ∷ ws) =
    let rest = initially_available reg pid ws in
    if text_eq w.pipeline pid
    then elim (lookup w.source reg.sources) [ none ↦ rest | some src ↦ src.initial_writes ++ rest ]
    else rest

unfoldable pub check_namespace_rules : KernelRegistry → Verified
check_namespace_rules reg =
    each (λ e. check_available reg e.0 e.1.hooks (initially_available reg e.0 reg.wirings))
      reg.pipelines

unfoldable pub verify : KernelRegistry → Verified
verify reg = do
  check_registry_identities reg
  check_id_shapes reg
  check_spec_kinds reg
  check_wirings_exist reg
  check_hooks_exist reg
  check_accept_declarations reg
  check_sink_targets reg
  check_jump_declarations reg
  check_jump_targets reg
  check_jump_dag reg
  check_pipeline_terminates reg
  check_metadata_keys reg
  check_namespace_patterns reg
  check_namespace_rules reg
  check_hook_fns reg
