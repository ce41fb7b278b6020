-- ===== src/Kernel/Registry/Errors.antt =====
-- kernel/registry/verify_error.rs
use meshbus_rs.Prelude.{Text, Result}

-- `stuck` is no Rust value: the search of `check_jump_dag` ran out of fuel.
pub data VerifyError : Type 0 where
  unknown_hook : (pipeline hook : Text) → VerifyError
  missing_hook_fn : (pipeline hook : Text) → VerifyError
  unknown_hook_fn : (hook : Text) → VerifyError
  registry_identity_mismatch : (kind key id : Text) → VerifyError
  invalid_source_id : (source_id : Text) → VerifyError
  invalid_sink_id : (sink_id : Text) → VerifyError
  invalid_pipeline_id : (pipeline_id : Text) → VerifyError
  invalid_hook_id : (hook_id : Text) → VerifyError
  invalid_source_kind : (source_id kind : Text) → VerifyError
  invalid_sink_kind : (sink_id kind : Text) → VerifyError
  unknown_source : (source_id : Text) → VerifyError
  unknown_wiring_pipeline : (source_id pipeline : Text) → VerifyError
  duplicate_wiring_source : (source_id : Text) → VerifyError
  missing_source_wiring : (source_id : Text) → VerifyError
  unknown_sink : (hook sink : Text) → VerifyError
  invalid_accept_declaration : (hook : Text) → VerifyError
  unknown_pipeline_jump_target : (from hook to : Text) → VerifyError
  invalid_jump_declaration : (hook : Text) → VerifyError
  jump_cycle : Text → VerifyError
  unsatisfied_read : (pipeline hook key : Text) → VerifyError
  namespace_violation : (pipeline hook key side : Text) → VerifyError
  invalid_metadata_key : (owner key : Text) → VerifyError
  invalid_namespace_pattern : (hook pattern : Text) → VerifyError
  policy_reads_payload : (pipeline hook : Text) → VerifyError
  side_effect_mutates_verdict : (pipeline hook key : Text) → VerifyError
  pipeline_does_not_terminate : Text → VerifyError
  stuck : VerifyError

abbrev pub Verified : Type 0
Verified = Result VerifyError (Unit {0})
