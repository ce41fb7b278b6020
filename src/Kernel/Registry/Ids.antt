-- ===== src/Kernel/Registry/Ids.antt =====
-- kernel/registry/id_shape.rs
use meshbus_rs.Prelude.{◌==◌, Text, Bool, not, ◌&&◌, ◌||◌, ◌++◌, all, is_empty}
use meshbus_rs.Prelude.{is_ascii_alphanumeric, ◌>>◌, require, each, keys, values}
use meshbus_rs.Kernel.Types.{KernelRegistry}
use meshbus_rs.Kernel.Registry.Errors.{VerifyError, Verified}

unfoldable pub is_valid_id_shape : Text → Bool
is_valid_id_shape id =
    not (is_empty id)
    && all (λ b. is_ascii_alphanumeric b || b == b'_' || b == b'.' || b == b':' || b == b'-') id

unfoldable pub check_source_id : Text → Verified
check_source_id id = require (is_valid_id_shape id) (VerifyError.invalid_source_id id)

unfoldable pub check_sink_id : Text → Verified
check_sink_id id = require (is_valid_id_shape id) (VerifyError.invalid_sink_id id)

unfoldable pub check_pipeline_id : Text → Verified
check_pipeline_id id = require (is_valid_id_shape id) (VerifyError.invalid_pipeline_id id)

unfoldable pub check_hook_id : Text → Verified
check_hook_id id = require (is_valid_id_shape id) (VerifyError.invalid_hook_id id)

unfoldable pub check_id_shapes : KernelRegistry → Verified
check_id_shapes reg = do
  each check_source_id (keys reg.sources)
  each (λ w. check_source_id w.source) reg.wirings
  each check_sink_id (keys reg.sinks)
  each check_pipeline_id (keys reg.pipelines)
  each (λ w. check_pipeline_id w.pipeline) reg.wirings
  each check_hook_id (keys reg.hooks ++ keys reg.fns)
  each (λ p. check_pipeline_id p.id >> each check_hook_id p.hooks) (values reg.pipelines)
  each (λ s. check_hook_id s.id >> each check_pipeline_id s.may_jump_to) (values reg.hooks)
  each (λ s. each check_sink_id s.may_accept_to) (values reg.hooks)
