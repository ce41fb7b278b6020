-- ===== src/Kernel/Tests.antt =====
-- A small registry and the kernel's theorems on it.
use meshbus_rs.Kernel.Registry.{VerifyError}
use meshbus_rs.Prelude.{◌≢◌, err}
use meshbus_rs.Kernel.Registry.Walks.{Walk, verify_acyclic}
use meshbus_rs.Kernel.Registry.Depth.{check_jump_dag-ne-stuck}
use meshbus_rs.Prelude.{text, true, false, [], ◌∷◌, none, some, ok}
use meshbus_rs.Prelude.{◌≡◌, refl, In, head, later, lookup, contains_key, keys, text_eq_inst}
use meshbus_rs.Kernel.Types
use meshbus_rs.Kernel.Registry.{
  verify, check_registry_identities, check_id_shapes, check_source_id, is_valid_id_shape,
  check_sink_id, check_pipeline_id, check_hook_id, check_spec_kinds, check_wirings_exist,
  check_wirings, check_hooks_exist, check_accept_declarations, check_sink_targets,
  check_jump_declarations, can_terminate, check_hook_fns, check_jump_targets,
  check_pipeline_terminates, jump_targets, check_jump_dag, dfs_cycle, jump_graph, pipeline_targets,
  search_all, visit, check_available, check_hook_namespaces, check_metadata_keys,
  check_namespace_patterns, check_namespace_rules, head_of, initially_available,
  is_valid_metadata_key, is_valid_namespace_pattern, ns_covers,
}
use meshbus_rs.Prelude.{
  each, text_eq, is_ascii_alphanumeric, split, split_once, strip_prefix, strip_suffix,
}
use meshbus_rs.Kernel.Compiled.{from_registry, run_pipeline, CompiledKernel}
use meshbus_rs.Kernel.Compiled.Agrees.{run_pipeline-from_registry}
use meshbus_rs.Kernel.Compiled.Panics.{from_registry_total, from_registry_panics}
use meshbus_rs.Kernel.Pipeline.Verified.{run_IsExpected, IsExpected}
use meshbus_rs.Kernel.Pipeline
use meshbus_rs.Kernel.Pipeline.{
  run_pipeline_with_registry, run_loop, run_leave, run_hooks, run_verdict, resolve_hook,
  check_declared,
}

abbrev accept_fn : Types.HookFn
accept_fn ev ctx = (Types.Verdict.accept (text "exit"), ev, ctx)

abbrev jump_fn : Types.HookFn
jump_fn ev ctx = (Types.Verdict.jump (text "main"), ev, ctx)

abbrev jump_spec : Types.HookSpec
jump_spec = record {
  id = text "to_main";
  kind = Types.HookKind.policy_hook;
  allowed_namespaces = [];
  reads = [];
  writes = [];
  may_terminate = false;
  may_jump = true;
  may_jump_to = text "main" ∷ [];
  may_accept_to = [];
  side_effect_only = false;
}

abbrev accept_spec : Types.HookSpec
accept_spec = record {
  id = text "take";
  kind = Types.HookKind.policy_hook;
  allowed_namespaces = [];
  reads = [];
  writes = [];
  may_terminate = true;
  may_jump = false;
  may_jump_to = [];
  may_accept_to = text "exit" ∷ [];
  side_effect_only = false;
}

abbrev small : Types.KernelRegistry
small = record {
  sources =
      (
        text "socks",
        record { id = text "socks"; kind = text "application/source"; initial_writes = [] },
      )
      ∷ [];
  sinks = (text "exit", record { id = text "exit"; kind = text "stream_egress" }) ∷ [];
  hooks = (text "take", accept_spec) ∷ (text "to_main", jump_spec) ∷ [];
  pipelines =
      (text "first", record { id = text "first"; hooks = text "to_main" ∷ [] })
      ∷ (text "main", record { id = text "main"; hooks = text "take" ∷ [] })
      ∷ [];
  wirings = record { source = text "socks"; pipeline = text "first" } ∷ [];
  fns = (text "take", accept_fn) ∷ (text "to_main", jump_fn) ∷ [];
}

small_verified : verify small ≡ ok tt
unfolding verify check_registry_identities check_id_shapes check_source_id is_valid_id_shape
    check_sink_id check_pipeline_id check_hook_id check_spec_kinds check_wirings_exist check_wirings
    check_hooks_exist check_accept_declarations check_sink_targets check_jump_declarations
    can_terminate check_hook_fns check_jump_targets check_pipeline_terminates jump_targets
    check_jump_dag dfs_cycle jump_graph pipeline_targets search_all visit check_available
    check_hook_namespaces check_metadata_keys check_namespace_patterns check_namespace_rules head_of
    initially_available is_valid_metadata_key is_valid_namespace_pattern ns_covers each text_eq
    is_ascii_alphanumeric split split_once strip_prefix strip_suffix
small_verified = refl

abbrev blank : Types.Event
blank = record {
  payload = [];
  meta = record {
    net = record { src_ip = none; dst_host = none; dst_port = none; protocol = none };
    transport = record { deadline_ms = none; schedule_hint = none; schedule_fanout_k = none };
    policy = record { route_group = none };
    auth = record { user = none };
    trace = record { flow_id = none };
    ext = [];
  };
}

abbrev start : Types.KernelCtx
start = record { hook_trace = [] }

first_registered : contains_key (text "first") small.pipelines ≡ true
unfolding text_eq
first_registered = refl

run_IsExpected_example :
    IsExpected small (run_pipeline_with_registry small (text "first") blank start).0
run_IsExpected_example =
    run_IsExpected small (text "first") blank start small_verified first_registered

small_fns : (h : Types.HookId) → In h (keys small.hooks) → contains_key h small.fns ≡ true
unfolding text_eq
small_fns h (head e) = rw e refl
small_fns h (later (head e)) = rw e refl
small_fns h (later (later i)) = elim i [ ]

small_compiled : (ck : CompiledKernel) × (from_registry small ≡ some (ok ck))
small_compiled = from_registry_total small small_verified small_fns

from_registry_total_example : (ck : CompiledKernel) × (from_registry small ≡ some (ok ck))
from_registry_total_example = from_registry_total small small_verified small_fns

run_pipeline-from_registry_example :
    run_pipeline small_compiled.0 (text "first") blank start
    ≡ some (run_pipeline_with_registry small (text "first") blank start)
run_pipeline-from_registry_example =
    run_pipeline-from_registry small small_compiled.0 (text "first") blank start small_compiled.1

-- A hook that stands in no pipeline, and has no function.
abbrev spare_spec : Types.HookSpec
spare_spec = record accept_spec { id = text "spare" }

abbrev with_spare : Types.KernelRegistry
with_spare = record small { hooks = (text "spare", spare_spec) ∷ small.hooks }

with_spare_verified : verify with_spare ≡ ok tt
unfolding verify check_registry_identities check_id_shapes check_source_id is_valid_id_shape
    check_sink_id check_pipeline_id check_hook_id check_spec_kinds check_wirings_exist check_wirings
    check_hooks_exist check_accept_declarations check_sink_targets check_jump_declarations
    can_terminate check_hook_fns check_jump_targets check_pipeline_terminates jump_targets
    check_jump_dag dfs_cycle jump_graph pipeline_targets search_all visit check_available
    check_hook_namespaces check_metadata_keys check_namespace_patterns check_namespace_rules head_of
    initially_available is_valid_metadata_key is_valid_namespace_pattern ns_covers each text_eq
    is_ascii_alphanumeric split split_once strip_prefix strip_suffix
with_spare_verified = refl

spare_missing : lookup (text "spare") with_spare.fns ≡ none
unfolding text_eq
spare_missing = refl

from_registry_panics_example : from_registry with_spare ≡ none
from_registry_panics_example =
    from_registry_panics with_spare (text "spare") with_spare_verified (head refl) spare_missing

-- The run jumps from `first` to `main`, whose hook accepts.
small_accepts :
    (run_pipeline_with_registry small (text "first") blank start).0
    ≡ ok (Types.Verdict.accept (text "exit"))
unfolding run_pipeline_with_registry Pipeline.run_pipeline run_loop run_leave run_hooks run_verdict
    resolve_hook check_declared text_eq
small_accepts = refl

verify_acyclic_example : ¬ Walk small (text "main") (text "main")
verify_acyclic_example = verify_acyclic small (text "main") small_verified

check_jump_dag-ne-stuck_example : check_jump_dag small ≢ err VerifyError.stuck
unfolding check_jump_targets each jump_targets text_eq
check_jump_dag-ne-stuck_example = check_jump_dag-ne-stuck small refl
