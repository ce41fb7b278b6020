-- ===== src/Kernel/Types.antt =====
-- The kernel's data: crates/mesh-bus-core/src/kernel/{verdict,event,metadata,pipeline,registry}/types.rs
-- and the trace record of event/data_handle.rs.
use meshbus_rs.Prelude.{ℕ, Text, text, Bool, Option, List}

abbrev pub PipelineId : Type 0
PipelineId = Text

abbrev pub SinkId : Type 0
SinkId = Text

abbrev pub SourceId : Type 0
SourceId = Text

abbrev pub HookId : Type 0
HookId = Text

pub record Reason : Type 0 where
  pub code : Text
  pub detail : Option Text

pub data Verdict : Type 0 where
  continue : Verdict
  jump : PipelineId → Verdict
  accept : SinkId → Verdict
  reject : Reason → Verdict
  drop_event : Verdict

pub data MetaValue : Type 0 where
  string : Text → MetaValue
  u64 : ℕ → MetaValue
  bool : Bool → MetaValue
  bytes : List ℕ → MetaValue

pub data ScheduleHintLabel : Type 0 where
  ordered fan_out stripe : ScheduleHintLabel

pub record NetMeta : Type 0 where
  pub src_ip : Option Text
  pub dst_host : Option Text
  pub dst_port : Option ℕ
  pub protocol : Option Text

pub record TransportMeta : Type 0 where
  pub deadline_ms : Option ℕ
  pub schedule_hint : Option ScheduleHintLabel
  pub schedule_fanout_k : Option ℕ

pub record PolicyMeta : Type 0 where
  pub route_group : Option Text

pub record AuthMeta : Type 0 where
  pub user : Option Text

pub record TraceMeta : Type 0 where
  pub flow_id : Option Text

pub record TypedMap : Type 0 where
  pub net : NetMeta
  pub transport : TransportMeta
  pub policy : PolicyMeta
  pub auth : AuthMeta
  pub trace : TraceMeta
  pub ext : List (Text × MetaValue)

pub record Event : Type 0 where
  pub payload : List ℕ
  pub meta : TypedMap

pub record HookTrace : Type 0 where
  pub hook_id : HookId
  pub verdict : Text

pub record KernelCtx : Type 0 where
  pub hook_trace : List HookTrace

-- A function pointer that may change the event and the context.
abbrev pub HookFn : Type 0
HookFn = Event → KernelCtx → Verdict × Event × KernelCtx

pub data HookKind : Type 0 where
  net_hook transport_hook policy_hook auth_hook side_effect_hook : HookKind

pub record HookSpec : Type 0 where
  pub id : HookId
  pub kind : HookKind
  pub allowed_namespaces : List Text
  pub reads : List Text
  pub writes : List Text
  pub may_terminate : Bool
  pub may_jump : Bool
  pub may_jump_to : List PipelineId
  pub may_accept_to : List SinkId
  pub side_effect_only : Bool

pub record SourceSpec : Type 0 where
  pub id : SourceId
  pub kind : Text
  pub initial_writes : List Text

pub record SinkSpec : Type 0 where
  pub id : SinkId
  pub kind : Text

pub record Pipeline : Type 0 where
  pub id : PipelineId
  pub hooks : List HookId

pub record Wiring : Type 0 where
  pub source : SourceId
  pub pipeline : PipelineId

-- Each `BTreeMap` is the list of its entries in key order.
pub record KernelRegistry : Type 0 where
  pub sources : List (SourceId × SourceSpec)
  pub sinks : List (SinkId × SinkSpec)
  pub hooks : List (HookId × HookSpec)
  pub pipelines : List (PipelineId × Pipeline)
  pub wirings : List Wiring
  pub fns : List (HookId × HookFn)

unfoldable pub verdict_label : Verdict → Text
verdict_label continue = text "Continue"
verdict_label (jump p) = text "Jump"
verdict_label (accept s) = text "Accept"
verdict_label (reject r) = text "Reject"
verdict_label drop_event = text "Drop"

unfoldable pub hook_trace_record : HookId → Verdict → HookTrace
hook_trace_record h v = record { hook_id = h; verdict = verdict_label v }
