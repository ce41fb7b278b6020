-- ===== src/MeshProto/Types.antt =====
-- The wire types of lib/mb-proto-mesh/src/lib.rs that the endpoints' state machines use.
use meshbus_rs.Prelude.{ℕ, Text, List}

pub data CloseReasonWire : Type 0 where
  normal unsupported no_usable_exit protocol_error : CloseReasonWire

-- `u64`, `u32` and `u16` fields are numbers; `Bytes` is a list of them.
pub record DataPackage : Type 0 where
  pub package_id : Text
  pub seq : ℕ
  pub offset : ℕ
  pub len : ℕ
  pub fragment_id : ℕ
  pub fragment_count : ℕ
  pub payload : List ℕ

-- Inclusive on both sides.
pub record SeqRange : Type 0 where
  pub start : ℕ
  pub last : ℕ

pub record AckNack : Type 0 where
  pub family_id : Text
  pub cumulative_seq : ℕ
  pub received_bitmap : Text
  pub missing_ranges : List SeqRange
