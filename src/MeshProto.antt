-- ===== src/MeshProto.antt =====
-- lib/mb-proto-mesh: the mesh protocol.
pub mod Types
pub mod Replay
mod Tests
