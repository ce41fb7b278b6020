-- ===== src/Kernel.antt =====
-- crates/mesh-bus-core/src/kernel: the pipeline kernel.
pub mod Types
pub mod Pipeline
pub mod Registry
pub mod Compiled
pub mod Dispatch
pub mod SourceActivity
mod Tests
