-- ===== src/Reorder.antt =====
-- lib/mb-reorder/src/lib.rs: ordered delivery of a family of packages, and the plain reorder buffer.
-- Sequence numbers are counters below 2^64 that the code increments only; no wrap is modelled.
pub mod Family
pub mod Buffer
mod Tests
