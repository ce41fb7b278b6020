-- ===== src/Kernel/Registry.antt =====
-- `verify` of kernel/registry/data_handle.rs: every check, in its order.
mod Errors
mod Ids
mod Checks
mod JumpDag
pub mod Acyclic
mod Metadata
pub mod Facts
pub mod Walks
pub mod Depth
pub use Errors.*
unfoldable pub use Ids.*
unfoldable pub use Checks.*
unfoldable pub use JumpDag.*
unfoldable pub use Metadata.*
