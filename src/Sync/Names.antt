-- ===== src/Sync/Names.antt =====
-- Invocation names of managed skills (crates/denju-sync/src/lib.rs).
mod Alias
mod Decimal
pub mod Bounds
pub mod Search
pub mod Canonical
pub mod Claims
pub mod Distinct
pub mod Allocation
mod Allocate
unfoldable pub use Alias.*
unfoldable pub use Allocate.*
