-- ===== src/Sync/Desired.antt =====
-- `resolve_desired_sources` of crates/denju-sync/src/lib.rs.
mod Defs
pub mod Choice
unfoldable pub use Defs.*
