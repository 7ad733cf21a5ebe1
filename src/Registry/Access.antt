-- ===== src/Registry/Access.antt =====
-- crates/denju-registry/src/identity_support.rs and team_access.rs: who may act and publish.
mod Defs
pub mod Granted
pub mod Publish
unfoldable pub use Defs.*
