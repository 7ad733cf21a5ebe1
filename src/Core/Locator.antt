-- ===== src/Core/Locator.antt =====
-- crates/denju-core/src/locator.rs
mod Defs
pub mod RoundTrip
unfoldable pub use Defs.*
