-- ===== src/Core/PortablePath.antt =====
-- crates/denju-core/src/portable_path.rs: paths that every platform can hold, and trees of them.
mod Path
mod Tree
pub mod Links
mod Kinds
pub mod Valid
pub mod Paths
unfoldable pub use Path.*
unfoldable pub use Tree.*
