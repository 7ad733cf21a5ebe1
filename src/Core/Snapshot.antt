-- ===== src/Core/Snapshot.antt =====
-- crates/denju-core/src/snapshot.rs: manifests of skill trees and their deterministic archives.
mod Manifest
mod Build
mod Archive
unfoldable pub use Manifest.*
unfoldable pub use Build.*
unfoldable pub use Archive.*
