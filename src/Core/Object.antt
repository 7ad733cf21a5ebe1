-- ===== src/Core/Object.antt =====
-- crates/denju-core/src/object.rs: content identities of blobs, trees and revisions. The hash of the
-- crate `sha2` and the crate `hex` are parameters.
mod Tree
mod Revisions
pub mod Transcript
pub mod Parents
unfoldable pub use Tree.*
unfoldable pub use Revisions.*
