-- ===== src/Core/Merge.antt =====
-- crates/denju-core/src/merge.rs: the three-way merge of skill trees.
mod Edits
mod Trees
pub mod Script
pub mod Overlap
pub mod Union
pub mod Symmetry
unfoldable pub use Edits.*
unfoldable pub use Trees.*
