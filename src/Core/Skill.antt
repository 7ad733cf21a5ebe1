-- ===== src/Core/Skill.antt =====
-- crates/denju-core/src/skill.rs: names, SKILL.md documents and skill directories.
mod Name
mod Frontmatter
pub mod Words
pub mod Body
mod Document
mod Directory
unfoldable pub use Name.*
unfoldable pub use Frontmatter.*
unfoldable pub use Document.*
unfoldable pub use Directory.*
