-- ===== src/Core.antt =====
-- crates/denju-core: the domain values and their validation.
pub mod Entry
pub mod Merge
pub mod Unicode
pub mod PortablePath
pub mod Skill
pub mod Ids
pub mod Object
pub mod Locator
pub mod Snapshot
