-- ===== src/Wire/Mutation.antt =====
-- crates/denju-wire/src/mutation.rs and mutation/: what the request hashes bind.
pub mod Domain
pub mod Account
pub mod Skill
pub mod Pack
pub mod Team
pub mod Request
pub mod Readers
pub mod Read
pub mod Binding
