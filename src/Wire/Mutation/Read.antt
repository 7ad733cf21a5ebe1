-- ===== src/Wire/Mutation/Read.antt =====
-- Requests read back from what is hashed of them (crates/denju-wire/src/mutation.rs).
pub mod Values
pub mod Terminated
mod Intents
pub mod Account
pub mod Skill
pub mod Pack
pub mod Team
