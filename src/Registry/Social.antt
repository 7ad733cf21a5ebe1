-- ===== src/Registry/Social.antt =====
-- crates/denju-registry/src/social.rs: profiles, follows, stars, topics and reports.
pub mod Responses
pub mod Topics
pub mod Normal
pub mod Operations
pub mod Statements
pub mod Handlers
pub mod Calls
pub mod Prepared
pub mod Kept
pub mod Replay
pub mod Later
pub mod Once
pub mod Stars
pub mod Counts
pub mod Starred
