-- ===== src/Sync.antt =====
-- crates/denju-sync: what should be on a device, and under which names.
pub mod Desired
pub mod Names
