-- ===== src/Local.antt =====
-- crates/denju-local: the state on a user's device.
pub mod Watch
