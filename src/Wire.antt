-- ===== src/Wire.antt =====
-- crates/denju-wire: the requests of clients and the hashes that bind them to their contents.
pub mod Json
pub mod Types
pub mod Manifest
pub mod Hash
pub mod Mutation
