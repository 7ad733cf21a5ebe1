-- ===== src/Registry.antt =====
-- crates/denju-registry: what the registry does of the requests that change it. A table is the list
-- of its rows, and a transaction that fails leaves every table as it was.
pub mod Api
pub mod Tables
pub mod Access
pub mod Outbox
pub mod Release
pub mod Social
