-- ===== src/Registry/Outbox.antt =====
-- crates/denju-registry/src/outbox.rs: the events that wake other instances, written in the
-- transaction of the change that they report and dispatched later.
mod Defs
pub mod Order
pub mod Drain
pub mod Enqueue
pub mod Fifo
pub mod Queue
unfoldable pub use Defs.*
