-- ===== src/Base/Order.antt =====
-- Comparison functions, the stable sort, and their laws.
mod Defs
mod Laws
mod Sort
unfoldable pub use Defs.*
pub use Sort.*
pub use Laws.*
