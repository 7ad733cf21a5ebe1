-- ===== src/Base/Strings.antt =====
-- Texts and bytes, UTF-8, and the maps and sets with text keys.
mod Defs
mod Utf8
mod Laws
pub mod Map
pub use Laws.*
unfoldable pub use Defs.*
unfoldable pub use Utf8.*
