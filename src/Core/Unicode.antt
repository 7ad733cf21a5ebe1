-- ===== src/Core/Unicode.antt =====
-- Tables of Unicode that are not code of the repository: the crate `unicode_normalization`, and the
-- case mappings of `char`.
use denju.Base.{ℕ, Bool, Text}

pub record Unicode : Type 0 where
  -- `nfc().collect::<String>()`
  pub nfc : Text → Text
  -- `char::to_lowercase`
  pub to_lowercase : ℕ → Text
  -- `char::is_uppercase`
  pub is_uppercase : ℕ → Bool
