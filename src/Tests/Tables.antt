-- ===== src/Tests/Tables.antt =====
-- Stand-ins for the Unicode tables: texts are normal, and letters have case in ASCII alone.
use denju.Base.{ℕ, ◌+◌, Bool, ◌&&◌, [], ◌∷◌, leb, if◌then◌else◌}
use denju.Core.Unicode.{Unicode}

abbrev is_upper : ℕ → Bool
is_upper c = leb b'A' c && leb c b'Z'

abbrev pub ascii : Unicode
ascii = record {
  nfc = λ s. s;
  to_lowercase = λ c. if is_upper c then (c + 32) ∷ [] else c ∷ [];
  is_uppercase = is_upper;
}
