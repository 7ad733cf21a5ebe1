-- ===== src/Core/PortablePath/Path.antt =====
-- One portable path (crates/denju-core/src/portable_path.rs).

use denju.Base.{ℕ, Bool, true, false, not, ◌&&◌, ◌||◌, none, some, List, [], ◌∷◌, map}
use denju.Base.{if◌then◌else◌, leb, ltb, nat_eq, ◌==◌, text_Eq, any, length, contains, ◌-◌}
use denju.Base.{Text, lit, split_at, starts_with, ends_with_char, has_char, strip_prefix}
use denju.Base.{Result, ok, err, ◌>>◌}
use denju.Core.Unicode.{Unicode}

pub data PortablePathError : Type 0 where
  empty not_relative invalid_component not_nfc invalid_character trailing_dot_or_space :
      PortablePathError
  windows_reserved_name : PortablePathError

-- `char::is_control`: the general category Cc.
abbrev is_control : ℕ → Bool
is_control c = ltb c 32 || leb 127 c && leb c 159

unfoldable pub is_invalid_windows_character : ℕ → Bool
is_invalid_windows_character c = nat_eq c 0 || is_control c || has_char c (lit "<>:\"/\\|?*")

abbrev ascii_uppercase : ℕ → ℕ
ascii_uppercase c = if leb b'a' c && leb c b'z' then c - 32 else c

pub to_ascii_uppercase : Text → Text
to_ascii_uppercase = map ascii_uppercase

-- `split('.').next().unwrap_or(component)`
abbrev stem : Text → Text
stem component = elim (split_at b'.' component) [ [] ↦ component | piece ∷ rest ↦ piece ]

-- The suffixes 1 to 9 and the superscripts one, two and three.
device_suffixes : List Text
device_suffixes =
    lit "1"
    ∷ lit "2"
    ∷ lit "3"
    ∷ lit "4"
    ∷ lit "5"
    ∷ lit "6"
    ∷ lit "7"
    ∷ lit "8"
    ∷ lit "9"
    ∷ (0xB9 ∷ [])
    ∷ (0xB2 ∷ [])
    ∷ (0xB3 ∷ [])
    ∷ []

numbered_device : Text → Text → Bool
unfolding device_suffixes
numbered_device prefix upper = elim (strip_prefix prefix upper) [
  | none ↦ false
  | some suffix ↦ contains device_suffixes suffix
]

unfoldable pub is_windows_reserved_name : Text → Bool
unfolding numbered_device to_ascii_uppercase
is_windows_reserved_name component =
    let upper = to_ascii_uppercase (stem component) in
    contains (lit "CON" ∷ lit "PRN" ∷ lit "AUX" ∷ lit "NUL" ∷ []) upper
    || numbered_device (lit "COM") upper
    || numbered_device (lit "LPT") upper

abbrev pub is_empty : Text → Bool
is_empty [] = true
is_empty (c ∷ s) = false

abbrev pub is_dots : Text → Bool
is_dots component = component == lit "." || component == lit ".."

check_portable_component : Text → Result PortablePathError Unit
check_portable_component component =
    if ends_with_char b'.' component || ends_with_char b' ' component
    then err trailing_dot_or_space
    else if any is_invalid_windows_character component
    then err invalid_character
    else if is_windows_reserved_name component
    then err windows_reserved_name
    else ok tt

unfoldable pub validate_component : Text → Bool → Result PortablePathError Unit
unfolding check_portable_component
validate_component component allow_dot_navigation =
    if is_empty component
    then err invalid_component
    else if is_dots component
    then (if allow_dot_navigation then ok tt else err invalid_component)
    else check_portable_component component

unfoldable pub validate_components : List Text → Result PortablePathError Unit
validate_components [] = ok tt
validate_components (component ∷ rest) = do
  validate_component component false
  validate_components rest

abbrev pub slash : ℕ
slash = b'/'

abbrev pub backslash : ℕ
backslash = 0x5C

module _ (u : Unicode) where
  unfoldable pub validate_portable_path : Text → Result PortablePathError Unit
  validate_portable_path value =
      if is_empty value
      then err empty
      else if starts_with (slash ∷ []) value
          || starts_with (backslash ∷ []) value
          || has_char backslash value
      then err not_relative
      else if not (u.nfc value == value)
      then err not_nfc
      else validate_components (split_at slash value)

-- The newtype `PortablePath(String)`.
pub record PortablePath : Type 0 where
  pub as_str : Text

unfoldable pub parse : Unicode → Text → Result PortablePathError PortablePath
parse u value = do validate_portable_path u value; ok (record { as_str = value })

unfoldable pub components : PortablePath → List Text
components path = split_at slash path.as_str

unfoldable pub component_count : PortablePath → ℕ
unfolding components
component_count path = length (components path)
