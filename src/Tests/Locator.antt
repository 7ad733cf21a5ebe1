-- ===== src/Tests/Locator.antt =====
-- Locators at concrete texts.
use native.Mathlib.Decide.{ℕ_discrete}
use denju.Base.{
  ◌≡◌, refl, lit, Text, ok, err, Result, text_discrete, ◌==◌, split_at, starts_with, last,
  ends_with_char, has_char, strip_prefix, any, all, contains,
}
use denju.Core.PortablePath
use denju.Core.PortablePath.{parse}
use denju.Core.Skill.{validate_skill_name, has_double_hyphen}
use denju.Core.Locator
use denju.Core.Locator.{ResourceLocator, LocatorError, skill, pack, locator_from_str, display}
use denju.Core.Locator.RoundTrip.{
  IsValidLocator, display-locator_from_str, locator_from_str-display,
}
use denju.Tests.Tables.{ascii}

abbrev review : ResourceLocator
review = record { owner = lit "alice"; name = lit "code-review"; kind = skill }

abbrev core_pack : ResourceLocator
core_pack = record { owner = lit "acme"; name = lit "core"; kind = pack }

run : Text → Result LocatorError ResourceLocator
unfolding locator_from_str Locator.read_segments Locator.validate_name
    Locator.validate_namespace_segment Locator.validate_pack_name
    Locator.is_lowercase_portable_segment validate_skill_name has_double_hyphen parse
    PortablePath.validate_portable_path PortablePath.validate_components
    PortablePath.validate_component PortablePath.is_windows_reserved_name
    PortablePath.component_count PortablePath.is_invalid_windows_character ◌==◌ text_discrete
    ℕ_discrete split_at starts_with last ends_with_char has_char strip_prefix any all contains
run = locator_from_str ascii

refused :
    (run (lit "alice/code-review") ≡ err LocatorError.missing_at_sign)
    × (run (lit "@alice/skills/code-review") ≡ err LocatorError.invalid_shape)
    × (run (lit "@Alice/code-review") ≡ err LocatorError.invalid_namespace)
unfolding run
refused = (refl, refl, refl)

review_is_read : locator_from_str ascii (lit "@alice/code-review") ≡ ok review
unfolding run
review_is_read = refl

display-locator_from_str_example : display review ≡ lit "@alice/code-review"
display-locator_from_str_example =
    display-locator_from_str ascii (lit "@alice/code-review") review review_is_read

core_pack-IsValidLocator : IsValidLocator ascii core_pack
unfolding run
core_pack-IsValidLocator = record { owner_valid = refl; name_valid = refl }

locator_from_str-display_example : locator_from_str ascii (display core_pack) ≡ ok core_pack
locator_from_str-display_example = locator_from_str-display ascii core_pack core_pack-IsValidLocator
