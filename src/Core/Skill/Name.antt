-- ===== src/Core/Skill/Name.antt =====
-- `SkillValidationError` and `validate_skill_name` (crates/denju-core/src/skill.rs).
use denju.Base.{ℕ, Bool, false, not, ◌&&◌, ◌||◌, [], ◌∷◌, if◌then◌else◌, leb, nat_eq}
use denju.Base.{Text, starts_with, ends_with_char, all, length, Result, ok, err}
use denju.Core.PortablePath.{PortablePathError, PortableTreeError}

pub data SkillValidationError : Type 0 where
  invalid_name skill_md_not_utf8 missing_frontmatter frontmatter_must_be_mapping :
      SkillValidationError
  invalid_frontmatter : Text → SkillValidationError
  missing_required_field : Text → SkillValidationError
  invalid_optional_field : Text → SkillValidationError
  name_does_not_match_directory : Text → Text → SkillValidationError
  invalid_description invalid_compatibility invalid_metadata : SkillValidationError
  missing_skill_md duplicate_skill_md : SkillValidationError
  portable_path : PortablePathError → SkillValidationError
  portable_tree : PortableTreeError → SkillValidationError

abbrev pub hyphen : ℕ
hyphen = b'-'

abbrev pub is_word_char : ℕ → Bool
is_word_char c = leb b'a' c && leb c b'z' || leb b'0' c && leb c b'9'

-- The source tests the bytes of the name. The bytes of any other character are all above 127.
abbrev pub is_name_char : ℕ → Bool
is_name_char c = is_word_char c || nat_eq c hyphen

-- `name.contains("--")`
unfoldable pub has_double_hyphen : Text → Bool
has_double_hyphen [] = false
has_double_hyphen (c ∷ s) = nat_eq c hyphen && starts_with (hyphen ∷ []) s || has_double_hyphen s

unfoldable pub validate_skill_name : Text → Result SkillValidationError Unit
validate_skill_name name =
    let count = length name in
    if not (leb 1 count && leb count 64)
    then err invalid_name
    else if starts_with (hyphen ∷ []) name
        || ends_with_char hyphen name
        || has_double_hyphen name
        || not (all is_name_char name)
    then err invalid_name
    else ok tt
