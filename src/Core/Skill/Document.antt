-- ===== src/Core/Skill/Document.antt =====
-- SKILL.md documents (crates/denju-core/src/skill.rs). The crate `serde_yaml` is a parameter.
use denju.Base.{ℕ, Bool, false, not, ◌||◌, Option, none, some, List, [], ◌∷◌, ◌++◌}
use denju.Base.{ltb, ◌==◌, text_Eq, drop, length, Text, Bytes, lit, is_utf8}
use denju.Base.{Result, ok, err, ◌>>=◌, ◌>>◌, ok_or, map_err, reject}
use denju.Base.Strings.Map
use denju.Base.Strings.Map.{Map}
use denju.Core.Skill.Name.{
  SkillValidationError, skill_md_not_utf8, invalid_frontmatter, frontmatter_must_be_mapping,
  missing_required_field, invalid_optional_field, name_does_not_match_directory,
  invalid_description, invalid_compatibility, invalid_metadata, validate_skill_name,
}
use denju.Core.Skill.Frontmatter.{split_frontmatter}

-- What the source calls of `serde_yaml`.
pub record Yaml : Type 1 where
  pub Value : Type 0
  pub Mapping : Type 0
  -- `from_str` and `to_string`, on UTF-8 bytes; an error is its message
  pub from_str : Bytes → Result Text Value
  pub to_string : Value → Result Text Bytes
  -- `Value::as_mapping`, `Value::as_str` and a match on `Value::String`
  pub as_mapping : Value → Option Mapping
  pub as_str : Value → Option Text
  pub string_of : Value → Option Text
  -- `Mapping::get` at a string, the pairs of a mapping, and `as_mapping_mut` with `insert`
  pub get : Mapping → Text → Option Value
  pub pairs : Mapping → List (Value × Value)
  pub insert : Value → Text → Text → Value

pub record SkillFrontmatter : Type 0 where
  pub name : Text
  pub description : Text
  pub license : Option Text
  pub compatibility : Option Text
  pub metadata : Map Text
  pub allowed_tools : Option Text

pub record SkillDocument : Type 0 where
  pub frontmatter : SkillFrontmatter
  pub body : Bytes

module _ (y : Yaml) where
  open y use {Value, Mapping}

  abbrev string_field : Option Value → Option Text
  string_field none = none
  string_field (some value) = y.as_str value

  unfoldable pub required_string : Mapping → Text → Result SkillValidationError Text
  required_string mapping field =
      ok_or (string_field (y.get mapping field)) (missing_required_field field)

  optional_value : Text → Option Text → Result SkillValidationError (Option Text)
  optional_value field (some s) = ok (some s)
  optional_value field none = err (invalid_optional_field field)

  unfoldable pub optional_string : Mapping → Text → Result SkillValidationError (Option Text)
  unfolding optional_value
  optional_string mapping field = elim (y.get mapping field) [
    | none ↦ ok none
    | some value ↦ optional_value field (y.string_of value)
  ]

  collect_metadata : Map Text → List (Value × Value) → Result SkillValidationError (Map Text)
  collect_metadata metadata [] = ok metadata
  collect_metadata metadata ((key, value) ∷ rest) = do
    k ← ok_or (y.as_str key) invalid_metadata
    v ← ok_or (y.as_str value) invalid_metadata
    collect_metadata (Map.insert k v metadata) rest

  unfoldable pub metadata_map : Mapping → Result SkillValidationError (Map Text)
  unfolding collect_metadata
  metadata_map mapping = elim (y.get mapping (lit "metadata")) [
    | none ↦ ok []
    | some value ↦ do
      inner ← ok_or (y.as_mapping value) invalid_metadata
      collect_metadata [] (y.pairs inner)
  ]

  -- `from_utf8`, `split_frontmatter`, `from_str` and `as_mapping`: the common prefix of three
  -- functions, with the value, its mapping and the offset of the body.
  unfoldable pub read_mapping : Bytes → Result SkillValidationError (Value × Mapping × ℕ)
  read_mapping bytes = do
    reject (not (is_utf8 bytes)) skill_md_not_utf8
    (source, body_offset) ← split_frontmatter bytes
    value ← map_err invalid_frontmatter (y.from_str source)
    mapping ← ok_or (y.as_mapping value) frontmatter_must_be_mapping
    ok (value, mapping, body_offset)

  abbrev is_bad_compatibility : Option Text → Bool
  is_bad_compatibility none = false
  is_bad_compatibility (some value) = value == [] || ltb 500 (length value)

  unfoldable pub parse_skill_document : Text → Bytes → Result SkillValidationError SkillDocument
  parse_skill_document parent_directory_name bytes = do
    (value, mapping, body_offset) ← read_mapping bytes
    name ← required_string mapping (lit "name")
    validate_skill_name name
    reject (not (name == parent_directory_name))
        (name_does_not_match_directory name parent_directory_name)
    description ← required_string mapping (lit "description")
    reject (description == [] || ltb 1024 (length description)) invalid_description
    license ← optional_string mapping (lit "license")
    compatibility ← optional_string mapping (lit "compatibility")
    reject (is_bad_compatibility compatibility) invalid_compatibility
    allowed_tools ← optional_string mapping (lit "allowed-tools")
    metadata ← metadata_map mapping
    ok (record {
      frontmatter = record {
        name = name;
        description = description;
        license = license;
        compatibility = compatibility;
        metadata = metadata;
        allowed_tools = allowed_tools;
      };
      body = drop body_offset bytes;
    })

  unfoldable pub skill_document_declared_name : Bytes → Result SkillValidationError Text
  skill_document_declared_name bytes = do
    (value, mapping, body_offset) ← read_mapping bytes
    name ← required_string mapping (lit "name")
    validate_skill_name name
    ok name

  unfoldable pub rewrite_skill_document_name :
      Text → Bytes → Text → Result SkillValidationError Bytes
  rewrite_skill_document_name canonical_parent_name bytes projected_name = do
    document ← parse_skill_document canonical_parent_name bytes
    validate_skill_name projected_name
    (value, mapping, body_offset) ← read_mapping bytes
    rendered ←
        map_err invalid_frontmatter (y.to_string (y.insert value (lit "name") projected_name))
    let output = (lit "---\n" ++ (rendered ++ lit "---\n")) ++ document.body
    accepted ← parse_skill_document projected_name output
    ok output
