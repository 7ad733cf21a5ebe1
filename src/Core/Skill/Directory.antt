-- ===== src/Core/Skill/Directory.antt =====
-- Skill directories (crates/denju-core/src/skill.rs).
use denju.Base.{Bool, true, false, Option, none, some, List, [], ◌∷◌, if◌then◌else◌, ◌==◌, text_Eq}
use denju.Base.{Text, Bytes, lit, Result, ok, err, ◌>>=◌, ◌>>◌, ok_or, map_err}
use denju.Core.Unicode.{Unicode}
use denju.Core.PortablePath.{
  PortableEntry, PortableEntryKind, PortableTree, portable_entry, validate_portable_tree,
}
use denju.Core.Skill.Name.{
  SkillValidationError, missing_skill_md, duplicate_skill_md, portable_path, portable_tree,
  validate_skill_name,
}
use denju.Core.Skill.Document.{Yaml, SkillDocument, parse_skill_document}

pub data SkillEntry : Type 0 where
  file : Text → Bytes → Bool → SkillEntry
  directory : Text → SkillEntry
  symlink : Text → Text → SkillEntry

pub record ValidatedSkill : Type 0 where
  pub document : SkillDocument
  pub tree : PortableTree

abbrev pub skill_md : Text
skill_md = lit "SKILL.md"

abbrev pub is_some : Option Bytes → Bool
is_some none = false
is_some (some b) = true

module _ (u : Unicode) where
  -- The portable entry of one skill entry, with the error of `PortableEntry::new` wrapped.
  unfoldable pub to_portable : SkillEntry → Result SkillValidationError PortableEntry
  to_portable (file path bytes executable) =
      map_err portable_path (portable_entry u path (PortableEntryKind.file executable))
  to_portable (directory path) =
      map_err portable_path (portable_entry u path PortableEntryKind.directory)
  to_portable (symlink path target) =
      map_err portable_path (portable_entry u path (PortableEntryKind.symlink target))

  -- `skill_md` after an entry: `replace` at each file named SKILL.md, refused the second time.
  unfoldable pub note_skill_md :
      Option Bytes → SkillEntry → Result SkillValidationError (Option Bytes)
  note_skill_md found (file path bytes executable) =
      if path == skill_md
      then (if is_some found then err duplicate_skill_md else ok (some bytes))
      else ok found
  note_skill_md found (directory path) = ok found
  note_skill_md found (symlink path target) = ok found

  -- The loop over the entries.
  unfoldable pub collect_portable :
      Option Bytes
      → List SkillEntry
      → Result SkillValidationError (List PortableEntry × Option Bytes)
  collect_portable found [] = ok ([], found)
  collect_portable found (entry ∷ entries) = do
    portable ← to_portable entry
    found' ← note_skill_md found entry
    (rest, last) ← collect_portable found' entries
    ok (portable ∷ rest, last)

  unfoldable pub validate_skill_directory :
      Yaml → Text → List SkillEntry → Result SkillValidationError ValidatedSkill
  validate_skill_directory y parent_directory_name entries = do
    validate_skill_name parent_directory_name
    (portable_entries, found) ← collect_portable none entries
    tree ← map_err portable_tree (validate_portable_tree u portable_entries)
    bytes ← ok_or found missing_skill_md
    document ← parse_skill_document y parent_directory_name bytes
    ok (record { document = document; tree = tree })
