-- ===== src/Core/PortablePath/Tree.antt =====
-- Trees of portable paths (crates/denju-core/src/portable_path.rs).
use mathlib.Core.List.{flat_map}
use denju.Base.{ℕ, zero, suc, ◌+◌, ◌-◌, Bool, true, not, ◌||◌, none, some, List, [], ◌∷◌}
use denju.Base.{
  if◌then◌else◌, nat_eq, ◌==◌, text_Eq, length, take, Text, lit, split_at, join, starts_with,
  has_char,
}
use denju.Base.{Result, ok, err, ◌>>=◌, ◌>>◌, map_err, Ordering, text_cmp, sort_by}
use denju.Base.Strings.Map
use denju.Base.Strings.Map.{Map}
use denju.Core.Unicode.{Unicode}
use denju.Core.PortablePath.Path.{
  PortablePath, PortablePathError, parse, components, component_count, validate_component, is_empty,
  slash, backslash, not_nfc,
}

pub data PortableEntryKind : Type 0 where
  file : Bool → PortableEntryKind
  directory : PortableEntryKind
  symlink : Text → PortableEntryKind

pub record PortableEntry : Type 0 where
  pub path : PortablePath
  pub kind : PortableEntryKind

-- `PortableEntry::new`
unfoldable pub portable_entry :
    Unicode → Text → PortableEntryKind → Result PortablePathError PortableEntry
portable_entry u path kind = do p ← parse u path; ok (record { path = p; kind = kind })

pub record PortableTree : Type 0 where
  pub entries : List PortableEntry

pub data PortableTreeError : Type 0 where
  case_collision : Text → Text → PortableTreeError
  non_directory_parent : Text → Text → PortableTreeError
  missing_parent_directory : Text → Text → PortableTreeError
  invalid_symlink_target : Text → PortableTreeError
  escaping_symlink : Text → Text → PortableTreeError
  invalid_symlink_target_component : Text → PortablePathError → PortableTreeError

pub data EntryClass : Type 0 where
  file directory symlink : EntryClass

unfoldable pub entry_class : PortableEntryKind → EntryClass
entry_class (PortableEntryKind.file executable) = EntryClass.file
entry_class PortableEntryKind.directory = EntryClass.directory
entry_class (PortableEntryKind.symlink target) = EntryClass.symlink

unfoldable pub fold_case : Unicode → Text → Text
fold_case u value = flat_map u.to_lowercase value

-- The first loop of `validate_portable_tree`: case collisions, and the class of each path.
unfoldable pub collect_kinds :
    Unicode
    → Map Text
    → Map EntryClass
    → List PortableEntry
    → Result PortableTreeError (Map EntryClass)
collect_kinds u folded_paths kinds [] = ok kinds
collect_kinds u folded_paths kinds (entry ∷ entries) =
    let path = entry.path.as_str in
    let folded = fold_case u path in
    let rest =
      collect_kinds u (Map.insert folded path folded_paths)
        (Map.insert path (entry_class entry.kind) kinds) entries in
    elim (Map.get folded folded_paths) [
      | some existing ↦ err (case_collision existing path)
      | none ↦ rest
    ]

-- The rounds `end, end + 1, …` of the loop over the proper prefixes of a path.
unfoldable pub ensure_parents :
    Map EntryClass → Text → List Text → ℕ → ℕ → Result PortableTreeError Unit
ensure_parents kinds child parts stop zero = ok tt
ensure_parents kinds child parts stop (suc rounds) =
    let parent = join slash (take stop parts) in
    let rest = ensure_parents kinds child parts (suc stop) rounds in
    elim (Map.get parent kinds) [
      | none ↦ err (missing_parent_directory parent child)
      | some class ↦ elim class [
        | directory ↦ rest
        | file ↦ err (non_directory_parent parent child)
        | symlink ↦ err (non_directory_parent parent child)
      ]
    ]

unfoldable pub ensure_parent_components_are_directories :
    PortablePath → Map EntryClass → Result PortableTreeError Unit
ensure_parent_components_are_directories path kinds =
    let parts = components path in ensure_parents kinds path.as_str parts 1 (length parts - 1)

-- The loop over the components of a link's target, with the depth below the root.
unfoldable pub follow_target : Text → Text → ℕ → List Text → Result PortableTreeError Unit
follow_target path target depth [] = ok tt
follow_target path target depth (component ∷ rest) =
    let same = follow_target path target depth rest in
    let up = follow_target path target (depth - 1) rest in
    let down = follow_target path target (depth + 1) rest in
    if is_empty component
    then err (invalid_symlink_target path)
    else if component == lit "."
    then same
    else if component == lit ".."
    then (if nat_eq depth 0 then err (escaping_symlink path target) else up)
    else (map_err (invalid_symlink_target_component path) (validate_component component true)
        >> down)

module _ (u : Unicode) where
  unfoldable pub validate_symlink_target : PortablePath → Text → Result PortableTreeError Unit
  validate_symlink_target path target =
      if is_empty target
        || starts_with (slash ∷ []) target
        || starts_with (backslash ∷ []) target
        || has_char backslash target
        || has_char 0 target
      then err (invalid_symlink_target path.as_str)
      else if not (u.nfc target == target)
      then err (invalid_symlink_target_component path.as_str not_nfc)
      else follow_target path.as_str target (component_count path - 1) (split_at slash target)

  unfoldable pub check_link : PortablePath → PortableEntryKind → Result PortableTreeError Unit
  check_link path (PortableEntryKind.file executable) = ok tt
  check_link path PortableEntryKind.directory = ok tt
  check_link path (PortableEntryKind.symlink target) = validate_symlink_target path target

  -- The second loop of `validate_portable_tree`.
  unfoldable pub check_entries : Map EntryClass → List PortableEntry → Result PortableTreeError Unit
  check_entries kinds [] = ok tt
  check_entries kinds (entry ∷ entries) = do
    ensure_parent_components_are_directories entry.path kinds
    check_link entry.path entry.kind
    check_entries kinds entries

  abbrev pub entry_cmp : PortableEntry → PortableEntry → Ordering
  entry_cmp left right = text_cmp left.path.as_str right.path.as_str

  unfoldable pub validate_portable_tree : List PortableEntry → Result PortableTreeError PortableTree
  validate_portable_tree unsorted = do
    let entries = sort_by entry_cmp unsorted
    kinds ← collect_kinds u [] [] entries
    check_entries kinds entries
    ok (record { entries = entries })
