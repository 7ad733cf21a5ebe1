-- ===== src/Core/Snapshot/Manifest.antt =====
-- Manifests and their tree objects (crates/denju-core/src/snapshot.rs).
use Prim.Native.Nat.{compare}
use denju.Base.{ℕ, Bool, Option, none, some, List, [], ◌∷◌, ◌++◌, if◌then◌else◌, nat_eq}
use denju.Base.{◌==◌, text_Eq, Text, lit, length, split_at, Ordering, then_with, text_cmp, sort_by}
use denju.Base.{Result, ok, err, ◌>>=◌, ok_or, map_err}
use denju.Base.Strings.Map
use denju.Base.Strings.Map.{Map}
use denju.Core.Unicode.{Unicode}
use denju.Core.PortablePath.{PortablePathError, PortableTreeError, slash}
use denju.Core.Object.{ObjectId, Digest, TreeEntry, TreeEntryKind, TreeError, tree_entry, tree_id}
use denju.Core.Skill.{SkillValidationError}

pub data SkillManifestEntry : Type 0 where
  file : Text → ObjectId → ℕ → Bool → SkillManifestEntry
  directory : Text → SkillManifestEntry
  symlink : Text → Text → SkillManifestEntry

-- `SkillManifestEntry::path`
unfoldable pub manifest_path : SkillManifestEntry → Text
manifest_path (file path blob size executable) = path
manifest_path (directory path) = path
manifest_path (symlink path target) = path

pub record SkillManifest : Type 0 where
  pub root_tree : ObjectId
  pub entries : List SkillManifestEntry

pub record SkillManifestTree : Type 0 where
  pub id : ObjectId
  pub entries : List TreeEntry

pub data SnapshotError : Type 0 where
  skill : SkillValidationError → SnapshotError
  tree : TreeError → SnapshotError
  portable_path : PortablePathError → SnapshotError
  portable_tree : PortableTreeError → SnapshotError
  io : Text → SnapshotError
  entry_too_large archive_path_not_utf8 unsupported_archive_entry missing_symlink_target :
      SnapshotError
  manifest_mismatch declared_root_mismatch : SnapshotError
  missing_child_tree : Text → SnapshotError

-- `rsplit_once('/')`
unfoldable pub rsplit_slash : Text → Option (Text × Text)
rsplit_slash [] = none
rsplit_slash (c ∷ s) = elim (rsplit_slash s) [
  | some (parent, name) ↦ some (c ∷ parent, name)
  | none ↦ if nat_eq c slash then some ([], s) else none
]

unfoldable pub split_parent : Text → Text × Text
split_parent path = elim (rsplit_slash path) [
  | some (parent, name) ↦ (parent, name)
  | none ↦ ([], path)
]

unfoldable pub path_depth : Text → ℕ
path_depth path = if path == [] then 0 else length (split_at slash path)

-- Deeper directories first, and then the order of the paths.
abbrev pub directory_cmp : Text → Text → Ordering
directory_cmp left right =
    then_with (compare (path_depth right) (path_depth left)) (text_cmp left right)

-- The `filter_map` over the entries.
unfoldable pub directory_paths : List SkillManifestEntry → List Text
directory_paths [] = []
directory_paths (directory path ∷ rest) = path ∷ directory_paths rest
directory_paths (_ ∷ rest) = directory_paths rest

unfoldable pub tree_kind : Map ObjectId → SkillManifestEntry → Result SnapshotError TreeEntryKind
tree_kind tree_ids (file path blob size executable) = ok (TreeEntryKind.file blob executable)
tree_kind tree_ids (directory path) = do
  id ← ok_or (Map.get path tree_ids) (missing_child_tree path)
  ok (TreeEntryKind.directory id)
tree_kind tree_ids (symlink path target) = ok (TreeEntryKind.symlink target)

child_entry : Unicode → Map ObjectId → SkillManifestEntry → Text → Result SnapshotError TreeEntry
child_entry u tree_ids entry name = do
  kind ← tree_kind tree_ids entry
  map_err tree (tree_entry u name kind)

-- The inner loop: the direct children of a directory.
unfoldable pub children_of :
    Unicode → Map ObjectId → Text → List SkillManifestEntry → Result SnapshotError (List TreeEntry)
unfolding child_entry
children_of u tree_ids parent [] = ok []
children_of u tree_ids parent (entry ∷ rest) =
    let (above, name) = split_parent (manifest_path entry) in
    let later = children_of u tree_ids parent rest in
    if above == parent
    then (do child ← child_entry u tree_ids entry name; others ← later; ok (child ∷ others))
    else later

-- The outer loop, with the identities of the trees below.
unfoldable pub build_trees :
    Unicode
    → Digest
    → List SkillManifestEntry
    → Map ObjectId
    → List Text
    → Result SnapshotError (List (Text × SkillManifestTree))
build_trees u digest entries tree_ids [] = ok []
build_trees u digest entries tree_ids (parent ∷ parents) = do
  children ← children_of u tree_ids parent entries
  id ← map_err tree (tree_id digest children)
  rest ← build_trees u digest entries (Map.insert parent id tree_ids) parents
  ok ((parent, record { id = id; entries = children }) ∷ rest)

unfoldable pub build_manifest_tree_objects :
    Unicode
    → Digest
    → List SkillManifestEntry
    → Result SnapshotError (List (Text × SkillManifestTree))
build_manifest_tree_objects u digest entries =
    build_trees u digest entries [] (sort_by directory_cmp (directory_paths entries ++ [] ∷ []))

-- `find(|(path, _)| path.is_empty())`, with its error.
unfoldable pub root_tree_id : List (Text × SkillManifestTree) → Result SnapshotError ObjectId
root_tree_id [] = err (missing_child_tree (lit "<root>"))
root_tree_id ((path, t) ∷ rest) = if path == [] then ok t.id else root_tree_id rest
