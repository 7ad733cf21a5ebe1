-- ===== src/Core/Snapshot/Build.antt =====
-- Building and checking manifests (crates/denju-core/src/snapshot.rs).
use denju.Base.{
  ℕ, ◌^◌, Bool, true, false, not, ◌&&◌, Option, none, some, List, [], ◌∷◌, map, if◌then◌else◌,
}
use denju.Base.{
  ltb, nat_eq, ◌==◌, text_Eq, Text, Bytes, length, Ordering, text_cmp, sort_by, try_map,
}
use denju.Base.{Result, ok, err, ◌>>=◌, ◌>>◌, ok_or, map_err, reject}
use denju.Core.Unicode.{Unicode}
use denju.Core.PortablePath.{
  PortableEntry, PortableEntryKind, portable_entry, validate_portable_tree,
}
use denju.Core.Object.{ObjectId, Digest, blob_id}
use denju.Core.Entry.{OwnedSkillEntry}
use denju.Core.Skill.{
  SkillEntry, Yaml, missing_skill_md, parse_skill_document, validate_skill_directory, skill_md,
}
use denju.Core.Snapshot.Manifest.{
  SkillManifestEntry, SkillManifest, SkillManifestTree, SnapshotError, skill, portable_path,
  portable_tree, entry_too_large, manifest_mismatch, declared_root_mismatch, manifest_path,
  build_manifest_tree_objects, root_tree_id,
}

-- `OwnedSkillEntry::as_skill_entry`
unfoldable pub as_skill_entry : OwnedSkillEntry → SkillEntry
as_skill_entry (OwnedSkillEntry.file path bytes executable) = SkillEntry.file path bytes executable
as_skill_entry (OwnedSkillEntry.directory path) = SkillEntry.directory path
as_skill_entry (OwnedSkillEntry.symlink path target) = SkillEntry.symlink path target

-- `u64::try_from(bytes.len())`
abbrev pub size_field : Bytes → Result SnapshotError ℕ
size_field bytes = if ltb (length bytes) (2 ^ 64) then ok (length bytes) else err entry_too_large

unfoldable pub manifest_entry : Digest → OwnedSkillEntry → Result SnapshotError SkillManifestEntry
manifest_entry digest (OwnedSkillEntry.file path bytes executable) = do
  size ← size_field bytes
  ok (SkillManifestEntry.file path (blob_id digest bytes) size executable)
manifest_entry digest (OwnedSkillEntry.directory path) = ok (SkillManifestEntry.directory path)
manifest_entry digest (OwnedSkillEntry.symlink path target) =
    ok (SkillManifestEntry.symlink path target)

abbrev pub manifest_cmp : SkillManifestEntry → SkillManifestEntry → Ordering
manifest_cmp left right = text_cmp (manifest_path left) (manifest_path right)

-- The first file named SKILL.md, with its identity and its size.
unfoldable pub find_skill_md : List SkillManifestEntry → Option (ObjectId × ℕ)
find_skill_md [] = none
find_skill_md (SkillManifestEntry.file path blob size executable ∷ rest) =
    if path == skill_md then some (blob, size) else find_skill_md rest
find_skill_md (_ ∷ rest) = find_skill_md rest

abbrev is_found {ℓ} : {A : Type ℓ} → Option A → Bool
is_found none = false
is_found (some a) = true

module _ (u : Unicode) (digest : Digest) where
  unfoldable pub build_skill_manifest :
      Yaml → Text → List OwnedSkillEntry → Result SnapshotError SkillManifest
  build_skill_manifest y parent_directory_name entries = do
    valid ←
        map_err skill
          (validate_skill_directory u y parent_directory_name (map as_skill_entry entries))
    unsorted ← try_map (manifest_entry digest) entries
    let manifest_entries = sort_by manifest_cmp unsorted
    trees ← build_manifest_tree_objects u digest manifest_entries
    root ← root_tree_id trees
    ok (record { root_tree = root; entries = manifest_entries })

  unfoldable pub portable_of : SkillManifestEntry → Result SnapshotError PortableEntry
  portable_of (SkillManifestEntry.file path blob size executable) =
      map_err portable_path (portable_entry u path (PortableEntryKind.file executable))
  portable_of (SkillManifestEntry.directory path) =
      map_err portable_path (portable_entry u path PortableEntryKind.directory)
  portable_of (SkillManifestEntry.symlink path target) =
      map_err portable_path (portable_entry u path (PortableEntryKind.symlink target))

  drop_paths : List (Text × SkillManifestTree) → List SkillManifestTree
  drop_paths = map (λ (path, tree). tree)

  unfoldable pub validate_declared_skill_manifest :
      SkillManifest → Result SnapshotError (List SkillManifestTree)
  unfolding drop_paths
  validate_declared_skill_manifest manifest = do
    portable ← try_map portable_of manifest.entries
    valid ← map_err portable_tree (validate_portable_tree u portable)
    reject (not (is_found (find_skill_md manifest.entries))) (skill missing_skill_md)
    trees ← build_manifest_tree_objects u digest manifest.entries
    root ← root_tree_id trees
    reject (not (root.bytes == manifest.root_tree.bytes)) declared_root_mismatch
    ok (drop_paths trees)

  unfoldable pub build_skill_manifest_from_hashed_entries :
      Yaml → Text → Bytes → List SkillManifestEntry → Result SnapshotError SkillManifest
  build_skill_manifest_from_hashed_entries y parent_directory_name skill_md_bytes unsorted = do
    document ← map_err skill (parse_skill_document y parent_directory_name skill_md_bytes)
    let entries = sort_by manifest_cmp unsorted
    (blob, size) ← ok_or (find_skill_md entries) (skill missing_skill_md)
    skill_size ← size_field skill_md_bytes
    reject (not (blob.bytes == (blob_id digest skill_md_bytes).bytes && nat_eq size skill_size))
        manifest_mismatch
    trees ← build_manifest_tree_objects u digest entries
    root ← root_tree_id trees
    let manifest : SkillManifest = record { root_tree = root; entries = entries }
    checked ← validate_declared_skill_manifest manifest
    ok manifest
