-- ===== src/Core/Snapshot/Archive.antt =====
-- Deterministic archives (crates/denju-core/src/snapshot.rs). The crates `tar` and `zstd` together
-- are a parameter: a format that writes items and reads them back.
use Prim.Native.Nat.{bit_and}
use native.Mathlib.Decide.{ℕ_discrete}
use denju.Base.{ℕ, not, Option, some, List, [], ◌∷◌, if◌then◌else◌, nat_eq}
use denju.Base.{◌==◌, text_Eq, Eq, Text, Bytes, sort_by, try_map}
use denju.Base.{Result, ok, err, ◌>>=◌, ◌>>◌, ok_or, map_err, reject}
use denju.Core.Unicode.{Unicode}
use denju.Core.Object.{Digest}
use denju.Core.Entry.{OwnedSkillEntry, path_cmp}
use denju.Core.Skill.{Yaml}
use denju.Core.PortablePath.{slash}
use denju.Core.Snapshot.Manifest.{
  SkillManifest, SnapshotError, io, archive_path_not_utf8, unsupported_archive_entry,
  missing_symlink_target, manifest_mismatch,
}
use denju.Core.Snapshot.Build.{size_field, build_skill_manifest}

pub data ItemType : Type 0 where
  regular directory symlink other : ItemType

-- A link's name in an item: absent, no UTF-8, or a text.
pub data LinkName : Type 0 where
  absent not_text : LinkName
  text : Text → LinkName

-- One member of an archive. Its path is `none` if it is not UTF-8.
pub record ArchiveItem : Type 0 where
  pub path : Option Text
  pub item_type : ItemType
  pub mode : ℕ
  pub link : LinkName
  pub content : Bytes

pub record ArchiveFormat : Type 0 where
  -- the compressed bytes of these members, or an I/O error
  pub write : List ArchiveItem → Result Text Bytes
  -- the members of an archive up to the end or the first error
  pub read : Bytes → Result Text (List (Result Text ArchiveItem))

unfoldable pub SkillManifest-discrete : Discrete SkillManifest
unfolding ℕ_discrete
SkillManifest-discrete = hlevel ℕ_discrete

instance abbrev pub manifest_Eq : Eq SkillManifest
manifest_Eq = record { discrete = SkillManifest-discrete }

-- `append_entry`: the header and the content of one entry.
unfoldable pub archive_item : OwnedSkillEntry → Result SnapshotError ArchiveItem
archive_item (OwnedSkillEntry.file path bytes executable) = do
  size ← size_field bytes
  ok (record {
    path = some path;
    item_type = regular;
    mode = if executable then 0o755 else 0o644;
    link = absent;
    content = bytes;
  })
archive_item (OwnedSkillEntry.directory path) =
    ok (record {
      path = some path;
      item_type = directory;
      mode = 0o755;
      link = absent;
      content = [];
    })
archive_item (OwnedSkillEntry.symlink path target) = ok (record {
  path = some path;
  item_type = symlink;
  mode = 0o777;
  link = text target;
  content = [];
})

-- `trim_end_matches('/')`
unfoldable pub trim_slashes : Text → Text
trim_slashes [] = []
trim_slashes (c ∷ s) =
    let tail = trim_slashes s in
    if nat_eq c slash then (if tail == [] then [] else c ∷ tail) else c ∷ tail

link_target : LinkName → Result SnapshotError Text
link_target absent = err missing_symlink_target
link_target not_text = err archive_path_not_utf8
link_target (text target) = ok target

entry_of_type : ItemType → Text → ArchiveItem → Result SnapshotError OwnedSkillEntry
entry_of_type regular path item =
    ok (OwnedSkillEntry.file path item.content (not (nat_eq (bit_and item.mode 0o111) 0)))
entry_of_type directory path item = ok (OwnedSkillEntry.directory path)
entry_of_type symlink path item = do
  target ← link_target item.link
  ok (OwnedSkillEntry.symlink path target)
entry_of_type other path item = err unsupported_archive_entry

-- One round of the loop of `validate_skill_snapshot`.
unfoldable pub read_item : Result Text ArchiveItem → Result SnapshotError OwnedSkillEntry
unfolding entry_of_type link_target
read_item next = do
  item ← map_err io next
  raw ← ok_or item.path archive_path_not_utf8
  let path = trim_slashes raw
  reject (path == []) unsupported_archive_entry
  entry_of_type item.item_type path item

pub record DeterministicSkillSnapshot : Type 0 where
  pub manifest : SkillManifest
  pub bytes : Bytes

module _ (u : Unicode) (digest : Digest) (format : ArchiveFormat) (y : Yaml) where
  unfoldable pub build_deterministic_skill_snapshot :
      Text → List OwnedSkillEntry → Result SnapshotError DeterministicSkillSnapshot
  build_deterministic_skill_snapshot parent_directory_name entries = do
    manifest ← build_skill_manifest u digest y parent_directory_name entries
    items ← try_map archive_item (sort_by path_cmp entries)
    bytes ← map_err io (format.write items)
    ok (record { manifest = manifest; bytes = bytes })

  unfoldable pub validate_skill_snapshot :
      Text → SkillManifest → Bytes → Result SnapshotError (List OwnedSkillEntry)
  validate_skill_snapshot parent_directory_name expected compressed = do
    items ← map_err io (format.read compressed)
    entries ← try_map read_item items
    actual ← build_skill_manifest u digest y parent_directory_name entries
    reject (not (actual == expected)) manifest_mismatch
    ok entries
