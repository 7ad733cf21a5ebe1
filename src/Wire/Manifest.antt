-- ===== src/Wire/Manifest.antt =====
-- The public form of a manifest (crates/denju-wire/src/public.rs) and that it keeps the manifest.
use denju.Base.{◌≡◌, refl, Option, some, List, [], ◌∷◌, map, arith}
use denju.Base.{Text, Bytes, length, All, Result, ok, ◌>>=◌, map_err, try_map}
use denju.Core.Object.{ObjectId, ObjectIdError, object_id_from_str}
use denju.Core.Snapshot.{SkillManifest, SkillManifestEntry}
use denju.Wire.Types.{PublicSkillManifest, PublicSkillManifestEntry}

-- `hex::encode` and `hex::decode`, and the texts of `ObjectIdError`.
pub record Hex : Type 0 where
  pub encode : Bytes → Text
  pub decode : Text → Option Bytes
  pub error_text : ObjectIdError → Text

-- What is encoded is decoded.
pub record IsHex (x : Hex) : Type 0 where
  pub decode-encode : (b : Bytes) → x.decode (x.encode b) ≡ some b

module _ (x : Hex) where
  unfoldable pub entry_from_core : SkillManifestEntry → PublicSkillManifestEntry
  entry_from_core (SkillManifestEntry.file path blob size executable) =
      PublicSkillManifestEntry.file path (x.encode blob.bytes) size executable
  entry_from_core (SkillManifestEntry.directory path) = PublicSkillManifestEntry.directory path
  entry_from_core (SkillManifestEntry.symlink path target) =
      PublicSkillManifestEntry.symlink path target

  unfoldable pub from_core : SkillManifest → PublicSkillManifest
  unfolding entry_from_core
  from_core manifest = record {
    root_tree_id = x.encode manifest.root_tree.bytes;
    entries = map entry_from_core manifest.entries;
  }

  unfoldable pub parse_id : Text → Result Text ObjectId
  parse_id value = map_err x.error_text (object_id_from_str x.decode value)

  unfoldable pub entry_to_core : PublicSkillManifestEntry → Result Text SkillManifestEntry
  unfolding parse_id
  entry_to_core (PublicSkillManifestEntry.file path blob_id size executable) = do
    blob ← parse_id blob_id
    ok (SkillManifestEntry.file path blob size executable)
  entry_to_core (PublicSkillManifestEntry.directory path) = ok (SkillManifestEntry.directory path)
  entry_to_core (PublicSkillManifestEntry.symlink path target) =
      ok (SkillManifestEntry.symlink path target)

  unfoldable pub to_core : PublicSkillManifest → Result Text SkillManifest
  unfolding entry_to_core
  to_core manifest = do
    root_tree ← parse_id manifest.root_tree_id
    entries ← try_map entry_to_core manifest.entries
    ok (record { root_tree = root_tree; entries = entries })

-- Identities have 32 bytes, as the source's `[u8; 32]`.
abbrev pub HasIds : SkillManifestEntry → Type 0
HasIds (SkillManifestEntry.file path blob size executable) = length blob.bytes ≡ 32
HasIds (SkillManifestEntry.directory path) = Unit
HasIds (SkillManifestEntry.symlink path target) = Unit

module _ (x : Hex) (law : IsHex x) where
  parse_id-encode : (id : ObjectId) → length id.bytes ≡ 32 → parse_id x (x.encode id.bytes) ≡ ok id
  unfolding parse_id object_id_from_str
  parse_id-encode id e = rw (law.decode-encode id.bytes) (ground (arith, e))

  entry_to_core-entry_from_core :
      (entry : SkillManifestEntry)
      → HasIds entry
      → entry_to_core x (entry_from_core x entry) ≡ ok entry
  unfolding entry_to_core entry_from_core
  entry_to_core-entry_from_core (SkillManifestEntry.file path blob size executable) e =
      rw (parse_id-encode blob e)
  entry_to_core-entry_from_core (SkillManifestEntry.directory path) e = refl
  entry_to_core-entry_from_core (SkillManifestEntry.symlink path target) e = refl

  entries_lem :
      (entries : List SkillManifestEntry)
      → All HasIds entries
      → try_map (entry_to_core x) (map (entry_from_core x) entries) ≡ ok entries
  unfolding try_map
  entries_lem [] a = refl
  entries_lem (entry ∷ entries) a =
      rw (entry_to_core-entry_from_core entry a.0, entries_lem entries a.1)

  -- A manifest whose identities have 32 bytes is read back from its public form, where what `hex` encodes
  -- it decodes.
  pub to_core-from_core :
      (manifest : SkillManifest)
      → length manifest.root_tree.bytes ≡ 32
      → All HasIds manifest.entries
      → to_core x (from_core x manifest) ≡ ok manifest
  unfolding to_core from_core
  to_core-from_core manifest root ids =
      rw (parse_id-encode manifest.root_tree root, entries_lem manifest.entries ids)
