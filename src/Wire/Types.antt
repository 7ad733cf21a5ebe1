-- ===== src/Wire/Types.antt =====
-- The types of crates/denju-wire that requests carry, and the JSON that `serde` gives of them.
use denju.Base.{ℕ, Bool, Option, none, some, List, [], ◌∷◌, Text, lit}
use denju.Wire.Json.{Json, Items, null, boolean, number, string, array, struct, nil, cons}

-- teams.rs
pub data TeamRole : Type 0 where
  owner maintainer member : TeamRole

unfoldable pub role_text : TeamRole → Text
role_text TeamRole.owner = lit "owner"
role_text TeamRole.maintainer = lit "maintainer"
role_text TeamRole.member = lit "member"

abbrev pub role_json : TeamRole → Json
role_json role = string (role_text role)

-- A field with `skip_serializing_if = "Option::is_none"`.
abbrev pub skip_none : Text → Option Json → List (Text × Json) → List (Text × Json)
skip_none key none rest = rest
skip_none key (some value) rest = (key, value) ∷ rest

abbrev pub some_string : Option Text → Option Json
some_string none = none
some_string (some s) = some (string s)

abbrev pub some_number : Option ℕ → Option Json
some_number none = none
some_number (some n) = some (number n)

-- packs.rs
pub record PackMemberTarget : Type 0 where
  pub resource_id : Text
  pub release_version : Option ℕ

unfoldable pub member_json : PackMemberTarget → Json
member_json target = struct (
    (lit "resource_id", string target.resource_id)
    ∷ skip_none (lit "release_version") (some_number target.release_version) [])

unfoldable pub member_items : List PackMemberTarget → Items
member_items [] = nil
member_items (target ∷ rest) = cons (member_json target) (member_items rest)

-- public.rs; `tag = "kind"` puts the variant first.
pub data PublicSkillManifestEntry : Type 0 where
  file : Text → Text → ℕ → Bool → PublicSkillManifestEntry
  directory : Text → PublicSkillManifestEntry
  symlink : Text → Text → PublicSkillManifestEntry

pub record PublicSkillManifest : Type 0 where
  pub root_tree_id : Text
  pub entries : List PublicSkillManifestEntry

unfoldable pub manifest_entry_json : PublicSkillManifestEntry → Json
manifest_entry_json (file path blob_id size executable) = struct (
    (lit "kind", string (lit "file"))
    ∷ (lit "path", string path)
    ∷ (lit "blob_id", string blob_id)
    ∷ (lit "size", number size)
    ∷ (lit "executable", boolean executable)
    ∷ [])
manifest_entry_json (directory path) =
    struct ((lit "kind", string (lit "directory")) ∷ (lit "path", string path) ∷ [])
manifest_entry_json (symlink path target) = struct (
    (lit "kind", string (lit "symlink"))
    ∷ (lit "path", string path)
    ∷ (lit "target", string target)
    ∷ [])

unfoldable pub manifest_entry_items : List PublicSkillManifestEntry → Items
manifest_entry_items [] = nil
manifest_entry_items (entry ∷ rest) = cons (manifest_entry_json entry) (manifest_entry_items rest)

unfoldable pub manifest_json : PublicSkillManifest → Json
manifest_json manifest = struct (
    (lit "root_tree_id", string manifest.root_tree_id)
    ∷ (lit "entries", array (manifest_entry_items manifest.entries))
    ∷ [])

-- workspace.rs
pub record ForkSyncIntent : Type 0 where
  pub expected_sync_base_revision_id : Text
  pub upstream_revision_id : Text

unfoldable pub fork_sync_json : Option ForkSyncIntent → Json
fork_sync_json none = null
fork_sync_json (some intent) = struct (
    (lit "expected_sync_base_revision_id", string intent.expected_sync_base_revision_id)
    ∷ (lit "upstream_revision_id", string intent.upstream_revision_id)
    ∷ [])

-- ingest.rs
pub record ForkImportIntent : Type 0 where
  pub upstream_resource_id : Text
  pub upstream_revision_id : Text
  pub replace_subscription : Bool
  pub promotion_head_revision_id : Option Text
  pub historical_skill_name : Option Text

unfoldable pub fork_import_json : Option ForkImportIntent → Json
fork_import_json none = null
fork_import_json (some intent) = struct (
    (lit "upstream_resource_id", string intent.upstream_resource_id)
    ∷ (lit "upstream_revision_id", string intent.upstream_revision_id)
    ∷ (lit "replace_subscription", boolean intent.replace_subscription)
    ∷ skip_none (lit "promotion_head_revision_id") (some_string intent.promotion_head_revision_id)
        (skip_none (lit "historical_skill_name") (some_string intent.historical_skill_name) []))
