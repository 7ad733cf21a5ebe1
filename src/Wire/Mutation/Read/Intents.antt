-- ===== src/Wire/Mutation/Read/Intents.antt =====
-- Manifests and fork intents read back from the canonical form of their JSON
-- (crates/denju-wire/src/public.rs, workspace.rs and ingest.rs).
use native.Mathlib.Decide.{ℕ_discrete}
use denju.Base.{◌≡◌, refl, ap, ap₂, Option, none, some, List, [], ◌∷◌}
use denju.Base.{◌==◌, text_discrete, Text, list_cmp}
use denju.Wire.Json.{normal, normal_items, insert_member, struct, members_of, field, find}
use denju.Wire.Types.{
  PublicSkillManifest, PublicSkillManifestEntry, ForkSyncIntent, ForkImportIntent,
  manifest_entry_json, manifest_entry_items, manifest_json, fork_sync_json, fork_import_json,
}
use denju.Wire.Mutation.Read.Values.{
  map_items, as_manifest_entry, as_manifest, as_fork_sync, as_fork_import,
}

as_manifest_entry-manifest_entry_json :
    (e : PublicSkillManifestEntry) → as_manifest_entry (normal (manifest_entry_json e)) ≡ e
unfolding as_manifest_entry normal manifest_entry_json struct members_of insert_member list_cmp
    field find ◌==◌ text_discrete ℕ_discrete
as_manifest_entry-manifest_entry_json (PublicSkillManifestEntry.file path blob_id size executable) =
    refl
as_manifest_entry-manifest_entry_json (PublicSkillManifestEntry.directory path) = refl
as_manifest_entry-manifest_entry_json (PublicSkillManifestEntry.symlink path target) = refl

manifest_entries :
    (es : List PublicSkillManifestEntry)
    → map_items as_manifest_entry (normal_items (manifest_entry_items es)) ≡ es
unfolding normal manifest_entry_items map_items
manifest_entries [] = refl
manifest_entries (e ∷ es) =
    ap₂ (λ (x : PublicSkillManifestEntry) (r : List PublicSkillManifestEntry). x ∷ r)
      (as_manifest_entry-manifest_entry_json e) (manifest_entries es)

pub as_manifest-manifest_json :
    (m : PublicSkillManifest) → as_manifest (normal (manifest_json m)) ≡ m
unfolding as_manifest normal manifest_json struct members_of insert_member list_cmp field find ◌==◌
    text_discrete ℕ_discrete
as_manifest-manifest_json m =
    ap (λ es. record { root_tree_id = m.root_tree_id; entries = es }) (manifest_entries m.entries)

pub as_fork_sync-fork_sync_json :
    (o : Option ForkSyncIntent) → as_fork_sync (normal (fork_sync_json o)) ≡ o
unfolding as_fork_sync normal fork_sync_json struct members_of insert_member list_cmp field find
    ◌==◌ text_discrete ℕ_discrete
as_fork_sync-fork_sync_json none = refl
as_fork_sync-fork_sync_json (some intent) = refl

pub as_fork_import-fork_import_json :
    (o : Option ForkImportIntent) → as_fork_import (normal (fork_import_json o)) ≡ o
unfolding as_fork_import normal fork_import_json struct members_of insert_member list_cmp field find
    ◌==◌ text_discrete ℕ_discrete
as_fork_import-fork_import_json none = refl
as_fork_import-fork_import_json (some intent) =
    go intent.promotion_head_revision_id intent.historical_skill_name
  where
    go :
        (p q : Option Text)
        → let i = record intent { promotion_head_revision_id = p; historical_skill_name = q } in
          as_fork_import (normal (fork_import_json (some i))) ≡ some i
    go none none = refl
    go none (some b) = refl
    go (some a) none = refl
    go (some a) (some b) = refl
