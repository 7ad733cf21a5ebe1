-- ===== src/Wire/Mutation/Read/Values.antt =====
-- Values read back from the canonical form of the JSON that crates/denju-wire makes of them.

use native.Mathlib.Decide.{ℕ_discrete}
use denju.Base.{ℕ, ◌≡◌, refl, ap, ap₂, Bool, false, Option, none, some, List, [], ◌∷◌}
use denju.Base.{if◌then◌else◌, ◌==◌, text_Eq, text_discrete, Text, lit, list_cmp}
use denju.Wire.Json.{
  Json, Items, null, boolean, number, string, array, nil, cons, normal, normal_items, insert_member,
  maybe_string, maybe_number, string_items, struct, members_of, field, find,
}
use denju.Wire.Types.{
  TeamRole, PackMemberTarget, PublicSkillManifest, PublicSkillManifestEntry, ForkSyncIntent,
  ForkImportIntent, role_text, role_json, member_json, member_items,
}

-- Equal functions at equal arguments.
infixl 40 ◌⊛◌
pub ◌⊛◌ {ℓ κ} : {A : Type ℓ} {B : Type κ} {f g : A → B} {x y : A} → f ≡ g → x ≡ y → f x ≡ g y
p ⊛ q = ap₂ (λ f x. f x) p q

abbrev pub as_text : Json → Text
as_text (string s) = s
as_text _ = []

abbrev pub as_number : Json → ℕ
as_number (number n) = n
as_number _ = 0

abbrev pub as_flag : Json → Bool
as_flag (boolean b) = b
as_flag _ = false

abbrev pub as_maybe_text : Json → Option Text
as_maybe_text (string s) = some s
as_maybe_text _ = none

abbrev pub as_maybe_number : Json → Option ℕ
as_maybe_number (number n) = some n
as_maybe_number _ = none

unfoldable pub map_items {ℓ} : {A : Type ℓ} → (Json → A) → Items → List A
map_items f nil = []
map_items f (cons x xs) = f x ∷ map_items f xs

abbrev pub as_list {ℓ} : {A : Type ℓ} → (Json → A) → Json → List A
as_list f (array xs) = map_items f xs
as_list f _ = []

abbrev pub text_at : Text → Json → Text
text_at key j = as_text (field key j)

abbrev pub operation : Json → Text
operation = text_at (lit "operation_id")

abbrev pub resource : Json → Text
resource = text_at (lit "resource_id")

abbrev pub generation : Json → ℕ
generation j = as_number (field (lit "expected_generation") j)

unfoldable pub as_role : Json → TeamRole
as_role j =
    if as_text j == lit "owner"
    then TeamRole.owner
    else if as_text j == lit "maintainer"
    then TeamRole.maintainer
    else TeamRole.member

unfoldable pub as_member : Json → PackMemberTarget
as_member j = record {
  resource_id = text_at (lit "resource_id") j;
  release_version = as_maybe_number (field (lit "release_version") j);
}

unfoldable pub as_manifest_entry : Json → PublicSkillManifestEntry
as_manifest_entry j =
    if text_at (lit "kind") j == lit "file"
    then PublicSkillManifestEntry.file (text_at (lit "path") j) (text_at (lit "blob_id") j)
        (as_number (field (lit "size") j)) (as_flag (field (lit "executable") j))
    else if text_at (lit "kind") j == lit "directory"
    then PublicSkillManifestEntry.directory (text_at (lit "path") j)
    else PublicSkillManifestEntry.symlink (text_at (lit "path") j) (text_at (lit "target") j)

unfoldable pub as_manifest : Json → PublicSkillManifest
as_manifest j = record {
  root_tree_id = text_at (lit "root_tree_id") j;
  entries = as_list as_manifest_entry (field (lit "entries") j);
}

unfoldable pub as_fork_sync : Json → Option ForkSyncIntent
as_fork_sync null = none
as_fork_sync j = some (record {
  expected_sync_base_revision_id = text_at (lit "expected_sync_base_revision_id") j;
  upstream_revision_id = text_at (lit "upstream_revision_id") j;
})

unfoldable pub as_fork_import : Json → Option ForkImportIntent
as_fork_import null = none
as_fork_import j = some (record {
  upstream_resource_id = text_at (lit "upstream_resource_id") j;
  upstream_revision_id = text_at (lit "upstream_revision_id") j;
  replace_subscription = as_flag (field (lit "replace_subscription") j);
  promotion_head_revision_id = as_maybe_text (field (lit "promotion_head_revision_id") j);
  historical_skill_name = as_maybe_text (field (lit "historical_skill_name") j);
})

pub as_maybe_text-maybe_string : (o : Option Text) → as_maybe_text (normal (maybe_string o)) ≡ o
unfolding normal
as_maybe_text-maybe_string none = refl
as_maybe_text-maybe_string (some s) = refl

pub as_maybe_number-maybe_number : (o : Option ℕ) → as_maybe_number (normal (maybe_number o)) ≡ o
unfolding normal
as_maybe_number-maybe_number none = refl
as_maybe_number-maybe_number (some n) = refl

pub as_text-string_items :
    (ss : List Text) → map_items as_text (normal_items (string_items ss)) ≡ ss
unfolding normal string_items map_items
as_text-string_items [] = refl
as_text-string_items (s ∷ ss) = ap (λ (r : List Text). s ∷ r) (as_text-string_items ss)

pub as_role-role_json : (r : TeamRole) → as_role (normal (role_json r)) ≡ r
unfolding as_role normal role_text ◌==◌ text_discrete ℕ_discrete
as_role-role_json TeamRole.owner = refl
as_role-role_json TeamRole.maintainer = refl
as_role-role_json TeamRole.member = refl

as_member-member_json : (t : PackMemberTarget) → as_member (normal (member_json t)) ≡ t
unfolding as_member normal member_json struct members_of insert_member list_cmp field find ◌==◌
    text_discrete ℕ_discrete
as_member-member_json t = go t.release_version
  where
    go :
        (o : Option ℕ)
        → as_member (normal (member_json (record t { release_version = o })))
          ≡ record t { release_version = o }
    go none = refl
    go (some n) = refl

pub as_member-member_items :
    (ts : List PackMemberTarget) → map_items as_member (normal_items (member_items ts)) ≡ ts
unfolding normal member_items map_items
as_member-member_items [] = refl
as_member-member_items (t ∷ ts) =
    ap₂ (λ (x : PackMemberTarget) (r : List PackMemberTarget). x ∷ r) (as_member-member_json t)
      (as_member-member_items ts)
