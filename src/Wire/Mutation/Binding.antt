-- ===== src/Wire/Mutation/Binding.antt =====
-- What a request hash binds (crates/denju-wire/src/mutation.rs).
use denju.Base.{
  ◌≡◌, ◌≢◌, ◌⊎◌, sym, ap, ◌∙◌, inl, inr, true, some, ◌++◌, Bytes, ok, err, Result, >>=-eq-ok,
  ok_injective, eq-cases, text_Eq, map_err, ap₂,
}
use denju.Wire.Json.{is_exact}
use denju.Wire.Hash.{canonicalization, Crates, IsCanonical, RequestHash, HashInput, hash_payload}
use denju.Wire.Mutation.Request.{Request, hash_input, bound, request_hash}
use denju.Wire.Mutation.Readers.{IsRead, read}
use denju.Wire.Mutation.Read.Terminated.{append-is_terminated}
use denju.Wire.Mutation.Read.Account.{
  IsRead-create_installation, IsRead-identity_mutation, IsRead-profile_update, IsRead-follow,
  IsRead-star, IsRead-resource_topics, IsRead-report_resource, IsRead-admin_quarantine,
}
use denju.Wire.Mutation.Read.Skill.{
  IsRead-subscription, IsRead-rename_skill, IsRead-unpublish_skill, IsRead-delete_skill,
  IsRead-history_prune, IsRead-deprecate_skill, IsRead-publish_skill, IsRead-restore_skill,
  IsRead-private_revision, IsRead-private_skill_import, IsRead-share_skill, IsRead-proposal_create,
  IsRead-proposal_close, IsRead-proposal_accept,
}
use denju.Wire.Mutation.Read.Pack.{
  IsRead-pack_create, IsRead-pack_mutation, IsRead-pack_publish, IsRead-pack_rename,
  IsRead-pack_unpublish, IsRead-pack_delete, IsRead-pack_subscription,
}
use denju.Wire.Mutation.Read.Team.{
  IsRead-team_create, IsRead-team_invite, IsRead-team_invite_revoke, IsRead-team_join,
  IsRead-team_member_role, IsRead-team_member_remove, IsRead-team_settings,
  IsRead-team_pack_assignment, IsRead-team_leave, IsRead-team_owner_transfer,
  IsRead-team_owner_transfer_accept, IsRead-team_delete, IsRead-resource_transfer,
}

every-IsRead : (c : Crates) (r : Request) → IsRead c r
every-IsRead c (Request.create_installation operation_id credential_hash) =
    IsRead-create_installation c operation_id credential_hash
every-IsRead c (Request.identity_mutation kind operation_id payload) =
    IsRead-identity_mutation c kind operation_id payload
every-IsRead c (Request.profile_update operation_id bio followers_visible following_visible) =
    IsRead-profile_update c operation_id bio followers_visible following_visible
every-IsRead c (Request.follow kind operation_id target_user_id) =
    IsRead-follow c kind operation_id target_user_id
every-IsRead c (Request.star kind operation_id resource_id) =
    IsRead-star c kind operation_id resource_id
every-IsRead c (Request.resource_topics operation_id resource_id expected_generation topics) =
    IsRead-resource_topics c operation_id resource_id expected_generation topics
every-IsRead c (Request.report_resource operation_id resource_id reason) =
    IsRead-report_resource c operation_id resource_id reason
every-IsRead c
      (Request.admin_quarantine kind operation_id resource_id expected_generation release_version
        reason) =
    IsRead-admin_quarantine c kind operation_id resource_id expected_generation release_version
      reason
every-IsRead c
      (Request.subscription kind operation_id resource_id expected_generation release_version
        retain_on_delete) =
    IsRead-subscription c kind operation_id resource_id expected_generation release_version
      retain_on_delete
every-IsRead c
      (Request.rename_skill operation_id resource_id expected_generation new_name
        prepared_revision_operation_id) =
    IsRead-rename_skill c operation_id resource_id expected_generation new_name
      prepared_revision_operation_id
every-IsRead c (Request.unpublish_skill operation_id resource_id expected_generation) =
    IsRead-unpublish_skill c operation_id resource_id expected_generation
every-IsRead c (Request.delete_skill operation_id resource_id expected_generation) =
    IsRead-delete_skill c operation_id resource_id expected_generation
every-IsRead c (Request.history_prune operation_id resource_id expected_generation) =
    IsRead-history_prune c operation_id resource_id expected_generation
every-IsRead c
      (Request.deprecate_skill operation_id resource_id expected_generation deprecated
        replacement_resource_id) =
    IsRead-deprecate_skill c operation_id resource_id expected_generation deprecated
      replacement_resource_id
every-IsRead c
      (Request.publish_skill operation_id resource_id expected_generation public message tags) =
    IsRead-publish_skill c operation_id resource_id expected_generation public message tags
every-IsRead c
      (Request.restore_skill operation_id resource_id expected_generation target_revision_id) =
    IsRead-restore_skill c operation_id resource_id expected_generation target_revision_id
every-IsRead c
      (Request.private_revision operation_id resource_id expected_generation
        expected_head_revision_id parent_revision_ids manifest revision_author_principal_id
        fork_sync historical_skill_name) =
    IsRead-private_revision c operation_id resource_id expected_generation expected_head_revision_id
      parent_revision_ids manifest revision_author_principal_id fork_sync historical_skill_name
every-IsRead c
      (Request.private_skill_import operation_id expected_generation owner name manifest
        snapshot_sha256 snapshot_size_bytes revision_author_principal_id fork) =
    IsRead-private_skill_import c operation_id expected_generation owner name manifest
      snapshot_sha256 snapshot_size_bytes revision_author_principal_id fork
every-IsRead c (Request.share_skill kind operation_id resource_id recipient) =
    IsRead-share_skill c kind operation_id resource_id recipient
every-IsRead c
      (Request.proposal_create operation_id source_resource_id expected_source_generation message) =
    IsRead-proposal_create c operation_id source_resource_id expected_source_generation message
every-IsRead c (Request.proposal_close kind operation_id proposal_id expected_generation) =
    IsRead-proposal_close c kind operation_id proposal_id expected_generation
every-IsRead c
      (Request.proposal_accept operation_id proposal_id expected_generation
        expected_proposed_revision_id expected_source_generation expected_target_generation) =
    IsRead-proposal_accept c operation_id proposal_id expected_generation
      expected_proposed_revision_id expected_source_generation expected_target_generation
every-IsRead c (Request.pack_create operation_id owner name) =
    IsRead-pack_create c operation_id owner name
every-IsRead c (Request.pack_mutation kind operation_id resource_id expected_generation members) =
    IsRead-pack_mutation c kind operation_id resource_id expected_generation members
every-IsRead c (Request.pack_publish operation_id resource_id expected_generation public) =
    IsRead-pack_publish c operation_id resource_id expected_generation public
every-IsRead c (Request.pack_rename operation_id resource_id expected_generation new_name) =
    IsRead-pack_rename c operation_id resource_id expected_generation new_name
every-IsRead c (Request.pack_unpublish operation_id resource_id expected_generation) =
    IsRead-pack_unpublish c operation_id resource_id expected_generation
every-IsRead c (Request.pack_delete operation_id resource_id expected_generation) =
    IsRead-pack_delete c operation_id resource_id expected_generation
every-IsRead c (Request.pack_subscription kind operation_id resource_id expected_generation) =
    IsRead-pack_subscription c kind operation_id resource_id expected_generation
every-IsRead c (Request.team_create operation_id name) = IsRead-team_create c operation_id name
every-IsRead c (Request.team_invite operation_id team role invite_code_hash) =
    IsRead-team_invite c operation_id team role invite_code_hash
every-IsRead c (Request.team_invite_revoke operation_id team invite_id) =
    IsRead-team_invite_revoke c operation_id team invite_id
every-IsRead c (Request.team_join operation_id code) = IsRead-team_join c operation_id code
every-IsRead c (Request.team_member_role operation_id team member_name role) =
    IsRead-team_member_role c operation_id team member_name role
every-IsRead c (Request.team_member_remove operation_id team member_name) =
    IsRead-team_member_remove c operation_id team member_name
every-IsRead c (Request.team_settings operation_id team members_can_publish) =
    IsRead-team_settings c operation_id team members_can_publish
every-IsRead c (Request.team_pack_assignment kind operation_id team pack_resource_id) =
    IsRead-team_pack_assignment c kind operation_id team pack_resource_id
every-IsRead c (Request.team_leave operation_id team) = IsRead-team_leave c operation_id team
every-IsRead c (Request.team_owner_transfer operation_id team member_name transfer_code_hash) =
    IsRead-team_owner_transfer c operation_id team member_name transfer_code_hash
every-IsRead c (Request.team_owner_transfer_accept operation_id code) =
    IsRead-team_owner_transfer_accept c operation_id code
every-IsRead c (Request.team_delete operation_id team) = IsRead-team_delete c operation_id team
every-IsRead c
      (Request.resource_transfer operation_id resource_id expected_generation destination_team) =
    IsRead-resource_transfer c operation_id resource_id expected_generation destination_team

-- Two inputs with one digest.
pub Collision : (Bytes → Bytes) → Type 0
Collision digest = (x y : Bytes) × (x ≢ y) × (digest x ≡ digest y)

map_err-eq-ok :
    {E F A : Type 0} (f : E → F) (r : Result E A) {a : A} → map_err f r ≡ ok a → r ≡ ok a
map_err-eq-ok f (ok a) h = cc h
map_err-eq-ok f (err e) h = cc h

some_injective : {r s : Request} → some r ≡ some s → r ≡ s
some_injective h = cc h

hash_payload-parts :
    (c : Crates) (input : HashInput) (hash : RequestHash)
    → hash_payload c input ≡ ok hash
    → (canonical : Bytes) × (c.to_vec input.payload ≡ ok canonical)
      × (c.digest (input.domain ++ canonical) ≡ hash.bytes)
unfolding hash_payload
hash_payload-parts c input hash h =
    let (canonical, mapped, e) =
      >>=-eq-ok (map_err canonicalization (c.to_vec input.payload)) _ h in
    (
      canonical,
      map_err-eq-ok canonicalization (c.to_vec input.payload) mapped,
      ap (λ (r : RequestHash). r.bytes) (ok_injective e),
    )

-- Where the numbers of two requests are below 2 ^ 53, one hash binds one request: two requests with
-- the same hash agree, whichever functions hashed them, up to what the hash is not meant to bind (a
-- secret code is bound by its own hash, a JSON value up to the order of members), unless the digest
-- has a collision.
pub request_hash-binds :
    (c : Crates)
    → IsCanonical c.to_vec
    → (r s : Request) (hash : RequestHash) → is_exact (hash_input c r).payload ≡ true
    → is_exact (hash_input c s).payload ≡ true
    → request_hash c r ≡ ok hash
    → request_hash c s ≡ ok hash
    → (bound c r ≡ bound c s) ⊎ Collision c.digest
unfolding request_hash IsRead Collision
request_hash-binds c contract r s hash p q g h =
    let (x, canonical, hashed) = hash_payload-parts c (hash_input c r) hash g in
    let (y, canonical', hashed') = hash_payload-parts c (hash_input c s) hash h in
    let left = (hash_input c r).domain ++ x in
    let right = (hash_input c s).domain ++ y in
    elim (eq-cases left right) [
      | inr other ↦ inr (left, right, other.1, hashed ∙ sym hashed')
      | inl same ↦
          let (terminated, read_r) = every-IsRead c r in
          let (terminated', read_s) = every-IsRead c s in
          let (domains, bytes) =
            append-is_terminated (hash_input c r).domain (hash_input c s).domain x y terminated
              terminated' same.1 in
          let payloads =
            contract.injective (hash_input c r).payload (hash_input c s).payload x p q canonical
              (canonical' ∙ ap ok (sym bytes)) in
          inl (some_injective (sym read_r ∙ ap₂ read domains payloads ∙ read_s))
    ]
