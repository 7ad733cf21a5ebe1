-- ===== src/Wire/Mutation/Request.antt =====
-- Every request that is hashed (the functions of crates/denju-wire/src/mutation.rs and
-- mutation/), with the arguments of its function.
use denju.Base.{ℕ, Bool, Option, List, Text}
use denju.Wire.Json.{Json, normal}
use denju.Wire.Types.{
  TeamRole, PackMemberTarget, PublicSkillManifest, ForkSyncIntent, ForkImportIntent,
}
use denju.Wire.Hash.{Crates, HashInput, RequestHash, RequestHashError, hash_payload}
use denju.Base.{Result}
use denju.Wire.Mutation.Account.{
  IdentityMutationDomain, FollowMutationKind, StarMutationKind, AdminQuarantineMutationKind,
  create_installation_request, identity_mutation_request, profile_update_request, follow_request,
  star_request, resource_topics_request, report_resource_request, admin_quarantine_request,
}
use denju.Wire.Mutation.Skill.{
  SubscriptionMutationKind, ShareMutationKind, ProposalCloseKind, subscription_request,
  rename_skill_request, unpublish_skill_request, delete_skill_request, history_prune_request,
  deprecate_skill_request, publish_skill_request, restore_skill_request, private_revision_request,
  private_skill_import_request, share_skill_request, proposal_create_request,
  proposal_close_request, proposal_accept_request,
}
use denju.Wire.Mutation.Pack.{
  PackMutationKind, PackSubscriptionMutationKind, pack_create_request, pack_mutation_request,
  pack_publish_request, pack_rename_request, pack_unpublish_request, pack_delete_request,
  pack_subscription_request,
}
use denju.Wire.Mutation.Team.{
  TeamPackAssignmentMutationKind, team_create_request, team_invite_request,
  team_invite_revoke_request, team_join_request, team_member_role_request,
  team_member_remove_request, team_settings_request, team_pack_assignment_request,
  team_leave_request, team_owner_transfer_request, team_owner_transfer_accept_request,
  team_delete_request, resource_transfer_request, code_hash_text,
}

pub data Request : Type 0 where
  create_installation : Text → Text → Request
  identity_mutation : IdentityMutationDomain → Text → Json → Request
  profile_update : Text → Option Text → Bool → Bool → Request
  follow : FollowMutationKind → Text → Text → Request
  star : StarMutationKind → Text → Text → Request
  resource_topics : Text → Text → ℕ → List Text → Request
  report_resource : Text → Text → Text → Request
  admin_quarantine : AdminQuarantineMutationKind → Text → Text → ℕ → Option ℕ → Text → Request
  subscription : SubscriptionMutationKind → Text → Text → ℕ → Option ℕ → Bool → Request
  rename_skill : Text → Text → ℕ → Text → Option Text → Request
  unpublish_skill : Text → Text → ℕ → Request
  delete_skill : Text → Text → ℕ → Request
  history_prune : Text → Text → ℕ → Request
  deprecate_skill : Text → Text → ℕ → Bool → Option Text → Request
  publish_skill : Text → Text → ℕ → Bool → Option Text → List Text → Request
  restore_skill : Text → Text → ℕ → Text → Request
  private_revision :
      Text
      → Text
      → ℕ
      → Text
      → List Text
      → PublicSkillManifest
      → Option Text
      → Option ForkSyncIntent
      → Option Text
      → Request
  private_skill_import :
      Text → ℕ → Text → Text → Json → Text → ℕ → Option Text → Option ForkImportIntent → Request
  share_skill : ShareMutationKind → Text → Text → Text → Request
  proposal_create : Text → Text → ℕ → Option Text → Request
  proposal_close : ProposalCloseKind → Text → Text → ℕ → Request
  proposal_accept : Text → Text → ℕ → Text → ℕ → ℕ → Request
  pack_create : Text → Text → Text → Request
  pack_mutation : PackMutationKind → Text → Text → ℕ → List PackMemberTarget → Request
  pack_publish : Text → Text → ℕ → Bool → Request
  pack_rename : Text → Text → ℕ → Text → Request
  pack_unpublish : Text → Text → ℕ → Request
  pack_delete : Text → Text → ℕ → Request
  pack_subscription : PackSubscriptionMutationKind → Text → Text → ℕ → Request
  team_create : Text → Text → Request
  team_invite : Text → Text → TeamRole → Text → Request
  team_invite_revoke : Text → Text → Text → Request
  team_join : Text → Text → Request
  team_member_role : Text → Text → Text → TeamRole → Request
  team_member_remove : Text → Text → Text → Request
  team_settings : Text → Text → Bool → Request
  team_pack_assignment : TeamPackAssignmentMutationKind → Text → Text → Text → Request
  team_leave : Text → Text → Request
  team_owner_transfer : Text → Text → Text → Text → Request
  team_owner_transfer_accept : Text → Text → Request
  team_delete : Text → Text → Request
  resource_transfer : Text → Text → ℕ → Text → Request

unfoldable pub hash_input : Crates → Request → HashInput
hash_input c (create_installation operation_id credential_hash) =
    create_installation_request operation_id credential_hash
hash_input c (identity_mutation kind operation_id payload) =
    identity_mutation_request kind operation_id payload
hash_input c (profile_update operation_id bio followers_visible following_visible) =
    profile_update_request operation_id bio followers_visible following_visible
hash_input c (follow kind operation_id target_user_id) =
    follow_request kind operation_id target_user_id
hash_input c (star kind operation_id resource_id) = star_request kind operation_id resource_id
hash_input c (resource_topics operation_id resource_id expected_generation topics) =
    resource_topics_request operation_id resource_id expected_generation topics
hash_input c (report_resource operation_id resource_id reason) =
    report_resource_request operation_id resource_id reason
hash_input c
      (admin_quarantine kind operation_id resource_id expected_generation release_version reason) =
    admin_quarantine_request kind operation_id resource_id expected_generation release_version
      reason
hash_input c
      (subscription kind operation_id resource_id expected_generation release_version
        retain_on_delete) =
    subscription_request kind operation_id resource_id expected_generation release_version
      retain_on_delete
hash_input c
      (rename_skill operation_id resource_id expected_generation new_name
        prepared_revision_operation_id) =
    rename_skill_request operation_id resource_id expected_generation new_name
      prepared_revision_operation_id
hash_input c (unpublish_skill operation_id resource_id expected_generation) =
    unpublish_skill_request operation_id resource_id expected_generation
hash_input c (delete_skill operation_id resource_id expected_generation) =
    delete_skill_request operation_id resource_id expected_generation
hash_input c (history_prune operation_id resource_id expected_generation) =
    history_prune_request operation_id resource_id expected_generation
hash_input c
      (deprecate_skill operation_id resource_id expected_generation deprecated
        replacement_resource_id) =
    deprecate_skill_request operation_id resource_id expected_generation deprecated
      replacement_resource_id
hash_input c (publish_skill operation_id resource_id expected_generation public message tags) =
    publish_skill_request operation_id resource_id expected_generation public message tags
hash_input c (restore_skill operation_id resource_id expected_generation target_revision_id) =
    restore_skill_request operation_id resource_id expected_generation target_revision_id
hash_input c
      (private_revision operation_id resource_id expected_generation expected_head_revision_id
        parent_revision_ids manifest revision_author_principal_id fork_sync historical_skill_name) =
    private_revision_request operation_id resource_id expected_generation expected_head_revision_id
      parent_revision_ids manifest revision_author_principal_id fork_sync historical_skill_name
hash_input c
      (private_skill_import operation_id expected_generation owner name manifest snapshot_sha256
        snapshot_size_bytes revision_author_principal_id fork) =
    private_skill_import_request operation_id expected_generation owner name manifest
      snapshot_sha256 snapshot_size_bytes revision_author_principal_id fork
hash_input c (share_skill kind operation_id resource_id recipient) =
    share_skill_request kind operation_id resource_id recipient
hash_input c (proposal_create operation_id source_resource_id expected_source_generation message) =
    proposal_create_request operation_id source_resource_id expected_source_generation message
hash_input c (proposal_close kind operation_id proposal_id expected_generation) =
    proposal_close_request kind operation_id proposal_id expected_generation
hash_input c
      (proposal_accept operation_id proposal_id expected_generation expected_proposed_revision_id
        expected_source_generation expected_target_generation) =
    proposal_accept_request operation_id proposal_id expected_generation
      expected_proposed_revision_id expected_source_generation expected_target_generation
hash_input c (pack_create operation_id owner name) = pack_create_request operation_id owner name
hash_input c (pack_mutation kind operation_id resource_id expected_generation members) =
    pack_mutation_request kind operation_id resource_id expected_generation members
hash_input c (pack_publish operation_id resource_id expected_generation public) =
    pack_publish_request operation_id resource_id expected_generation public
hash_input c (pack_rename operation_id resource_id expected_generation new_name) =
    pack_rename_request operation_id resource_id expected_generation new_name
hash_input c (pack_unpublish operation_id resource_id expected_generation) =
    pack_unpublish_request operation_id resource_id expected_generation
hash_input c (pack_delete operation_id resource_id expected_generation) =
    pack_delete_request operation_id resource_id expected_generation
hash_input c (pack_subscription kind operation_id resource_id expected_generation) =
    pack_subscription_request kind operation_id resource_id expected_generation
hash_input c (team_create operation_id name) = team_create_request operation_id name
hash_input c (team_invite operation_id team role invite_code_hash) =
    team_invite_request operation_id team role invite_code_hash
hash_input c (team_invite_revoke operation_id team invite_id) =
    team_invite_revoke_request operation_id team invite_id
hash_input c (team_join operation_id code) = team_join_request c operation_id code
hash_input c (team_member_role operation_id team member_name role) =
    team_member_role_request operation_id team member_name role
hash_input c (team_member_remove operation_id team member_name) =
    team_member_remove_request operation_id team member_name
hash_input c (team_settings operation_id team members_can_publish) =
    team_settings_request operation_id team members_can_publish
hash_input c (team_pack_assignment kind operation_id team pack_resource_id) =
    team_pack_assignment_request kind operation_id team pack_resource_id
hash_input c (team_leave operation_id team) = team_leave_request operation_id team
hash_input c (team_owner_transfer operation_id team member_name transfer_code_hash) =
    team_owner_transfer_request operation_id team member_name transfer_code_hash
hash_input c (team_owner_transfer_accept operation_id code) =
    team_owner_transfer_accept_request c operation_id code
hash_input c (team_delete operation_id team) = team_delete_request operation_id team
hash_input c (resource_transfer operation_id resource_id expected_generation destination_team) =
    resource_transfer_request operation_id resource_id expected_generation destination_team

-- What the hash binds of a request: all of it, but a secret code by its hash, and a JSON value up to
-- the order of members.
unfoldable pub bound : Crates → Request → Request
bound c (identity_mutation kind operation_id payload) =
    identity_mutation kind operation_id (normal payload)
bound c
      (private_skill_import operation_id expected_generation owner name manifest snapshot_sha256
        snapshot_size_bytes revision_author_principal_id fork) =
    private_skill_import operation_id expected_generation owner name (normal manifest)
      snapshot_sha256 snapshot_size_bytes revision_author_principal_id fork
bound c (team_join operation_id code) = team_join operation_id (code_hash_text c code)
bound c (team_owner_transfer_accept operation_id code) =
    team_owner_transfer_accept operation_id (code_hash_text c code)
bound c r = r

-- The function of the source for a request.
unfoldable pub request_hash : Crates → Request → Result RequestHashError RequestHash
request_hash c r = hash_payload c (hash_input c r)
