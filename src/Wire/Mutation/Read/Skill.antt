-- ===== src/Wire/Mutation/Read/Skill.antt =====
-- What is hashed of a request determines it: the requests of Skill
-- (crates/denju-wire/src/mutation.rs).

use denju.Base.{refl, ap, Option, some, List, Text, ℕ, Bool}
use denju.Wire.Json.{Json, normal}
use denju.Wire.Types.{PublicSkillManifest, ForkSyncIntent, ForkImportIntent}
use denju.Wire.Hash.{Crates}
use denju.Wire.Mutation.Skill
use denju.Wire.Mutation.Request.{Request}
use denju.Wire.Mutation.Readers.{IsRead}
use denju.Wire.Mutation.Skill.{SubscriptionMutationKind, ShareMutationKind, ProposalCloseKind}
use denju.Wire.Mutation.Read.Values.{
  ◌⊛◌, as_maybe_text-maybe_string, as_maybe_number-maybe_number, as_text-string_items,
}
use denju.Wire.Mutation.Read.Intents.{
  as_manifest-manifest_json, as_fork_sync-fork_sync_json, as_fork_import-fork_import_json,
}

pub IsRead-subscription :
    (c : Crates) (kind : SubscriptionMutationKind) (operation_id : Text) (resource_id : Text)
    (expected_generation : ℕ) (release_version : Option ℕ) (retain_on_delete : Bool)
    → IsRead c (
        Request.subscription kind operation_id resource_id expected_generation release_version
          retain_on_delete)
unfolding IsRead Skill.subscription_request Skill.subscription_mutation_kind_domain
IsRead-subscription c SubscriptionMutationKind.subscribe operation_id resource_id
      expected_generation release_version retain_on_delete =
    (
      refl,
      ap
          (λ r0. some (
            Request.subscription SubscriptionMutationKind.subscribe operation_id resource_id
              expected_generation r0 retain_on_delete))
          (as_maybe_number-maybe_number release_version),
    )
IsRead-subscription c SubscriptionMutationKind.unsubscribe operation_id resource_id
      expected_generation release_version retain_on_delete =
    (
      refl,
      ap
          (λ r0. some (
            Request.subscription SubscriptionMutationKind.unsubscribe operation_id resource_id
              expected_generation r0 retain_on_delete))
          (as_maybe_number-maybe_number release_version),
    )

pub IsRead-rename_skill :
    (c : Crates) (operation_id : Text) (resource_id : Text) (expected_generation : ℕ)
    (new_name : Text) (prepared_revision_operation_id : Option Text)
    → IsRead c (
        Request.rename_skill operation_id resource_id expected_generation new_name
          prepared_revision_operation_id)
unfolding IsRead Skill.rename_skill_request
IsRead-rename_skill c operation_id resource_id expected_generation new_name
      prepared_revision_operation_id =
    (
      refl,
      ap
          (λ p0.
            some (Request.rename_skill operation_id resource_id expected_generation new_name p0))
          (as_maybe_text-maybe_string prepared_revision_operation_id),
    )

pub IsRead-unpublish_skill :
    (c : Crates) (operation_id : Text) (resource_id : Text) (expected_generation : ℕ)
    → IsRead c (Request.unpublish_skill operation_id resource_id expected_generation)
unfolding IsRead Skill.unpublish_skill_request
IsRead-unpublish_skill c operation_id resource_id expected_generation = (refl, refl)

pub IsRead-delete_skill :
    (c : Crates) (operation_id : Text) (resource_id : Text) (expected_generation : ℕ)
    → IsRead c (Request.delete_skill operation_id resource_id expected_generation)
unfolding IsRead Skill.delete_skill_request
IsRead-delete_skill c operation_id resource_id expected_generation = (refl, refl)

pub IsRead-history_prune :
    (c : Crates) (operation_id : Text) (resource_id : Text) (expected_generation : ℕ)
    → IsRead c (Request.history_prune operation_id resource_id expected_generation)
unfolding IsRead Skill.history_prune_request
IsRead-history_prune c operation_id resource_id expected_generation = (refl, refl)

pub IsRead-deprecate_skill :
    (c : Crates) (operation_id : Text) (resource_id : Text) (expected_generation : ℕ)
    (deprecated : Bool) (replacement_resource_id : Option Text)
    → IsRead c (
        Request.deprecate_skill operation_id resource_id expected_generation deprecated
          replacement_resource_id)
unfolding IsRead Skill.deprecate_skill_request
IsRead-deprecate_skill c operation_id resource_id expected_generation deprecated
      replacement_resource_id =
    (
      refl,
      ap
          (λ r0.
            some
              (Request.deprecate_skill operation_id resource_id expected_generation deprecated r0))
          (as_maybe_text-maybe_string replacement_resource_id),
    )

pub IsRead-publish_skill :
    (c : Crates) (operation_id : Text) (resource_id : Text) (expected_generation : ℕ)
    (public : Bool) (message : Option Text) (tags : List Text)
    → IsRead c
        (Request.publish_skill operation_id resource_id expected_generation public message tags)
unfolding IsRead Skill.publish_skill_request
IsRead-publish_skill c operation_id resource_id expected_generation public message tags = (
  refl,
  let build : Option Text → List Text → Option Request = λ m0 t1.
        some (Request.publish_skill operation_id resource_id expected_generation public m0 t1) in
      ap build (as_maybe_text-maybe_string message) ⊛ as_text-string_items tags,
)

pub IsRead-restore_skill :
    (c : Crates) (operation_id : Text) (resource_id : Text) (expected_generation : ℕ)
    (target_revision_id : Text)
    → IsRead c
        (Request.restore_skill operation_id resource_id expected_generation target_revision_id)
unfolding IsRead Skill.restore_skill_request
IsRead-restore_skill c operation_id resource_id expected_generation target_revision_id =
    (refl, refl)

pub IsRead-private_revision :
    (c : Crates) (operation_id : Text) (resource_id : Text) (expected_generation : ℕ)
    (expected_head_revision_id : Text) (parent_revision_ids : List Text)
    (manifest : PublicSkillManifest) (revision_author_principal_id : Option Text)
    (fork_sync : Option ForkSyncIntent) (historical_skill_name : Option Text)
    → IsRead c (
        Request.private_revision operation_id resource_id expected_generation
          expected_head_revision_id parent_revision_ids manifest revision_author_principal_id
          fork_sync historical_skill_name)
unfolding IsRead Skill.private_revision_request
IsRead-private_revision c operation_id resource_id expected_generation expected_head_revision_id
      parent_revision_ids manifest revision_author_principal_id fork_sync historical_skill_name =
    (
      refl,
      let build : List Text
              → PublicSkillManifest
              → Option Text
              → Option ForkSyncIntent
              → Option Text
              → Option Request =
            λ p0 m1 r2 f3 h4. some (
              Request.private_revision operation_id resource_id expected_generation
                expected_head_revision_id p0 m1 r2 f3 h4) in
          ap build (as_text-string_items parent_revision_ids)
          ⊛ as_manifest-manifest_json manifest
          ⊛ as_maybe_text-maybe_string revision_author_principal_id
          ⊛ as_fork_sync-fork_sync_json fork_sync
          ⊛ as_maybe_text-maybe_string historical_skill_name,
    )

pub IsRead-private_skill_import :
    (c : Crates) (operation_id : Text) (expected_generation : ℕ) (owner : Text) (name : Text)
    (manifest : Json) (snapshot_sha256 : Text) (snapshot_size_bytes : ℕ)
    (revision_author_principal_id : Option Text) (fork : Option ForkImportIntent)
    → IsRead c (
        Request.private_skill_import operation_id expected_generation owner name manifest
          snapshot_sha256 snapshot_size_bytes revision_author_principal_id fork)
unfolding IsRead Skill.private_skill_import_request
IsRead-private_skill_import c operation_id expected_generation owner name manifest snapshot_sha256
      snapshot_size_bytes revision_author_principal_id fork =
    (
      refl,
      let build : Option Text → Option ForkImportIntent → Option Request = λ r0 f1. some (
            Request.private_skill_import operation_id expected_generation owner name
              (normal manifest) snapshot_sha256 snapshot_size_bytes r0 f1) in
          ap build (as_maybe_text-maybe_string revision_author_principal_id)
          ⊛ as_fork_import-fork_import_json fork,
    )

pub IsRead-share_skill :
    (c : Crates) (kind : ShareMutationKind) (operation_id : Text) (resource_id : Text)
    (recipient : Text)
    → IsRead c (Request.share_skill kind operation_id resource_id recipient)
unfolding IsRead Skill.share_skill_request Skill.share_mutation_kind_domain
IsRead-share_skill c ShareMutationKind.share operation_id resource_id recipient = (refl, refl)
IsRead-share_skill c ShareMutationKind.unshare operation_id resource_id recipient = (refl, refl)

pub IsRead-proposal_create :
    (c : Crates) (operation_id : Text) (source_resource_id : Text) (expected_source_generation : ℕ)
    (message : Option Text)
    → IsRead c
        (Request.proposal_create operation_id source_resource_id expected_source_generation message)
unfolding IsRead Skill.proposal_create_request
IsRead-proposal_create c operation_id source_resource_id expected_source_generation message = (
  refl,
  ap
      (λ m0.
        some
          (Request.proposal_create operation_id source_resource_id expected_source_generation m0))
      (as_maybe_text-maybe_string message),
)

pub IsRead-proposal_close :
    (c : Crates) (kind : ProposalCloseKind) (operation_id : Text) (proposal_id : Text)
    (expected_generation : ℕ)
    → IsRead c (Request.proposal_close kind operation_id proposal_id expected_generation)
unfolding IsRead Skill.proposal_close_request Skill.proposal_close_kind_domain
IsRead-proposal_close c ProposalCloseKind.reject operation_id proposal_id expected_generation =
    (refl, refl)
IsRead-proposal_close c ProposalCloseKind.withdraw operation_id proposal_id expected_generation =
    (refl, refl)

pub IsRead-proposal_accept :
    (c : Crates) (operation_id : Text) (proposal_id : Text) (expected_generation : ℕ)
    (expected_proposed_revision_id : Text) (expected_source_generation : ℕ)
    (expected_target_generation : ℕ)
    → IsRead c (
        Request.proposal_accept operation_id proposal_id expected_generation
          expected_proposed_revision_id expected_source_generation expected_target_generation)
unfolding IsRead Skill.proposal_accept_request
IsRead-proposal_accept c operation_id proposal_id expected_generation expected_proposed_revision_id
      expected_source_generation expected_target_generation =
    (refl, refl)
