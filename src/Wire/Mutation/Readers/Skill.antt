-- ===== src/Wire/Mutation/Readers/Skill.antt =====
-- The readers of the domains of Skill (crates/denju-wire/src/mutation.rs and mutation/).
use denju.Base.{[], ◌∷◌, lit}
use denju.Base.Strings.Map.{Map}
use denju.Wire.Json.{Json, field}
use denju.Wire.Mutation.Domain.{http_domain}
use denju.Wire.Mutation.Read.Values.{
  as_text, as_number, as_flag, as_maybe_text, as_maybe_number, as_list, as_manifest, as_fork_sync,
  as_fork_import, text_at, operation, resource, generation,
}
use denju.Wire.Mutation.Request.{Request}
use denju.Wire.Mutation.Skill.{SubscriptionMutationKind, ShareMutationKind, ProposalCloseKind}

unfoldable pub skill_readers : Map (Json → Request)
skill_readers =
    (
      http_domain (lit "subscribe"),
      λ j.
          Request.subscription SubscriptionMutationKind.subscribe (operation j) (resource j)
            (generation j) (as_maybe_number (field (lit "release_version") j))
            (as_flag (field (lit "retain_on_delete") j)),
    )
    ∷ (
      http_domain (lit "unsubscribe"),
      λ j.
          Request.subscription SubscriptionMutationKind.unsubscribe (operation j) (resource j)
            (generation j) (as_maybe_number (field (lit "release_version") j))
            (as_flag (field (lit "retain_on_delete") j)),
    )
    ∷ (
      http_domain (lit "rename-skill"),
      λ j.
          Request.rename_skill (operation j) (resource j) (generation j)
            (text_at (lit "new_name") j)
            (as_maybe_text (field (lit "prepared_revision_operation_id") j)),
    )
    ∷ (
      http_domain (lit "unpublish-skill"),
      λ j. Request.unpublish_skill (operation j) (resource j) (generation j),
    )
    ∷ (
      http_domain (lit "delete-skill"),
      λ j. Request.delete_skill (operation j) (resource j) (generation j),
    )
    ∷ (
      http_domain (lit "history-prune"),
      λ j. Request.history_prune (operation j) (resource j) (generation j),
    )
    ∷ (
      http_domain (lit "deprecate-skill"),
      λ j.
          Request.deprecate_skill (operation j) (resource j) (generation j)
            (as_flag (field (lit "deprecated") j))
            (as_maybe_text (field (lit "replacement_resource_id") j)),
    )
    ∷ (
      http_domain (lit "publish-skill"),
      λ j.
          Request.publish_skill (operation j) (resource j) (generation j)
            (as_flag (field (lit "public") j)) (as_maybe_text (field (lit "message") j))
            (as_list as_text (field (lit "tags") j)),
    )
    ∷ (
      http_domain (lit "restore-skill"),
      λ j.
          Request.restore_skill (operation j) (resource j) (generation j)
            (text_at (lit "target_revision_id") j),
    )
    ∷ (
      http_domain (lit "private-revision"),
      λ j.
          Request.private_revision (operation j) (resource j) (generation j)
            (text_at (lit "expected_head_revision_id") j)
            (as_list as_text (field (lit "parent_revision_ids") j))
            (as_manifest (field (lit "manifest") j))
            (as_maybe_text (field (lit "revision_author_principal_id") j))
            (as_fork_sync (field (lit "fork_sync") j))
            (as_maybe_text (field (lit "historical_skill_name") j)),
    )
    ∷ (
      http_domain (lit "private-skill-import"),
      λ j.
          Request.private_skill_import (operation j) (generation j) (text_at (lit "owner") j)
            (text_at (lit "name") j) (field (lit "manifest") j) (text_at (lit "snapshot_sha256") j)
            (as_number (field (lit "snapshot_size_bytes") j))
            (as_maybe_text (field (lit "revision_author_principal_id") j))
            (as_fork_import (field (lit "fork") j)),
    )
    ∷ (
      http_domain (lit "share-skill"),
      λ j.
          Request.share_skill ShareMutationKind.share (operation j) (resource j)
            (text_at (lit "recipient") j),
    )
    ∷ (
      http_domain (lit "unshare-skill"),
      λ j.
          Request.share_skill ShareMutationKind.unshare (operation j) (resource j)
            (text_at (lit "recipient") j),
    )
    ∷ (
      http_domain (lit "proposal-create"),
      λ j.
          Request.proposal_create (operation j) (text_at (lit "source_resource_id") j)
            (as_number (field (lit "expected_source_generation") j))
            (as_maybe_text (field (lit "message") j)),
    )
    ∷ (
      http_domain (lit "proposal-reject"),
      λ j.
          Request.proposal_close ProposalCloseKind.reject (operation j)
            (text_at (lit "proposal_id") j) (generation j),
    )
    ∷ (
      http_domain (lit "proposal-withdraw"),
      λ j.
          Request.proposal_close ProposalCloseKind.withdraw (operation j)
            (text_at (lit "proposal_id") j) (generation j),
    )
    ∷ (
      http_domain (lit "proposal-accept"),
      λ j.
          Request.proposal_accept (operation j) (text_at (lit "proposal_id") j) (generation j)
            (text_at (lit "expected_proposed_revision_id") j)
            (as_number (field (lit "expected_source_generation") j))
            (as_number (field (lit "expected_target_generation") j)),
    )
    ∷ []
