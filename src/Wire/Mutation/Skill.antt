-- ===== src/Wire/Mutation/Skill.antt =====
-- Subscriptions, skills, shares and proposals (crates/denju-wire/src/mutation.rs). Each function gives what
-- the function of the source hashes; `hash_payload` does the rest.
use denju.Base.{ℕ, Bool, Option, List, [], ◌∷◌, Text, Bytes, lit}
use denju.Wire.Json.{
  Json, boolean, number, string, array, struct, maybe_string, maybe_number, string_items,
}
use denju.Wire.Types.{
  PublicSkillManifest, ForkSyncIntent, ForkImportIntent, manifest_json, fork_sync_json,
  fork_import_json,
}
use denju.Wire.Hash.{HashInput}
use denju.Wire.Mutation.Domain.{http_domain, lifecycle_resource_request}

pub data SubscriptionMutationKind : Type 0 where
  subscribe unsubscribe : SubscriptionMutationKind

unfoldable pub subscription_mutation_kind_domain : SubscriptionMutationKind → Bytes
subscription_mutation_kind_domain SubscriptionMutationKind.subscribe = http_domain (lit "subscribe")
subscription_mutation_kind_domain SubscriptionMutationKind.unsubscribe =
    http_domain (lit "unsubscribe")

pub data ShareMutationKind : Type 0 where
  share unshare : ShareMutationKind

unfoldable pub share_mutation_kind_domain : ShareMutationKind → Bytes
share_mutation_kind_domain ShareMutationKind.share = http_domain (lit "share-skill")
share_mutation_kind_domain ShareMutationKind.unshare = http_domain (lit "unshare-skill")

pub data ProposalCloseKind : Type 0 where
  reject withdraw : ProposalCloseKind

unfoldable pub proposal_close_kind_domain : ProposalCloseKind → Bytes
proposal_close_kind_domain ProposalCloseKind.reject = http_domain (lit "proposal-reject")
proposal_close_kind_domain ProposalCloseKind.withdraw = http_domain (lit "proposal-withdraw")

unfoldable pub subscription_request :
    SubscriptionMutationKind → Text → Text → ℕ → Option ℕ → Bool → HashInput
subscription_request kind operation_id resource_id expected_generation release_version
      retain_on_delete =
    record {
      domain = subscription_mutation_kind_domain kind;
      payload = struct (
          (lit "operation_id", string operation_id)
          ∷ (lit "resource_id", string resource_id)
          ∷ (lit "expected_generation", number expected_generation)
          ∷ (lit "release_version", maybe_number release_version)
          ∷ (lit "retain_on_delete", boolean retain_on_delete)
          ∷ []);
    }

unfoldable pub rename_skill_request : Text → Text → ℕ → Text → Option Text → HashInput
rename_skill_request operation_id resource_id expected_generation new_name
      prepared_revision_operation_id =
    record {
      domain = http_domain (lit "rename-skill");
      payload = struct (
          (lit "operation_id", string operation_id)
          ∷ (lit "resource_id", string resource_id)
          ∷ (lit "expected_generation", number expected_generation)
          ∷ (lit "new_name", string new_name)
          ∷ (lit "prepared_revision_operation_id", maybe_string prepared_revision_operation_id)
          ∷ []);
    }

unfoldable pub unpublish_skill_request : Text → Text → ℕ → HashInput
unpublish_skill_request operation_id resource_id expected_generation =
    lifecycle_resource_request (http_domain (lit "unpublish-skill")) operation_id resource_id
      expected_generation

unfoldable pub delete_skill_request : Text → Text → ℕ → HashInput
delete_skill_request operation_id resource_id expected_generation =
    lifecycle_resource_request (http_domain (lit "delete-skill")) operation_id resource_id
      expected_generation

unfoldable pub history_prune_request : Text → Text → ℕ → HashInput
history_prune_request operation_id resource_id expected_generation =
    lifecycle_resource_request (http_domain (lit "history-prune")) operation_id resource_id
      expected_generation

unfoldable pub deprecate_skill_request : Text → Text → ℕ → Bool → Option Text → HashInput
deprecate_skill_request operation_id resource_id expected_generation deprecated
      replacement_resource_id =
    record {
      domain = http_domain (lit "deprecate-skill");
      payload = struct (
          (lit "operation_id", string operation_id)
          ∷ (lit "resource_id", string resource_id)
          ∷ (lit "expected_generation", number expected_generation)
          ∷ (lit "deprecated", boolean deprecated)
          ∷ (lit "replacement_resource_id", maybe_string replacement_resource_id)
          ∷ []);
    }

unfoldable pub publish_skill_request : Text → Text → ℕ → Bool → Option Text → List Text → HashInput
publish_skill_request operation_id resource_id expected_generation public message tags = record {
  domain = http_domain (lit "publish-skill");
  payload = struct (
      (lit "operation_id", string operation_id)
      ∷ (lit "resource_id", string resource_id)
      ∷ (lit "expected_generation", number expected_generation)
      ∷ (lit "public", boolean public)
      ∷ (lit "message", maybe_string message)
      ∷ (lit "tags", array (string_items tags))
      ∷ []);
}

unfoldable pub restore_skill_request : Text → Text → ℕ → Text → HashInput
restore_skill_request operation_id resource_id expected_generation target_revision_id = record {
  domain = http_domain (lit "restore-skill");
  payload = struct (
      (lit "operation_id", string operation_id)
      ∷ (lit "resource_id", string resource_id)
      ∷ (lit "expected_generation", number expected_generation)
      ∷ (lit "target_revision_id", string target_revision_id)
      ∷ []);
}

unfoldable pub private_revision_request :
    Text
    → Text
    → ℕ
    → Text
    → List Text
    → PublicSkillManifest
    → Option Text
    → Option ForkSyncIntent
    → Option Text
    → HashInput
private_revision_request operation_id resource_id expected_generation expected_head_revision_id
      parent_revision_ids manifest revision_author_principal_id fork_sync historical_skill_name =
    record {
      domain = http_domain (lit "private-revision");
      payload = struct (
          (lit "operation_id", string operation_id)
          ∷ (lit "resource_id", string resource_id)
          ∷ (lit "expected_generation", number expected_generation)
          ∷ (lit "expected_head_revision_id", string expected_head_revision_id)
          ∷ (lit "parent_revision_ids", array (string_items parent_revision_ids))
          ∷ (lit "manifest", manifest_json manifest)
          ∷ (lit "revision_author_principal_id", maybe_string revision_author_principal_id)
          ∷ (lit "fork_sync", fork_sync_json fork_sync)
          ∷ (lit "historical_skill_name", maybe_string historical_skill_name)
          ∷ []);
    }

unfoldable pub private_skill_import_request :
    Text → ℕ → Text → Text → Json → Text → ℕ → Option Text → Option ForkImportIntent → HashInput
private_skill_import_request operation_id expected_generation owner name manifest snapshot_sha256
      snapshot_size_bytes revision_author_principal_id fork =
    record {
      domain = http_domain (lit "private-skill-import");
      payload = struct (
          (lit "operation_id", string operation_id)
          ∷ (lit "expected_generation", number expected_generation)
          ∷ (lit "owner", string owner)
          ∷ (lit "name", string name)
          ∷ (lit "manifest", manifest)
          ∷ (lit "snapshot_sha256", string snapshot_sha256)
          ∷ (lit "snapshot_size_bytes", number snapshot_size_bytes)
          ∷ (lit "revision_author_principal_id", maybe_string revision_author_principal_id)
          ∷ (lit "fork", fork_import_json fork)
          ∷ []);
    }

unfoldable pub share_skill_request : ShareMutationKind → Text → Text → Text → HashInput
share_skill_request kind operation_id resource_id recipient = record {
  domain = share_mutation_kind_domain kind;
  payload = struct (
      (lit "operation_id", string operation_id)
      ∷ (lit "resource_id", string resource_id)
      ∷ (lit "recipient", string recipient)
      ∷ []);
}

unfoldable pub proposal_create_request : Text → Text → ℕ → Option Text → HashInput
proposal_create_request operation_id source_resource_id expected_source_generation message =
    record {
      domain = http_domain (lit "proposal-create");
      payload = struct (
          (lit "operation_id", string operation_id)
          ∷ (lit "source_resource_id", string source_resource_id)
          ∷ (lit "expected_source_generation", number expected_source_generation)
          ∷ (lit "message", maybe_string message)
          ∷ []);
    }

unfoldable pub proposal_close_request : ProposalCloseKind → Text → Text → ℕ → HashInput
proposal_close_request kind operation_id proposal_id expected_generation = record {
  domain = proposal_close_kind_domain kind;
  payload = struct (
      (lit "operation_id", string operation_id)
      ∷ (lit "proposal_id", string proposal_id)
      ∷ (lit "expected_generation", number expected_generation)
      ∷ []);
}

unfoldable pub proposal_accept_request : Text → Text → ℕ → Text → ℕ → ℕ → HashInput
proposal_accept_request operation_id proposal_id expected_generation expected_proposed_revision_id
      expected_source_generation expected_target_generation =
    record {
      domain = http_domain (lit "proposal-accept");
      payload = struct (
          (lit "operation_id", string operation_id)
          ∷ (lit "proposal_id", string proposal_id)
          ∷ (lit "expected_generation", number expected_generation)
          ∷ (lit "expected_proposed_revision_id", string expected_proposed_revision_id)
          ∷ (lit "expected_source_generation", number expected_source_generation)
          ∷ (lit "expected_target_generation", number expected_target_generation)
          ∷ []);
    }
