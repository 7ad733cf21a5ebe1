-- ===== src/Wire/Mutation/Pack.antt =====
-- Packs (crates/denju-wire/src/mutation/pack_hash.rs). Each function gives what
-- the function of the source hashes; `hash_payload` does the rest.
use denju.Base.{ℕ, Bool, List, [], ◌∷◌, Text, Bytes, lit}
use denju.Wire.Json.{boolean, number, string, array, struct}
use denju.Wire.Types.{PackMemberTarget, member_items}
use denju.Wire.Hash.{HashInput}
use denju.Wire.Mutation.Domain.{http_domain, lifecycle_resource_request}

pub data PackMutationKind : Type 0 where
  add remove : PackMutationKind

unfoldable pub pack_mutation_kind_domain : PackMutationKind → Bytes
pack_mutation_kind_domain PackMutationKind.add = http_domain (lit "pack-add")
pack_mutation_kind_domain PackMutationKind.remove = http_domain (lit "pack-remove")

pub data PackSubscriptionMutationKind : Type 0 where
  subscribe unsubscribe : PackSubscriptionMutationKind

unfoldable pub pack_subscription_mutation_kind_domain : PackSubscriptionMutationKind → Bytes
pack_subscription_mutation_kind_domain PackSubscriptionMutationKind.subscribe =
    http_domain (lit "pack-subscribe")
pack_subscription_mutation_kind_domain PackSubscriptionMutationKind.unsubscribe =
    http_domain (lit "pack-unsubscribe")

unfoldable pub pack_create_request : Text → Text → Text → HashInput
pack_create_request operation_id owner name = record {
  domain = http_domain (lit "pack-create");
  payload = struct (
      (lit "operation_id", string operation_id)
      ∷ (lit "owner", string owner)
      ∷ (lit "name", string name)
      ∷ []);
}

unfoldable pub pack_mutation_request :
    PackMutationKind → Text → Text → ℕ → List PackMemberTarget → HashInput
pack_mutation_request kind operation_id resource_id expected_generation members = record {
  domain = pack_mutation_kind_domain kind;
  payload = struct (
      (lit "operation_id", string operation_id)
      ∷ (lit "resource_id", string resource_id)
      ∷ (lit "expected_generation", number expected_generation)
      ∷ (lit "members", array (member_items members))
      ∷ []);
}

unfoldable pub pack_publish_request : Text → Text → ℕ → Bool → HashInput
pack_publish_request operation_id resource_id expected_generation public = record {
  domain = http_domain (lit "pack-publish");
  payload = struct (
      (lit "operation_id", string operation_id)
      ∷ (lit "resource_id", string resource_id)
      ∷ (lit "expected_generation", number expected_generation)
      ∷ (lit "public", boolean public)
      ∷ []);
}

unfoldable pub pack_rename_request : Text → Text → ℕ → Text → HashInput
pack_rename_request operation_id resource_id expected_generation new_name = record {
  domain = http_domain (lit "pack-rename");
  payload = struct (
      (lit "operation_id", string operation_id)
      ∷ (lit "resource_id", string resource_id)
      ∷ (lit "expected_generation", number expected_generation)
      ∷ (lit "new_name", string new_name)
      ∷ []);
}

unfoldable pub pack_unpublish_request : Text → Text → ℕ → HashInput
pack_unpublish_request operation_id resource_id expected_generation =
    lifecycle_resource_request (http_domain (lit "pack-unpublish")) operation_id resource_id
      expected_generation

unfoldable pub pack_delete_request : Text → Text → ℕ → HashInput
pack_delete_request operation_id resource_id expected_generation =
    lifecycle_resource_request (http_domain (lit "pack-delete")) operation_id resource_id
      expected_generation

unfoldable pub pack_subscription_request :
    PackSubscriptionMutationKind → Text → Text → ℕ → HashInput
pack_subscription_request kind operation_id resource_id expected_generation =
    lifecycle_resource_request (pack_subscription_mutation_kind_domain kind) operation_id
      resource_id expected_generation
