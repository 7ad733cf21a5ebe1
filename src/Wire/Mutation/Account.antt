-- ===== src/Wire/Mutation/Account.antt =====
-- Installations, identities, profiles, follows, stars, topics, reports and quarantine
-- (crates/denju-wire/src/mutation.rs and mutation/social_hash.rs, mutation/admin_hash.rs). Each function gives what
-- the function of the source hashes; `hash_payload` does the rest.
use denju.Base.{ℕ, Bool, Option, List, [], ◌∷◌, Text, Bytes, lit}
use denju.Wire.Json.{
  Json, boolean, number, string, array, struct, maybe_string, maybe_number, string_items,
}
use denju.Wire.Hash.{HashInput}
use denju.Wire.Mutation.Domain.{http_domain}

pub data IdentityMutationDomain : Type 0 where
  claim login recovery_reset backup device_revoke token_create token_revoke account_delete :
      IdentityMutationDomain

unfoldable pub identity_domain_bytes : IdentityMutationDomain → Bytes
identity_domain_bytes IdentityMutationDomain.claim = http_domain (lit "claim-identity")
identity_domain_bytes IdentityMutationDomain.login = http_domain (lit "login")
identity_domain_bytes IdentityMutationDomain.recovery_reset = http_domain (lit "recovery-reset")
identity_domain_bytes IdentityMutationDomain.backup = http_domain (lit "identity-backup")
identity_domain_bytes IdentityMutationDomain.device_revoke = http_domain (lit "device-revoke")
identity_domain_bytes IdentityMutationDomain.token_create =
    http_domain (lit "automation-token-create")
identity_domain_bytes IdentityMutationDomain.token_revoke =
    http_domain (lit "automation-token-revoke")
identity_domain_bytes IdentityMutationDomain.account_delete = http_domain (lit "account-delete")

pub data FollowMutationKind : Type 0 where
  follow unfollow : FollowMutationKind

unfoldable pub follow_mutation_kind_domain : FollowMutationKind → Bytes
follow_mutation_kind_domain FollowMutationKind.follow = http_domain (lit "follow")
follow_mutation_kind_domain FollowMutationKind.unfollow = http_domain (lit "unfollow")

pub data StarMutationKind : Type 0 where
  star unstar : StarMutationKind

unfoldable pub star_mutation_kind_domain : StarMutationKind → Bytes
star_mutation_kind_domain StarMutationKind.star = http_domain (lit "star")
star_mutation_kind_domain StarMutationKind.unstar = http_domain (lit "unstar")

pub data AdminQuarantineMutationKind : Type 0 where
  quarantine unquarantine : AdminQuarantineMutationKind

unfoldable pub admin_quarantine_mutation_kind_domain : AdminQuarantineMutationKind → Bytes
admin_quarantine_mutation_kind_domain AdminQuarantineMutationKind.quarantine =
    http_domain (lit "admin-quarantine")
admin_quarantine_mutation_kind_domain AdminQuarantineMutationKind.unquarantine =
    http_domain (lit "admin-unquarantine")

unfoldable pub create_installation_request : Text → Text → HashInput
create_installation_request operation_id credential_hash = record {
  domain = http_domain (lit "create-installation");
  payload = struct (
      (lit "operation_id", string operation_id)
      ∷ (lit "credential_hash", string credential_hash)
      ∷ []);
}

unfoldable pub identity_mutation_request : IdentityMutationDomain → Text → Json → HashInput
identity_mutation_request kind operation_id payload = record {
  domain = identity_domain_bytes kind;
  payload = struct ((lit "operation_id", string operation_id) ∷ (lit "payload", payload) ∷ []);
}

unfoldable pub profile_update_request : Text → Option Text → Bool → Bool → HashInput
profile_update_request operation_id bio followers_visible following_visible = record {
  domain = http_domain (lit "profile-update");
  payload = struct (
      (lit "operation_id", string operation_id)
      ∷ (lit "bio", maybe_string bio)
      ∷ (lit "followers_visible", boolean followers_visible)
      ∷ (lit "following_visible", boolean following_visible)
      ∷ []);
}

unfoldable pub follow_request : FollowMutationKind → Text → Text → HashInput
follow_request kind operation_id target_user_id = record {
  domain = follow_mutation_kind_domain kind;
  payload =
      struct
        ((lit "operation_id", string operation_id) ∷ (lit "target_id", string target_user_id) ∷ []);
}

unfoldable pub star_request : StarMutationKind → Text → Text → HashInput
star_request kind operation_id resource_id = record {
  domain = star_mutation_kind_domain kind;
  payload =
      struct
        ((lit "operation_id", string operation_id) ∷ (lit "target_id", string resource_id) ∷ []);
}

unfoldable pub resource_topics_request : Text → Text → ℕ → List Text → HashInput
resource_topics_request operation_id resource_id expected_generation topics = record {
  domain = http_domain (lit "resource-topics");
  payload = struct (
      (lit "operation_id", string operation_id)
      ∷ (lit "resource_id", string resource_id)
      ∷ (lit "expected_generation", number expected_generation)
      ∷ (lit "topics", array (string_items topics))
      ∷ []);
}

unfoldable pub report_resource_request : Text → Text → Text → HashInput
report_resource_request operation_id resource_id reason = record {
  domain = http_domain (lit "report-resource");
  payload = struct (
      (lit "operation_id", string operation_id)
      ∷ (lit "resource_id", string resource_id)
      ∷ (lit "reason", string reason)
      ∷ []);
}

unfoldable pub admin_quarantine_request :
    AdminQuarantineMutationKind → Text → Text → ℕ → Option ℕ → Text → HashInput
admin_quarantine_request kind operation_id resource_id expected_generation release_version reason =
    record {
      domain = admin_quarantine_mutation_kind_domain kind;
      payload = struct (
          (lit "operation_id", string operation_id)
          ∷ (lit "resource_id", string resource_id)
          ∷ (lit "expected_generation", number expected_generation)
          ∷ (lit "release_version", maybe_number release_version)
          ∷ (lit "reason", string reason)
          ∷ []);
    }
