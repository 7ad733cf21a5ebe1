-- ===== src/Wire/Mutation/Read/Account.antt =====
-- What is hashed of a request determines it: the requests of Account
-- (crates/denju-wire/src/mutation.rs).

use denju.Base.{refl, ap, Option, some, List, Text, ℕ, Bool}
use denju.Wire.Json.{Json}
use denju.Wire.Hash.{Crates}
use denju.Wire.Mutation.Account
use denju.Wire.Mutation.Request.{Request}
use denju.Wire.Mutation.Readers.{IsRead}
use denju.Wire.Mutation.Account.{
  IdentityMutationDomain, FollowMutationKind, StarMutationKind, AdminQuarantineMutationKind,
}
use denju.Wire.Mutation.Read.Values.{
  as_maybe_text-maybe_string, as_maybe_number-maybe_number, as_text-string_items,
}

pub IsRead-create_installation :
    (c : Crates) (operation_id : Text) (credential_hash : Text)
    → IsRead c (Request.create_installation operation_id credential_hash)
unfolding IsRead Account.create_installation_request
IsRead-create_installation c operation_id credential_hash = (refl, refl)

pub IsRead-identity_mutation :
    (c : Crates) (kind : IdentityMutationDomain) (operation_id : Text) (payload : Json)
    → IsRead c (Request.identity_mutation kind operation_id payload)
unfolding IsRead Account.identity_mutation_request Account.identity_domain_bytes
IsRead-identity_mutation c IdentityMutationDomain.claim operation_id payload = (refl, refl)
IsRead-identity_mutation c IdentityMutationDomain.login operation_id payload = (refl, refl)
IsRead-identity_mutation c IdentityMutationDomain.recovery_reset operation_id payload = (refl, refl)
IsRead-identity_mutation c IdentityMutationDomain.backup operation_id payload = (refl, refl)
IsRead-identity_mutation c IdentityMutationDomain.device_revoke operation_id payload = (refl, refl)
IsRead-identity_mutation c IdentityMutationDomain.token_create operation_id payload = (refl, refl)
IsRead-identity_mutation c IdentityMutationDomain.token_revoke operation_id payload = (refl, refl)
IsRead-identity_mutation c IdentityMutationDomain.account_delete operation_id payload = (refl, refl)

pub IsRead-profile_update :
    (c : Crates) (operation_id : Text) (bio : Option Text) (followers_visible : Bool)
    (following_visible : Bool)
    → IsRead c (Request.profile_update operation_id bio followers_visible following_visible)
unfolding IsRead Account.profile_update_request
IsRead-profile_update c operation_id bio followers_visible following_visible = (
  refl,
  ap (λ b0. some (Request.profile_update operation_id b0 followers_visible following_visible))
      (as_maybe_text-maybe_string bio),
)

pub IsRead-follow :
    (c : Crates) (kind : FollowMutationKind) (operation_id : Text) (target_user_id : Text)
    → IsRead c (Request.follow kind operation_id target_user_id)
unfolding IsRead Account.follow_request Account.follow_mutation_kind_domain
IsRead-follow c FollowMutationKind.follow operation_id target_user_id = (refl, refl)
IsRead-follow c FollowMutationKind.unfollow operation_id target_user_id = (refl, refl)

pub IsRead-star :
    (c : Crates) (kind : StarMutationKind) (operation_id : Text) (resource_id : Text)
    → IsRead c (Request.star kind operation_id resource_id)
unfolding IsRead Account.star_request Account.star_mutation_kind_domain
IsRead-star c StarMutationKind.star operation_id resource_id = (refl, refl)
IsRead-star c StarMutationKind.unstar operation_id resource_id = (refl, refl)

pub IsRead-resource_topics :
    (c : Crates) (operation_id : Text) (resource_id : Text) (expected_generation : ℕ)
    (topics : List Text)
    → IsRead c (Request.resource_topics operation_id resource_id expected_generation topics)
unfolding IsRead Account.resource_topics_request
IsRead-resource_topics c operation_id resource_id expected_generation topics = (
  refl,
  ap (λ t0. some (Request.resource_topics operation_id resource_id expected_generation t0))
      (as_text-string_items topics),
)

pub IsRead-report_resource :
    (c : Crates) (operation_id : Text) (resource_id : Text) (reason : Text)
    → IsRead c (Request.report_resource operation_id resource_id reason)
unfolding IsRead Account.report_resource_request
IsRead-report_resource c operation_id resource_id reason = (refl, refl)

pub IsRead-admin_quarantine :
    (c : Crates) (kind : AdminQuarantineMutationKind) (operation_id : Text) (resource_id : Text)
    (expected_generation : ℕ) (release_version : Option ℕ) (reason : Text)
    → IsRead c (
        Request.admin_quarantine kind operation_id resource_id expected_generation release_version
          reason)
unfolding IsRead Account.admin_quarantine_request Account.admin_quarantine_mutation_kind_domain
IsRead-admin_quarantine c AdminQuarantineMutationKind.quarantine operation_id resource_id
      expected_generation release_version reason =
    (
      refl,
      ap
          (λ r0. some (
            Request.admin_quarantine AdminQuarantineMutationKind.quarantine operation_id resource_id
              expected_generation r0 reason))
          (as_maybe_number-maybe_number release_version),
    )
IsRead-admin_quarantine c AdminQuarantineMutationKind.unquarantine operation_id resource_id
      expected_generation release_version reason =
    (
      refl,
      ap
          (λ r0. some (
            Request.admin_quarantine AdminQuarantineMutationKind.unquarantine operation_id
              resource_id expected_generation r0 reason))
          (as_maybe_number-maybe_number release_version),
    )
