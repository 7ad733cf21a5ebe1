-- ===== src/Wire/Mutation/Readers/Account.antt =====
-- The readers of the domains of Account (crates/denju-wire/src/mutation.rs and mutation/).
use denju.Base.{[], ◌∷◌, lit}
use denju.Base.Strings.Map.{Map}
use denju.Wire.Json.{Json, field}
use denju.Wire.Mutation.Domain.{http_domain}
use denju.Wire.Mutation.Read.Values.{
  as_text, as_flag, as_maybe_text, as_maybe_number, as_list, text_at, operation, resource,
  generation,
}
use denju.Wire.Mutation.Request.{Request}
use denju.Wire.Mutation.Account.{
  IdentityMutationDomain, FollowMutationKind, StarMutationKind, AdminQuarantineMutationKind,
}

unfoldable pub account_readers : Map (Json → Request)
account_readers =
    (
      http_domain (lit "create-installation"),
      λ j. Request.create_installation (operation j) (text_at (lit "credential_hash") j),
    )
    ∷ (
      http_domain (lit "claim-identity"),
      λ j.
          Request.identity_mutation IdentityMutationDomain.claim (operation j)
            (field (lit "payload") j),
    )
    ∷ (
      http_domain (lit "login"),
      λ j.
          Request.identity_mutation IdentityMutationDomain.login (operation j)
            (field (lit "payload") j),
    )
    ∷ (
      http_domain (lit "recovery-reset"),
      λ j.
          Request.identity_mutation IdentityMutationDomain.recovery_reset (operation j)
            (field (lit "payload") j),
    )
    ∷ (
      http_domain (lit "identity-backup"),
      λ j.
          Request.identity_mutation IdentityMutationDomain.backup (operation j)
            (field (lit "payload") j),
    )
    ∷ (
      http_domain (lit "device-revoke"),
      λ j.
          Request.identity_mutation IdentityMutationDomain.device_revoke (operation j)
            (field (lit "payload") j),
    )
    ∷ (
      http_domain (lit "automation-token-create"),
      λ j.
          Request.identity_mutation IdentityMutationDomain.token_create (operation j)
            (field (lit "payload") j),
    )
    ∷ (
      http_domain (lit "automation-token-revoke"),
      λ j.
          Request.identity_mutation IdentityMutationDomain.token_revoke (operation j)
            (field (lit "payload") j),
    )
    ∷ (
      http_domain (lit "account-delete"),
      λ j.
          Request.identity_mutation IdentityMutationDomain.account_delete (operation j)
            (field (lit "payload") j),
    )
    ∷ (
      http_domain (lit "profile-update"),
      λ j.
          Request.profile_update (operation j) (as_maybe_text (field (lit "bio") j))
            (as_flag (field (lit "followers_visible") j))
            (as_flag (field (lit "following_visible") j)),
    )
    ∷ (
      http_domain (lit "follow"),
      λ j. Request.follow FollowMutationKind.follow (operation j) (text_at (lit "target_id") j),
    )
    ∷ (
      http_domain (lit "unfollow"),
      λ j. Request.follow FollowMutationKind.unfollow (operation j) (text_at (lit "target_id") j),
    )
    ∷ (
      http_domain (lit "star"),
      λ j. Request.star StarMutationKind.star (operation j) (text_at (lit "target_id") j),
    )
    ∷ (
      http_domain (lit "unstar"),
      λ j. Request.star StarMutationKind.unstar (operation j) (text_at (lit "target_id") j),
    )
    ∷ (
      http_domain (lit "resource-topics"),
      λ j.
          Request.resource_topics (operation j) (resource j) (generation j)
            (as_list as_text (field (lit "topics") j)),
    )
    ∷ (
      http_domain (lit "report-resource"),
      λ j. Request.report_resource (operation j) (resource j) (text_at (lit "reason") j),
    )
    ∷ (
      http_domain (lit "admin-quarantine"),
      λ j.
          Request.admin_quarantine AdminQuarantineMutationKind.quarantine (operation j) (resource j)
            (generation j) (as_maybe_number (field (lit "release_version") j))
            (text_at (lit "reason") j),
    )
    ∷ (
      http_domain (lit "admin-unquarantine"),
      λ j.
          Request.admin_quarantine AdminQuarantineMutationKind.unquarantine (operation j)
            (resource j) (generation j) (as_maybe_number (field (lit "release_version") j))
            (text_at (lit "reason") j),
    )
    ∷ []
