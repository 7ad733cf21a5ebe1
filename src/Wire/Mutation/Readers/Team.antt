-- ===== src/Wire/Mutation/Readers/Team.antt =====
-- The readers of the domains of Team (crates/denju-wire/src/mutation.rs and mutation/).
use denju.Base.{[], ◌∷◌, lit}
use denju.Base.Strings.Map.{Map}
use denju.Wire.Json.{Json, field}
use denju.Wire.Mutation.Domain.{http_domain}
use denju.Wire.Mutation.Read.Values.{as_flag, as_role, text_at, operation, resource, generation}
use denju.Wire.Mutation.Request.{Request}
use denju.Wire.Mutation.Team.{TeamPackAssignmentMutationKind}

unfoldable pub team_readers : Map (Json → Request)
team_readers =
    (
      http_domain (lit "team-create"),
      λ j. Request.team_create (operation j) (text_at (lit "name") j),
    )
    ∷ (
      http_domain (lit "team-invite"),
      λ j.
          Request.team_invite (operation j) (text_at (lit "team") j)
            (as_role (field (lit "role") j)) (text_at (lit "invite_code_hash") j),
    )
    ∷ (
      http_domain (lit "team-invite-revoke"),
      λ j.
          Request.team_invite_revoke (operation j) (text_at (lit "team") j)
            (text_at (lit "invite_id") j),
    )
    ∷ (
      http_domain (lit "team-join"),
      λ j. Request.team_join (operation j) (text_at (lit "code_hash") j),
    )
    ∷ (
      http_domain (lit "team-member-role"),
      λ j.
          Request.team_member_role (operation j) (text_at (lit "team") j) (text_at (lit "member") j)
            (as_role (field (lit "role") j)),
    )
    ∷ (
      http_domain (lit "team-member-remove"),
      λ j.
          Request.team_member_remove (operation j) (text_at (lit "team") j)
            (text_at (lit "member") j),
    )
    ∷ (
      http_domain (lit "team-settings"),
      λ j.
          Request.team_settings (operation j) (text_at (lit "team") j)
            (as_flag (field (lit "members_can_publish") j)),
    )
    ∷ (
      http_domain (lit "team-pack-assign"),
      λ j.
          Request.team_pack_assignment TeamPackAssignmentMutationKind.assign (operation j)
            (text_at (lit "team") j) (text_at (lit "pack_resource_id") j),
    )
    ∷ (
      http_domain (lit "team-pack-unassign"),
      λ j.
          Request.team_pack_assignment TeamPackAssignmentMutationKind.unassign (operation j)
            (text_at (lit "team") j) (text_at (lit "pack_resource_id") j),
    )
    ∷ (
      http_domain (lit "team-leave"),
      λ j. Request.team_leave (operation j) (text_at (lit "team") j),
    )
    ∷ (
      http_domain (lit "team-owner-transfer"),
      λ j.
          Request.team_owner_transfer (operation j) (text_at (lit "team") j)
            (text_at (lit "member") j) (text_at (lit "transfer_code_hash") j),
    )
    ∷ (
      http_domain (lit "team-owner-transfer-accept"),
      λ j. Request.team_owner_transfer_accept (operation j) (text_at (lit "code_hash") j),
    )
    ∷ (
      http_domain (lit "team-delete"),
      λ j. Request.team_delete (operation j) (text_at (lit "team") j),
    )
    ∷ (
      http_domain (lit "resource-transfer"),
      λ j.
          Request.resource_transfer (operation j) (resource j) (generation j)
            (text_at (lit "destination_team") j),
    )
    ∷ []
