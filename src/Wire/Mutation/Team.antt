-- ===== src/Wire/Mutation/Team.antt =====
-- Teams (crates/denju-wire/src/mutation/team_hash.rs). Each function gives what
-- the function of the source hashes; `hash_payload` does the rest.
use denju.Base.{ℕ, Bool, [], ◌∷◌, Text, Bytes, lit, to_utf8}
use denju.Wire.Json.{boolean, number, string, struct}
use denju.Wire.Types.{TeamRole, role_json}
use denju.Wire.Hash.{Crates, RequestHash, HashInput, display_hash}
use denju.Wire.Mutation.Domain.{http_domain}

pub data TeamPackAssignmentMutationKind : Type 0 where
  assign unassign : TeamPackAssignmentMutationKind

unfoldable pub team_pack_assignment_mutation_kind_domain : TeamPackAssignmentMutationKind → Bytes
team_pack_assignment_mutation_kind_domain TeamPackAssignmentMutationKind.assign =
    http_domain (lit "team-pack-assign")
team_pack_assignment_mutation_kind_domain TeamPackAssignmentMutationKind.unassign =
    http_domain (lit "team-pack-unassign")

-- `invite_code_hash` and `team_owner_transfer_code_hash`, which are one function, and the text of
-- the hash.
unfoldable pub code_hash : Crates → Text → RequestHash
code_hash c code = record { bytes = c.digest (to_utf8 code) }

unfoldable pub code_hash_text : Crates → Text → Text
code_hash_text c code = display_hash c (code_hash c code)

unfoldable pub team_create_request : Text → Text → HashInput
team_create_request operation_id name = record {
  domain = http_domain (lit "team-create");
  payload = struct ((lit "operation_id", string operation_id) ∷ (lit "name", string name) ∷ []);
}

unfoldable pub team_invite_request : Text → Text → TeamRole → Text → HashInput
team_invite_request operation_id team role invite_code_hash = record {
  domain = http_domain (lit "team-invite");
  payload = struct (
      (lit "operation_id", string operation_id)
      ∷ (lit "team", string team)
      ∷ (lit "role", role_json role)
      ∷ (lit "invite_code_hash", string invite_code_hash)
      ∷ []);
}

unfoldable pub team_invite_revoke_request : Text → Text → Text → HashInput
team_invite_revoke_request operation_id team invite_id = record {
  domain = http_domain (lit "team-invite-revoke");
  payload = struct (
      (lit "operation_id", string operation_id)
      ∷ (lit "team", string team)
      ∷ (lit "invite_id", string invite_id)
      ∷ []);
}

unfoldable pub team_join_request : Crates → Text → Text → HashInput
team_join_request c operation_id code = record {
  domain = http_domain (lit "team-join");
  payload = struct (
      (lit "operation_id", string operation_id)
      ∷ (lit "code_hash", string (code_hash_text c code))
      ∷ []);
}

unfoldable pub team_member_role_request : Text → Text → Text → TeamRole → HashInput
team_member_role_request operation_id team member_name role = record {
  domain = http_domain (lit "team-member-role");
  payload = struct (
      (lit "operation_id", string operation_id)
      ∷ (lit "team", string team)
      ∷ (lit "member", string member_name)
      ∷ (lit "role", role_json role)
      ∷ []);
}

unfoldable pub team_member_remove_request : Text → Text → Text → HashInput
team_member_remove_request operation_id team member_name = record {
  domain = http_domain (lit "team-member-remove");
  payload = struct (
      (lit "operation_id", string operation_id)
      ∷ (lit "team", string team)
      ∷ (lit "member", string member_name)
      ∷ []);
}

unfoldable pub team_settings_request : Text → Text → Bool → HashInput
team_settings_request operation_id team members_can_publish = record {
  domain = http_domain (lit "team-settings");
  payload = struct (
      (lit "operation_id", string operation_id)
      ∷ (lit "team", string team)
      ∷ (lit "members_can_publish", boolean members_can_publish)
      ∷ []);
}

unfoldable pub team_pack_assignment_request :
    TeamPackAssignmentMutationKind → Text → Text → Text → HashInput
team_pack_assignment_request kind operation_id team pack_resource_id = record {
  domain = team_pack_assignment_mutation_kind_domain kind;
  payload = struct (
      (lit "operation_id", string operation_id)
      ∷ (lit "team", string team)
      ∷ (lit "pack_resource_id", string pack_resource_id)
      ∷ []);
}

unfoldable pub team_leave_request : Text → Text → HashInput
team_leave_request operation_id team = record {
  domain = http_domain (lit "team-leave");
  payload = struct ((lit "operation_id", string operation_id) ∷ (lit "team", string team) ∷ []);
}

unfoldable pub team_owner_transfer_request : Text → Text → Text → Text → HashInput
team_owner_transfer_request operation_id team member_name transfer_code_hash = record {
  domain = http_domain (lit "team-owner-transfer");
  payload = struct (
      (lit "operation_id", string operation_id)
      ∷ (lit "team", string team)
      ∷ (lit "member", string member_name)
      ∷ (lit "transfer_code_hash", string transfer_code_hash)
      ∷ []);
}

unfoldable pub team_owner_transfer_accept_request : Crates → Text → Text → HashInput
team_owner_transfer_accept_request c operation_id code = record {
  domain = http_domain (lit "team-owner-transfer-accept");
  payload = struct (
      (lit "operation_id", string operation_id)
      ∷ (lit "code_hash", string (code_hash_text c code))
      ∷ []);
}

unfoldable pub team_delete_request : Text → Text → HashInput
team_delete_request operation_id team = record {
  domain = http_domain (lit "team-delete");
  payload = struct ((lit "operation_id", string operation_id) ∷ (lit "team", string team) ∷ []);
}

unfoldable pub resource_transfer_request : Text → Text → ℕ → Text → HashInput
resource_transfer_request operation_id resource_id expected_generation destination_team = record {
  domain = http_domain (lit "resource-transfer");
  payload = struct (
      (lit "operation_id", string operation_id)
      ∷ (lit "resource_id", string resource_id)
      ∷ (lit "expected_generation", number expected_generation)
      ∷ (lit "destination_team", string destination_team)
      ∷ []);
}
