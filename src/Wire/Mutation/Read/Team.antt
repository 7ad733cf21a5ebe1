-- ===== src/Wire/Mutation/Read/Team.antt =====
-- What is hashed of a request determines it: the requests of Team
-- (crates/denju-wire/src/mutation.rs).

use denju.Base.{refl, ap, some, Text, ℕ, Bool}
use denju.Wire.Types.{TeamRole}
use denju.Wire.Hash.{Crates}
use denju.Wire.Mutation.Team
use denju.Wire.Mutation.Request.{Request}
use denju.Wire.Mutation.Readers.{IsRead}
use denju.Wire.Mutation.Team.{TeamPackAssignmentMutationKind}
use denju.Wire.Mutation.Read.Values.{as_role-role_json}

pub IsRead-team_create :
    (c : Crates) (operation_id : Text) (name : Text)
    → IsRead c (Request.team_create operation_id name)
unfolding IsRead Team.team_create_request
IsRead-team_create c operation_id name = (refl, refl)

pub IsRead-team_invite :
    (c : Crates) (operation_id : Text) (team : Text) (role : TeamRole) (invite_code_hash : Text)
    → IsRead c (Request.team_invite operation_id team role invite_code_hash)
unfolding IsRead Team.team_invite_request
IsRead-team_invite c operation_id team role invite_code_hash = (
  refl,
  ap (λ r0. some (Request.team_invite operation_id team r0 invite_code_hash))
      (as_role-role_json role),
)

pub IsRead-team_invite_revoke :
    (c : Crates) (operation_id : Text) (team : Text) (invite_id : Text)
    → IsRead c (Request.team_invite_revoke operation_id team invite_id)
unfolding IsRead Team.team_invite_revoke_request
IsRead-team_invite_revoke c operation_id team invite_id = (refl, refl)

pub IsRead-team_join :
    (c : Crates) (operation_id : Text) (code : Text)
    → IsRead c (Request.team_join operation_id code)
unfolding IsRead Team.team_join_request Team.code_hash_text Team.code_hash
IsRead-team_join c operation_id code = (refl, refl)

pub IsRead-team_member_role :
    (c : Crates) (operation_id : Text) (team : Text) (member_name : Text) (role : TeamRole)
    → IsRead c (Request.team_member_role operation_id team member_name role)
unfolding IsRead Team.team_member_role_request
IsRead-team_member_role c operation_id team member_name role = (
  refl,
  ap (λ r0. some (Request.team_member_role operation_id team member_name r0))
      (as_role-role_json role),
)

pub IsRead-team_member_remove :
    (c : Crates) (operation_id : Text) (team : Text) (member_name : Text)
    → IsRead c (Request.team_member_remove operation_id team member_name)
unfolding IsRead Team.team_member_remove_request
IsRead-team_member_remove c operation_id team member_name = (refl, refl)

pub IsRead-team_settings :
    (c : Crates) (operation_id : Text) (team : Text) (members_can_publish : Bool)
    → IsRead c (Request.team_settings operation_id team members_can_publish)
unfolding IsRead Team.team_settings_request
IsRead-team_settings c operation_id team members_can_publish = (refl, refl)

pub IsRead-team_pack_assignment :
    (c : Crates) (kind : TeamPackAssignmentMutationKind) (operation_id : Text) (team : Text)
    (pack_resource_id : Text)
    → IsRead c (Request.team_pack_assignment kind operation_id team pack_resource_id)
unfolding IsRead Team.team_pack_assignment_request Team.team_pack_assignment_mutation_kind_domain
IsRead-team_pack_assignment c TeamPackAssignmentMutationKind.assign operation_id team
      pack_resource_id =
    (refl, refl)
IsRead-team_pack_assignment c TeamPackAssignmentMutationKind.unassign operation_id team
      pack_resource_id =
    (refl, refl)

pub IsRead-team_leave :
    (c : Crates) (operation_id : Text) (team : Text)
    → IsRead c (Request.team_leave operation_id team)
unfolding IsRead Team.team_leave_request
IsRead-team_leave c operation_id team = (refl, refl)

pub IsRead-team_owner_transfer :
    (c : Crates) (operation_id : Text) (team : Text) (member_name : Text)
    (transfer_code_hash : Text)
    → IsRead c (Request.team_owner_transfer operation_id team member_name transfer_code_hash)
unfolding IsRead Team.team_owner_transfer_request
IsRead-team_owner_transfer c operation_id team member_name transfer_code_hash = (refl, refl)

pub IsRead-team_owner_transfer_accept :
    (c : Crates) (operation_id : Text) (code : Text)
    → IsRead c (Request.team_owner_transfer_accept operation_id code)
unfolding IsRead Team.team_owner_transfer_accept_request Team.code_hash_text Team.code_hash
IsRead-team_owner_transfer_accept c operation_id code = (refl, refl)

pub IsRead-team_delete :
    (c : Crates) (operation_id : Text) (team : Text)
    → IsRead c (Request.team_delete operation_id team)
unfolding IsRead Team.team_delete_request
IsRead-team_delete c operation_id team = (refl, refl)

pub IsRead-resource_transfer :
    (c : Crates) (operation_id : Text) (resource_id : Text) (expected_generation : ℕ)
    (destination_team : Text)
    → IsRead c
        (Request.resource_transfer operation_id resource_id expected_generation destination_team)
unfolding IsRead Team.resource_transfer_request
IsRead-resource_transfer c operation_id resource_id expected_generation destination_team =
    (refl, refl)
