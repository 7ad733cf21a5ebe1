-- ===== src/Wire/Mutation/Read/Pack.antt =====
-- What is hashed of a request determines it: the requests of Pack
-- (crates/denju-wire/src/mutation.rs).

use denju.Base.{refl, ap, some, List, Text, ℕ, Bool}
use denju.Wire.Types.{PackMemberTarget}
use denju.Wire.Hash.{Crates}
use denju.Wire.Mutation.Pack
use denju.Wire.Mutation.Request.{Request}
use denju.Wire.Mutation.Readers.{IsRead}
use denju.Wire.Mutation.Pack.{PackMutationKind, PackSubscriptionMutationKind}
use denju.Wire.Mutation.Read.Values.{as_member-member_items}

pub IsRead-pack_create :
    (c : Crates) (operation_id : Text) (owner : Text) (name : Text)
    → IsRead c (Request.pack_create operation_id owner name)
unfolding IsRead Pack.pack_create_request
IsRead-pack_create c operation_id owner name = (refl, refl)

pub IsRead-pack_mutation :
    (c : Crates) (kind : PackMutationKind) (operation_id : Text) (resource_id : Text)
    (expected_generation : ℕ) (members : List PackMemberTarget)
    → IsRead c (Request.pack_mutation kind operation_id resource_id expected_generation members)
unfolding IsRead Pack.pack_mutation_request Pack.pack_mutation_kind_domain
IsRead-pack_mutation c PackMutationKind.add operation_id resource_id expected_generation members = (
  refl,
  ap
      (λ m0. some (
        Request.pack_mutation PackMutationKind.add operation_id resource_id expected_generation m0))
      (as_member-member_items members),
)
IsRead-pack_mutation c PackMutationKind.remove operation_id resource_id expected_generation
      members =
    (
      refl,
      ap
          (λ m0. some (
            Request.pack_mutation PackMutationKind.remove operation_id resource_id
              expected_generation m0))
          (as_member-member_items members),
    )

pub IsRead-pack_publish :
    (c : Crates) (operation_id : Text) (resource_id : Text) (expected_generation : ℕ)
    (public : Bool)
    → IsRead c (Request.pack_publish operation_id resource_id expected_generation public)
unfolding IsRead Pack.pack_publish_request
IsRead-pack_publish c operation_id resource_id expected_generation public = (refl, refl)

pub IsRead-pack_rename :
    (c : Crates) (operation_id : Text) (resource_id : Text) (expected_generation : ℕ)
    (new_name : Text)
    → IsRead c (Request.pack_rename operation_id resource_id expected_generation new_name)
unfolding IsRead Pack.pack_rename_request
IsRead-pack_rename c operation_id resource_id expected_generation new_name = (refl, refl)

pub IsRead-pack_unpublish :
    (c : Crates) (operation_id : Text) (resource_id : Text) (expected_generation : ℕ)
    → IsRead c (Request.pack_unpublish operation_id resource_id expected_generation)
unfolding IsRead Pack.pack_unpublish_request
IsRead-pack_unpublish c operation_id resource_id expected_generation = (refl, refl)

pub IsRead-pack_delete :
    (c : Crates) (operation_id : Text) (resource_id : Text) (expected_generation : ℕ)
    → IsRead c (Request.pack_delete operation_id resource_id expected_generation)
unfolding IsRead Pack.pack_delete_request
IsRead-pack_delete c operation_id resource_id expected_generation = (refl, refl)

pub IsRead-pack_subscription :
    (c : Crates) (kind : PackSubscriptionMutationKind) (operation_id : Text) (resource_id : Text)
    (expected_generation : ℕ)
    → IsRead c (Request.pack_subscription kind operation_id resource_id expected_generation)
unfolding IsRead Pack.pack_subscription_request Pack.pack_subscription_mutation_kind_domain
IsRead-pack_subscription c PackSubscriptionMutationKind.subscribe operation_id resource_id
      expected_generation =
    (refl, refl)
IsRead-pack_subscription c PackSubscriptionMutationKind.unsubscribe operation_id resource_id
      expected_generation =
    (refl, refl)
