-- ===== src/Wire/Mutation/Readers/Pack.antt =====
-- The readers of the domains of Pack (crates/denju-wire/src/mutation.rs and mutation/).
use denju.Base.{[], ◌∷◌, lit}
use denju.Base.Strings.Map.{Map}
use denju.Wire.Json.{Json, field}
use denju.Wire.Mutation.Domain.{http_domain}
use denju.Wire.Mutation.Read.Values.{
  as_flag, as_list, as_member, text_at, operation, resource, generation,
}
use denju.Wire.Mutation.Request.{Request}
use denju.Wire.Mutation.Pack.{PackMutationKind, PackSubscriptionMutationKind}

unfoldable pub pack_readers : Map (Json → Request)
pack_readers =
    (
      http_domain (lit "pack-create"),
      λ j. Request.pack_create (operation j) (text_at (lit "owner") j) (text_at (lit "name") j),
    )
    ∷ (
      http_domain (lit "pack-add"),
      λ j.
          Request.pack_mutation PackMutationKind.add (operation j) (resource j) (generation j)
            (as_list as_member (field (lit "members") j)),
    )
    ∷ (
      http_domain (lit "pack-remove"),
      λ j.
          Request.pack_mutation PackMutationKind.remove (operation j) (resource j) (generation j)
            (as_list as_member (field (lit "members") j)),
    )
    ∷ (
      http_domain (lit "pack-publish"),
      λ j.
          Request.pack_publish (operation j) (resource j) (generation j)
            (as_flag (field (lit "public") j)),
    )
    ∷ (
      http_domain (lit "pack-rename"),
      λ j.
          Request.pack_rename (operation j) (resource j) (generation j)
            (text_at (lit "new_name") j),
    )
    ∷ (
      http_domain (lit "pack-unpublish"),
      λ j. Request.pack_unpublish (operation j) (resource j) (generation j),
    )
    ∷ (
      http_domain (lit "pack-delete"),
      λ j. Request.pack_delete (operation j) (resource j) (generation j),
    )
    ∷ (
      http_domain (lit "pack-subscribe"),
      λ j.
          Request.pack_subscription PackSubscriptionMutationKind.subscribe (operation j)
            (resource j) (generation j),
    )
    ∷ (
      http_domain (lit "pack-unsubscribe"),
      λ j.
          Request.pack_subscription PackSubscriptionMutationKind.unsubscribe (operation j)
            (resource j) (generation j),
    )
    ∷ []
