-- ===== src/Registry/Social/Statements.antt =====
-- The statements of the social handlers and the functions of
-- migrations/0016_security_lock_helpers.sql that they call.
use denju.Base.{ℕ, Bool, true, false, not, ◌&&◌, ◌||◌, Option, none, some, List, [], ◌∷◌, ◌++◌}
use denju.Base.{Text, Bytes, lit, Result, ok, err, any, length}
use denju.Base.{if◌then◌else◌, ltb, ◌==◌, text_Eq}
use denju.Wire.Mutation.Account.{FollowMutationKind, StarMutationKind}
use denju.Registry.Api.{ApiError, Host, raised, internal_api_error, trim}
use denju.Registry.Tables.{
  Tables, ResourceRow, StarRow, FollowRow, first, delete_where, update_where, count_where,
  is_live_user, is_star, is_star_of, is_follow, has_id, find_namespace,
}

-- `map(str::trim).filter(|value| !value.is_empty())`
unfoldable pub trimmed_bio : Host → Option Text → Option Text
trimmed_bio h none = none
trimmed_bio h (some value) = if trim h value == [] then none else some (trim h value)

unfoldable pub is_long_bio : Option Text → Bool
is_long_bio none = false
is_long_bio (some value) = ltb 500 (length value)

-- `denju_lock_live_social_user`
unfoldable pub lock_live_user_name : Bytes → Tables → Option Text
lock_live_user_name user_id t = elim (first (is_live_user user_id) t.users) [
  | none ↦ none
  | some user ↦ elim (find_namespace user.namespace_id t.namespaces) [
    | none ↦ none
    | some n ↦ if n.kind == lit "user" then some n.slug else none
  ]
]

pub record SocialResource : Type 0 where
  pub owner_slug : Option Text
  pub row : ResourceRow

abbrev pub is_visible_to : Bytes → Tables → ResourceRow → Bool
is_visible_to actor t r =
    not r.deleted && r.visibility == lit "public" || any (is_star actor r.id) t.resource_stars

-- `denju_lock_social_resource`
unfoldable pub lock_social_resource : Bytes → Bytes → Tables → Option SocialResource
lock_social_resource actor resource_id t =
    elim (first (λ r. has_id resource_id r && is_visible_to actor t r) t.resources) [
      | none ↦ none
      | some r ↦ some (record {
        owner_slug = elim (find_namespace r.owner_namespace_id t.namespaces) [
          | none ↦ r.deleted_owner_slug
          | some n ↦ some n.slug
        ];
        row = r;
      })
    ]

abbrev pub set_star_count : ℕ → ResourceRow → ResourceRow
set_star_count count r = record r { star_count = count }

abbrev pub is_available : Bytes → ResourceRow → Bool
is_available resource_id r = has_id resource_id r && r.visibility == lit "public" && not r.deleted

-- `denju_refresh_resource_star_count`
unfoldable pub refresh_resource_star_count : Host → Bytes → Tables → Result ApiError (Tables × ℕ)
refresh_resource_star_count h resource_id t =
    let refreshed = count_where (is_star_of resource_id) t.resource_stars in
    if any (is_available resource_id) t.resources
    then ok (
      record t {
        resources = update_where (has_id resource_id) (set_star_count refreshed) t.resources;
      },
      refreshed,
    )
    else err (internal_api_error h (raised (lit "star-count refresh target is unavailable")))

unfoldable pub insert_star : Bytes → Bytes → List StarRow → List StarRow
insert_star user resource rows =
    if any (is_star user resource) rows
    then rows
    else rows ++ record { user_id = user; resource_id = resource } ∷ []

-- The statement of each kind: the rows after it, and whether it touched one.
unfoldable pub change_star : StarMutationKind → Bytes → Bytes → List StarRow → List StarRow × Bool
unfolding insert_star
change_star StarMutationKind.star user resource rows =
    (insert_star user resource rows, not (any (is_star user resource) rows))
change_star StarMutationKind.unstar user resource rows =
    (delete_where (is_star user resource) rows, any (is_star user resource) rows)

unfoldable pub change_follow : FollowMutationKind → Bytes → Bytes → List FollowRow → List FollowRow
change_follow FollowMutationKind.follow user target rows =
    if any (is_follow user target) rows
    then rows
    else rows ++ record { follower_user_id = user; followed_user_id = target } ∷ []
change_follow FollowMutationKind.unfollow user target rows =
    delete_where (is_follow user target) rows

abbrev pub is_following : FollowMutationKind → Bool
is_following FollowMutationKind.follow = true
is_following FollowMutationKind.unfollow = false

abbrev pub follow_kind_text : FollowMutationKind → Text
follow_kind_text FollowMutationKind.follow = lit "follow"
follow_kind_text FollowMutationKind.unfollow = lit "unfollow"

abbrev pub is_starring : StarMutationKind → Bool
is_starring StarMutationKind.star = true
is_starring StarMutationKind.unstar = false

abbrev pub star_kind_text : StarMutationKind → Text
star_kind_text StarMutationKind.star = lit "star"
star_kind_text StarMutationKind.unstar = lit "unstar"

abbrev pub owner_text : Option Text → Text
owner_text none = lit "deleted"
owner_text (some slug) = slug
