-- ===== src/Registry/Social/Handlers.antt =====
-- The handlers (crates/denju-registry/src/social.rs). `authority` is the user that
-- `user_authority` found.
use denju.Base.{ℕ, Bool, true, false, not, ◌&&◌, ◌||◌, List, [], ◌∷◌, ◌++◌}
use denju.Base.{Text, Bytes, lit, Result, ok, ◌>>=◌, ◌>>◌, ok_or, reject, any, length}
use denju.Base.{ltb, nat_eq, ◌==◌, text_Eq}
use denju.Core.Ids.{Id7}
use denju.Wire.Hash.{RequestHash}
use denju.Wire.Mutation.Account.{
  FollowMutationKind, StarMutationKind, profile_update_request, follow_request, star_request,
  resource_topics_request, report_resource_request,
}
use denju.Registry.Api.{
  ApiError, api_error, invalid_request, generation_conflict, not_found, Host, row_not_found,
  duplicate_key, internal_api_error, parse_operation, parse_hash, parse_uuid, trim, next_generation,
}
use denju.Registry.Tables.{Tables, first, update_where, is_live_user, has_id, find_namespace}
use denju.Registry.Access.{UserAuthority, authorize_resource_publish}
use denju.Registry.Outbox.{enqueue_resource_wake}
use denju.Registry.Social.Responses.{
  SocialResponse, ProfileUpdateRequest, FollowMutationRequest, StarMutationRequest,
  ResourceTopicsRequest, ReportResourceRequest, profile, followed, stars, topics, report,
  read_profile, read_followed, read_stars, read_topics, read_report,
}
use denju.Registry.Social.Topics.{normalize_topics}
use denju.Registry.Social.Operations.{Operation, ensure_hash, in_operation}
use denju.Registry.Social.Statements.{
  trimmed_bio, is_long_bio, lock_live_user_name, lock_social_resource, refresh_resource_star_count,
  change_star, change_follow, is_following, follow_kind_text, is_starring, star_kind_text,
  owner_text,
}

-- What a handler does: it gives the tables after the transaction and the response.
abbrev pub Change : Type 0
Change = Tables → Result ApiError (Tables × SocialResponse)

abbrev pub operation : UserAuthority → Id7 → RequestHash → Text → Operation
operation authority operation_id supplied kind = record {
  user_id = authority.user_id;
  operation_id = operation_id.bytes;
  request_hash = supplied;
  kind = kind;
}

module _ (h : Host) (authority : UserAuthority) where
  unfoldable pub profile_change : ProfileUpdateRequest → Change
  unfolding trimmed_bio
  profile_change request t = ok (
    record t {
      users =
          update_where (is_live_user authority.user_id)
            (λ u. record u {
              bio = trimmed_bio h request.bio;
              followers_visible = request.followers_visible;
              following_visible = request.following_visible;
            })
            t.users;
    },
    profile (record {
      user_id = h.uuid_text authority.user_id;
      username = lit "@" ++ authority.namespace_slug;
      bio = trimmed_bio h request.bio;
      followers_visible = request.followers_visible;
      following_visible = request.following_visible;
    }),
  )

  unfoldable pub update_profile : ProfileUpdateRequest → Change
  unfolding profile_change in_operation ensure_hash is_long_bio
  update_profile request t = do
    operation_id ← parse_operation h request.operation_id
    supplied ← parse_hash h request.request_hash
    ensure_hash h supplied (
        profile_update_request request.operation_id request.bio request.followers_visible
          request.following_visible)
    reject (is_long_bio (trimmed_bio h request.bio))
        (api_error invalid_request (lit "profile bio must contain at most 500 characters"))
    in_operation h read_profile (operation authority operation_id supplied (lit "profile_update"))
        (profile_change request) t

  unfoldable pub follow_change : FollowMutationKind → Bytes → Change
  unfolding change_follow lock_live_user_name
  follow_change kind target t = do
    username ← ok_or (lock_live_user_name target t) (api_error not_found (lit "user not found"))
    ok (
      record t { user_follows = change_follow kind authority.user_id target t.user_follows },
      followed (record {
        target_user_id = h.uuid_text target;
        username = lit "@" ++ username;
        following = is_following kind;
      }),
    )

  unfoldable pub mutate_follow : FollowMutationKind → FollowMutationRequest → Change
  unfolding follow_change in_operation ensure_hash
  mutate_follow kind request t = do
    target ← parse_uuid h request.target_user_id (lit "target user ID")
    reject (target == authority.user_id)
        (api_error invalid_request (lit "users cannot follow themselves"))
    operation_id ← parse_operation h request.operation_id
    supplied ← parse_hash h request.request_hash
    ensure_hash h supplied (follow_request kind request.operation_id request.target_user_id)
    in_operation h read_followed (operation authority operation_id supplied (follow_kind_text kind))
        (follow_change kind target) t

  -- The count after the change: refreshed, or as it stands in the row.
  unfoldable pub count_stars : Bool → Bytes → Tables → Result ApiError (Tables × ℕ)
  unfolding refresh_resource_star_count
  count_stars true resource_id t = refresh_resource_star_count h resource_id t
  count_stars false resource_id t = do
    r ← ok_or (first (has_id resource_id) t.resources) (internal_api_error h row_not_found)
    ok (t, r.star_count)

  unfoldable pub star_change : StarMutationKind → Bytes → Change
  unfolding count_stars change_star lock_social_resource
  star_change kind resource_id t = do
    resource ←
        ok_or (lock_social_resource authority.user_id resource_id t)
          (api_error not_found (lit "skill not found"))
    reject (not (resource.row.kind == lit "skill"))
        (api_error invalid_request (lit "only skills can be starred"))
    reject
        (is_starring kind
          && (resource.row.deleted
              || not (resource.row.visibility == lit "public")
              || not resource.row.released))
        (api_error invalid_request (lit "only active public skills can be starred"))
    (counted, star_count) ←
        count_stars (change_star kind authority.user_id resource_id t.resource_stars).1 resource_id
          (record t {
            resource_stars = (change_star kind authority.user_id resource_id t.resource_stars).0;
          })
    ok (
      counted,
      stars (record {
        resource_id = h.uuid_text resource_id;
        locator = lit "@" ++ (owner_text resource.owner_slug ++ (lit "/" ++ resource.row.slug));
        starred = is_starring kind;
        star_count = star_count;
      }),
    )

  unfoldable pub mutate_star : StarMutationKind → StarMutationRequest → Change
  unfolding star_change in_operation ensure_hash
  mutate_star kind request t = do
    resource_id ← parse_uuid h request.resource_id (lit "resource ID")
    operation_id ← parse_operation h request.operation_id
    supplied ← parse_hash h request.request_hash
    ensure_hash h supplied (star_request kind request.operation_id request.resource_id)
    in_operation h read_stars (operation authority operation_id supplied (star_kind_text kind))
        (star_change kind resource_id) t

  unfoldable pub topics_change : ResourceTopicsRequest → Bytes → List Text → Change
  unfolding enqueue_resource_wake authorize_resource_publish
  topics_change request resource_id chosen t = do
    publisher ← authorize_resource_publish h t authority resource_id
    r ←
        ok_or (first (λ r. has_id resource_id r && not r.deleted) t.resources)
          (api_error not_found (lit "resource not found"))
    n ←
        ok_or (find_namespace r.owner_namespace_id t.namespaces)
          (api_error not_found (lit "resource not found"))
    reject (not (nat_eq r.generation request.expected_generation))
        (api_error generation_conflict (lit "resource generation changed; refresh and retry"))
    next ← next_generation r.generation
    woken ← enqueue_resource_wake h resource_id next (record t {
      resources =
          update_where (has_id resource_id)
            (λ r. record r { discovery_topics = chosen; generation = next }) t.resources;
    })
    ok (
      woken,
      topics (record {
        resource_id = h.uuid_text resource_id;
        locator = lit "@" ++ (n.slug ++ (lit "/" ++ r.slug));
        generation = next;
        topics = chosen;
      }),
    )

  unfoldable pub update_resource_topics : ResourceTopicsRequest → Change
  unfolding topics_change in_operation ensure_hash normalize_topics
  update_resource_topics request t = do
    resource_id ← parse_uuid h request.resource_id (lit "resource ID")
    chosen ← normalize_topics h request.topics
    operation_id ← parse_operation h request.operation_id
    supplied ← parse_hash h request.request_hash
    ensure_hash h supplied (
        resource_topics_request request.operation_id request.resource_id request.expected_generation
          request.topics)
    in_operation h read_topics (operation authority operation_id supplied (lit "topics"))
        (topics_change request resource_id chosen) t

  -- `report_id` is what `Uuid::now_v7` gives.
  unfoldable pub report_change : Bytes → Text → Bytes → Change
  unfolding lock_social_resource
  report_change report_id reason resource_id t = do
    resource ←
        ok_or (lock_social_resource authority.user_id resource_id t)
          (api_error not_found (lit "public resource not found"))
    reject (not (resource.row.visibility == lit "public" && not resource.row.deleted))
        (api_error not_found (lit "public resource not found"))
    reject (any (λ r. r.id == report_id) t.resource_reports) (internal_api_error h duplicate_key)
    ok (
      record t {
        resource_reports =
            t.resource_reports
            ++ record {
              id = report_id;
              reporter_user_id = authority.user_id;
              resource_id = resource_id;
              reason = reason;
            }
              ∷ [];
      },
      report (record {
        report_id = h.uuid_text report_id;
        resource_id = h.uuid_text resource_id;
        accepted = true;
      }),
    )

  unfoldable pub report_resource : Bytes → ReportResourceRequest → Change
  unfolding report_change in_operation ensure_hash
  report_resource report_id request t = do
    resource_id ← parse_uuid h request.resource_id (lit "resource ID")
    let reason = trim h request.reason
    reject (reason == [] || ltb 64 (length reason))
        (api_error invalid_request (lit "report reason must contain 1-64 characters"))
    operation_id ← parse_operation h request.operation_id
    supplied ← parse_hash h request.request_hash
    ensure_hash h supplied
        (report_resource_request request.operation_id request.resource_id request.reason)
    in_operation h read_report (operation authority operation_id supplied (lit "report"))
        (report_change report_id reason resource_id) t
