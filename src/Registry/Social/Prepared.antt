-- ===== src/Registry/Social/Prepared.antt =====
-- What the handlers have in common: a part that reads only the request, and a transaction around the
-- change of that request.
use denju.Base.{◌≡◌, List, Text, Bytes, lit, Result, ok, ◌>>=◌, ◌>>◌, reject, ltb, length}
use denju.Base.{[], ◌==◌, text_Eq, ◌||◌, arith}
use denju.Wire.Json.{Json}
use denju.Wire.Mutation.Account.{
  FollowMutationKind, StarMutationKind, profile_update_request, follow_request, star_request,
  resource_topics_request, report_resource_request,
}
use denju.Registry.Api.{
  ApiError, api_error, invalid_request, Host, parse_operation, parse_hash, parse_uuid, trim,
}
use denju.Registry.Tables.{Tables}
use denju.Registry.Access.{UserAuthority}
use denju.Registry.Social.Responses.{
  SocialResponse, ProfileUpdateRequest, ResourceTopicsRequest, read_profile, read_followed,
  read_stars, read_topics, read_report,
}
use denju.Registry.Social.Topics.{normalize_topics}
use denju.Registry.Social.Statements.{trimmed_bio, is_long_bio, follow_kind_text, star_kind_text}
use denju.Registry.Social.Operations.{Operation, ensure_hash, in_operation}
use denju.Registry.Social.Handlers.{
  Change, profile_change, follow_change, star_change, topics_change, report_change, update_profile,
  mutate_follow, mutate_star, update_resource_topics, report_resource, operation,
}
use denju.Registry.Social.Calls.{SocialCall, handle}

pub data Body : Type 0 where
  profile : ProfileUpdateRequest → Body
  follow : FollowMutationKind → Bytes → Body
  star : StarMutationKind → Bytes → Body
  topics : ResourceTopicsRequest → Bytes → List Text → Body
  report : Bytes → Text → Bytes → Body

abbrev pub reader : Body → Json → Result Json SocialResponse
reader (Body.profile request) = read_profile
reader (Body.follow kind target) = read_followed
reader (Body.star kind resource_id) = read_stars
reader (Body.topics request resource_id chosen) = read_topics
reader (Body.report report_id reason resource_id) = read_report

module _ (h : Host) (authority : UserAuthority) where
  abbrev pub change : Body → Change
  change (Body.profile request) = profile_change h authority request
  change (Body.follow kind target) = follow_change h authority kind target
  change (Body.star kind resource_id) = star_change h authority kind resource_id
  change (Body.topics request resource_id chosen) =
      topics_change h authority request resource_id chosen
  change (Body.report report_id reason resource_id) =
      report_change h authority report_id reason resource_id

  unfoldable pub prepare : SocialCall → Result ApiError (Operation × Body)
  prepare (SocialCall.profile request) = do
    operation_id ← parse_operation h request.operation_id
    supplied ← parse_hash h request.request_hash
    ensure_hash h supplied (
        profile_update_request request.operation_id request.bio request.followers_visible
          request.following_visible)
    reject (is_long_bio (trimmed_bio h request.bio))
        (api_error invalid_request (lit "profile bio must contain at most 500 characters"))
    ok (operation authority operation_id supplied (lit "profile_update"), Body.profile request)
  prepare (SocialCall.follow kind request) = do
    target ← parse_uuid h request.target_user_id (lit "target user ID")
    reject (target == authority.user_id)
        (api_error invalid_request (lit "users cannot follow themselves"))
    operation_id ← parse_operation h request.operation_id
    supplied ← parse_hash h request.request_hash
    ensure_hash h supplied (follow_request kind request.operation_id request.target_user_id)
    ok (operation authority operation_id supplied (follow_kind_text kind), Body.follow kind target)
  prepare (SocialCall.star kind request) = do
    resource_id ← parse_uuid h request.resource_id (lit "resource ID")
    operation_id ← parse_operation h request.operation_id
    supplied ← parse_hash h request.request_hash
    ensure_hash h supplied (star_request kind request.operation_id request.resource_id)
    ok (operation authority operation_id supplied (star_kind_text kind), Body.star kind resource_id)
  prepare (SocialCall.topics request) = do
    resource_id ← parse_uuid h request.resource_id (lit "resource ID")
    chosen ← normalize_topics h request.topics
    operation_id ← parse_operation h request.operation_id
    supplied ← parse_hash h request.request_hash
    ensure_hash h supplied (
        resource_topics_request request.operation_id request.resource_id request.expected_generation
          request.topics)
    ok (
      operation authority operation_id supplied (lit "topics"),
      Body.topics request resource_id chosen,
    )
  prepare (SocialCall.report report_id request) = do
    resource_id ← parse_uuid h request.resource_id (lit "resource ID")
    let reason = trim h request.reason
    reject (reason == [] || ltb 64 (length reason))
        (api_error invalid_request (lit "report reason must contain 1-64 characters"))
    operation_id ← parse_operation h request.operation_id
    supplied ← parse_hash h request.request_hash
    ensure_hash h supplied
        (report_resource_request request.operation_id request.resource_id request.reason)
    ok (
      operation authority operation_id supplied (lit "report"),
      Body.report report_id reason resource_id,
    )

  abbrev pub transact : Operation × Body → Change
  transact (o, body) = in_operation h (reader body) o (change body)

  pub handle-prepare :
      (call : SocialCall) (t : Tables)
      → handle h authority call t ≡ (prepare call >>= λ p. transact p t)
  unfolding handle prepare update_profile mutate_follow mutate_star update_resource_topics
      report_resource
  handle-prepare (SocialCall.profile request) t = ground arith
  handle-prepare (SocialCall.follow kind request) t = ground arith
  handle-prepare (SocialCall.star kind request) t = ground arith
  handle-prepare (SocialCall.topics request) t = ground arith
  handle-prepare (SocialCall.report report_id request) t = ground arith
