-- ===== src/Registry/Social/Calls.antt =====
-- The calls of the social routes, and what a sequence of them makes of the tables.
use denju.Base.{Bytes, List, [], ◌∷◌, Result}
use denju.Wire.Mutation.Account.{FollowMutationKind, StarMutationKind}
use denju.Registry.Api.{ApiError, Host}
use denju.Registry.Tables.{Tables}
use denju.Registry.Access.{UserAuthority}
use denju.Registry.Social.Responses.{
  SocialResponse, ProfileUpdateRequest, FollowMutationRequest, StarMutationRequest,
  ResourceTopicsRequest, ReportResourceRequest,
}
use denju.Registry.Social.Operations.{commit}
use denju.Registry.Social.Handlers.{
  Change, update_profile, mutate_follow, mutate_star, update_resource_topics, report_resource,
}

pub data SocialCall : Type 0 where
  profile : ProfileUpdateRequest → SocialCall
  follow : FollowMutationKind → FollowMutationRequest → SocialCall
  star : StarMutationKind → StarMutationRequest → SocialCall
  topics : ResourceTopicsRequest → SocialCall
  report : Bytes → ReportResourceRequest → SocialCall

module _ (h : Host) where
  unfoldable pub handle : UserAuthority → SocialCall → Change
  unfolding update_profile mutate_follow mutate_star update_resource_topics report_resource
  handle authority (profile request) = update_profile h authority request
  handle authority (follow kind request) = mutate_follow h authority kind request
  handle authority (star kind request) = mutate_star h authority kind request
  handle authority (topics request) = update_resource_topics h authority request
  handle authority (report report_id request) = report_resource h authority report_id request

  -- A call as its client sees it: the tables after it, and its response or error.
  unfoldable pub serve :
      UserAuthority → SocialCall → Tables → Tables × Result ApiError SocialResponse
  unfolding handle commit
  serve authority call t = commit t (handle authority call t)

  -- Calls of any users, one transaction after the other.
  unfoldable pub serve_all : List (UserAuthority × SocialCall) → Tables → Tables
  unfolding serve
  serve_all [] t = t
  serve_all ((authority, call) ∷ rest) t = serve_all rest (serve authority call t).0
