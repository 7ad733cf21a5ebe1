-- ===== src/Registry/Access/Defs.antt =====
-- Who may act: `user_authority` (crates/denju-registry/src/identity_support.rs) after its
-- credential is read, and the rights to publish (team_access.rs).
use denju.Base.{Bool, true, false, not, ◌&&◌, ◌||◌, none, some, List, [], ◌++◌}
use denju.Base.{Text, Bytes, lit, Result, ok, err, ◌>>=◌, ◌>>◌, ok_or, map_err, reject, any}
use denju.Base.{if◌then◌else◌, ◌==◌, text_Eq, has_char, strip_prefix}
use denju.Core.PortablePath.{slash}
use denju.Core.Locator.{
  LocatorError, missing_at_sign, invalid_shape, invalid_namespace, invalid_resource_name,
  locator_from_str,
}
use denju.Wire.Types.{TeamRole}
use denju.Registry.Api.{
  ApiError, api_error, invalid_request, unauthorized, not_found, internal, Host,
  invalid_credentials,
}
use denju.Registry.Tables.{Tables, NamespaceRow, first, find_namespace, is_live_user, has_id}

pub data AuthActor : Type 0 where
  installation : Bytes → AuthActor
  session : Bytes → Bytes → Bytes → AuthActor
  automation : Bytes → List Text → AuthActor

pub record UserAuthority : Type 0 where
  pub user_id : Bytes
  pub namespace_id : Bytes
  pub namespace_slug : Text
  pub author_principal_id : Bytes

abbrev grants : Text → Text → Bool
grants automation_scope scope =
    scope == automation_scope || scope == lit "skills:*" || scope == lit "*"

unfoldable pub acting_user : AuthActor → Text → Result ApiError Bytes
acting_user (session session_id user_id installation_id) automation_scope = ok user_id
acting_user (automation user_id scopes) automation_scope =
    if any (grants automation_scope) scopes
    then ok user_id
    else err
        (api_error unauthorized (lit "automation credential requires scope " ++ automation_scope))
acting_user (installation id) automation_scope =
    err (api_error unauthorized (lit "a claimed user identity is required"))

-- `user_authority`, from the actor that `authenticate_actor` finds.
unfoldable pub user_authority : AuthActor → Text → Tables → Result ApiError UserAuthority
unfolding acting_user
user_authority actor automation_scope t = do
  user_id ← acting_user actor automation_scope
  user ← ok_or (first (is_live_user user_id) t.users) invalid_credentials
  namespace ← ok_or (find_namespace user.namespace_id t.namespaces) invalid_credentials
  ok (record {
    user_id = user_id;
    namespace_id = namespace.id;
    namespace_slug = namespace.slug;
    author_principal_id = user.author_principal_id;
  })

unfoldable pub role_can_publish : TeamRole → Bool → Bool
role_can_publish TeamRole.owner members_can_publish = true
role_can_publish TeamRole.maintainer members_can_publish = true
role_can_publish TeamRole.member members_can_publish = members_can_publish

unfoldable pub parse_role : Text → Result ApiError TeamRole
parse_role value =
    if value == lit "owner"
    then ok TeamRole.owner
    else if value == lit "maintainer"
    then ok TeamRole.maintainer
    else if value == lit "member"
    then ok TeamRole.member
    else err (api_error internal (lit "stored team role is invalid"))

unfoldable pub locator_error_text : LocatorError → Text
locator_error_text missing_at_sign = lit "resource locators must start with '@'"
locator_error_text invalid_shape = lit "resource locators must be @owner/name or @owner/packs/name"
locator_error_text invalid_namespace =
    lit "namespace names must be non-empty lowercase path-safe text"
locator_error_text invalid_resource_name = lit "invalid resource name"

abbrev pub without_at : Text → Text
without_at value = elim (strip_prefix (lit "@") value) [ none ↦ value | some slug ↦ slug ]

unfoldable pub parse_namespace : Host → Text → Result ApiError Text
parse_namespace h value =
    let slug = without_at value in
    do
      reject (has_char slash slug || slug == [])
          (api_error invalid_request (lit "team namespace must be a single @name"))
      locator ←
          map_err (λ e. api_error invalid_request (locator_error_text e))
            (locator_from_str h.unicode (lit "@" ++ (slug ++ lit "/validation")))
      ok locator.owner

pub record NamespacePublishAuthority : Type 0 where
  pub namespace_id : Bytes
  pub namespace_slug : Text
  pub is_team : Bool

module _ (h : Host) (t : Tables) (authority : UserAuthority) where
  unfoldable pub team_publish : Text → NamespaceRow → Result ApiError NamespacePublishAuthority
  team_publish slug n = do
    membership ←
        ok_or
          (first (λ m. m.team_namespace_id == n.id && m.user_id == authority.user_id)
            t.team_memberships)
          (api_error unauthorized (lit "team is unavailable"))
    role ← parse_role membership.role
    team ←
        ok_or (first (λ m. m.namespace_id == n.id) t.teams)
          (api_error internal (lit "team settings are unavailable"))
    reject (not (role_can_publish role team.members_can_publish))
        (api_error unauthorized (lit "team role does not allow publishing"))
    ok (record { namespace_id = n.id; namespace_slug = slug; is_team = true })

  unfoldable pub authorize_namespace_publish : Text → Result ApiError NamespacePublishAuthority
  unfolding team_publish
  authorize_namespace_publish owner = do
    slug ← parse_namespace h owner
    n ←
        ok_or (first (λ n. n.slug == slug) t.namespaces)
          (api_error not_found (lit "namespace not found"))
    (if n.kind == lit "user"
        then if n.id == authority.namespace_id
          then ok (record { namespace_id = n.id; namespace_slug = slug; is_team = false })
          else err (api_error unauthorized (lit "resource namespace is unavailable"))
        else if n.kind == lit "team"
        then team_publish slug n
        else err (api_error internal (lit "stored namespace kind is invalid")))

  unfoldable pub authorize_resource_publish : Bytes → Result ApiError NamespacePublishAuthority
  unfolding authorize_namespace_publish
  authorize_resource_publish resource_id = do
    r ←
        ok_or (first (λ r. has_id resource_id r && not r.deleted && not r.quarantined) t.resources)
          (api_error not_found (lit "resource not found"))
    n ←
        ok_or (find_namespace r.owner_namespace_id t.namespaces)
          (api_error not_found (lit "resource not found"))
    authorize_namespace_publish n.slug
