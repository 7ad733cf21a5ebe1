-- ===== src/Tests/Access.antt =====
-- Bob is a maintainer of the team core.
use mathlib.Core.List.{Mem, mem-singleton, mem-cons}
use mathlib.Core.Logic.Or
use native.Mathlib.Decide.{ℕ_discrete}
use denju.Base.{
  ◌≡◌, refl, ◌∙◌, sym, inl, inr, ◌⊎◌, lit, true, false, [], ◌∷◌, ok, text_discrete, ◌==◌, split_at,
  starts_with, last, ends_with_char, has_char, strip_prefix, any, all, contains,
}
use denju.Core.PortablePath
use denju.Core.PortablePath.{parse}
use denju.Core.Skill.{validate_skill_name, has_double_hyphen}
use denju.Core.Locator
use denju.Core.Locator.{locator_from_str}
use denju.Registry.Tables.{Tables, NamespaceRow, TeamRow, MembershipRow, first}
use denju.Registry.Access.{
  NamespacePublishAuthority, authorize_namespace_publish, parse_namespace, team_publish, parse_role,
  role_can_publish,
}
use denju.Registry.Access.Publish.{
  OwnsNamespace, PublishesForTeam, IsNamed, authorize_namespace_publish-IsNamed,
}
use denju.Registry.Access.Granted.{IsKeyed, authorize_namespace_publish-granted}
use denju.Tests.Registry.{host, registry, bob}

abbrev teamed : Tables
teamed = record registry {
  namespaces = record { id = lit "core-id"; slug = lit "core"; kind = lit "team" } ∷ [];
  teams = record { namespace_id = lit "core-id"; members_can_publish = false } ∷ [];
  team_memberships =
      record { team_namespace_id = lit "core-id"; user_id = lit "bob"; role = lit "maintainer" }
      ∷ [];
}

abbrev core_team : NamespacePublishAuthority
core_team = record { namespace_id = lit "core-id"; namespace_slug = lit "core"; is_team = true }

may_publish : authorize_namespace_publish host teamed bob (lit "@core") ≡ ok core_team
unfolding authorize_namespace_publish parse_namespace team_publish parse_role role_can_publish first
    locator_from_str Locator.read_segments Locator.validate_name Locator.validate_namespace_segment
    Locator.validate_pack_name Locator.is_lowercase_portable_segment validate_skill_name
    has_double_hyphen parse PortablePath.validate_portable_path PortablePath.validate_components
    PortablePath.validate_component PortablePath.is_windows_reserved_name
    PortablePath.component_count PortablePath.is_invalid_windows_character ◌==◌ text_discrete
    ℕ_discrete split_at starts_with last ends_with_char has_char strip_prefix any all contains
may_publish = refl

authorize_namespace_publish-IsNamed_example :
    (n : NamespaceRow) × Mem n teamed.namespaces
    × IsNamed (lit "@core") n.slug
    × (core_team.namespace_id ≡ n.id)
    × (core_team.namespace_slug ≡ n.slug)
    × (OwnsNamespace bob n core_team.is_team ⊎ PublishesForTeam teamed bob n core_team.is_team)
authorize_namespace_publish-IsNamed_example =
    authorize_namespace_publish-IsNamed host teamed bob (lit "@core") core_team may_publish

one : {A : Type 0} {x y a : A} → IsSet A → Mem x (a ∷ []) → Mem y (a ∷ []) → x ≡ y
one {x = x} {y = y} {a = a} is_set x_in y_in =
    (mem-singleton is_set).0 x_in ∙ sym ((mem-singleton is_set).0 y_in)

namespaces-set : IsSet NamespaceRow
namespaces-set = hlevel

teams-set : IsSet TeamRow
teams-set = hlevel

memberships-set : IsSet MembershipRow
memberships-set = hlevel

teamed-IsKeyed : IsKeyed teamed
teamed-IsKeyed = record {
  same_namespace = λ n m n_in m_in e. one namespaces-set n_in m_in;
  same_team = λ a b a_in b_in e. one teams-set a_in b_in;
  same_membership = λ a b a_in b_in e f. one memberships-set a_in b_in;
}

abbrev core_row : NamespaceRow
core_row = record { id = lit "core-id"; slug = lit "core"; kind = lit "team" }

is_read : parse_namespace host (lit "@core") ≡ ok (lit "core")
unfolding parse_namespace locator_from_str Locator.read_segments Locator.validate_name
    Locator.validate_namespace_segment Locator.validate_pack_name
    Locator.is_lowercase_portable_segment validate_skill_name has_double_hyphen parse
    PortablePath.validate_portable_path PortablePath.validate_components
    PortablePath.validate_component PortablePath.is_windows_reserved_name
    PortablePath.component_count PortablePath.is_invalid_windows_character ◌==◌ text_discrete
    ℕ_discrete split_at starts_with last ends_with_char has_char strip_prefix any all contains
is_read = refl

publishes : PublishesForTeam teamed bob core_row true
publishes = (
  refl,
  refl,
  record { team_namespace_id = lit "core-id"; user_id = lit "bob"; role = lit "maintainer" },
  record { namespace_id = lit "core-id"; members_can_publish = false },
  mem-cons.1 (Or.inl refl),
  refl,
  refl,
  mem-cons.1 (Or.inl refl),
  refl,
  inr (inl refl),
)

authorize_namespace_publish-granted_example :
    authorize_namespace_publish host teamed bob (lit "@core") ≡ ok core_team
authorize_namespace_publish-granted_example =
    authorize_namespace_publish-granted host teamed bob (lit "@core") core_row true teamed-IsKeyed
      is_read (mem-cons.1 (Or.inl refl)) (inr publishes)
