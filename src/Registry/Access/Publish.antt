-- ===== src/Registry/Access/Publish.antt =====
-- Who may publish in a namespace.
use mathlib.Core.List.{Mem, mem-cons}
use mathlib.Core.Logic.Or
use denju.Base.{lit, ◌≡◌, sym, ap, ◌∙◌, Bool, true, false, ◌&&◌, some, List, [], ◌∷◌, ◌++◌, Text}
use denju.Base.{ok, Result-cases, Option-cases, inl, inr, ◌⊎◌, arith}
use denju.Base.{
  ◌==◌, text_Eq, eq-cases, eq→≡, Bool-cases, has_char, strip_prefix, strip_prefix-append,
  strip_prefix_self,
}
use denju.Base.{split_at, split_at-append}
use denju.Core.PortablePath.{slash}
use denju.Core.Locator.{ResourceLocator, locator_from_str, read_segments}
use denju.Core.Locator.RoundTrip.{locator-parts}
use denju.Core.Unicode.{Unicode}
use denju.Wire.Types.{TeamRole}
use denju.Registry.Api.{Host}
use denju.Registry.Tables.{Tables, NamespaceRow, TeamRow, MembershipRow, first}
use denju.Registry.Access.Defs.{
  UserAuthority, NamespacePublishAuthority, role_can_publish, parse_role, parse_namespace,
  without_at, team_publish, authorize_namespace_publish,
}

-- A user owns the namespace of their own, and publishes there for themselves.
abbrev pub OwnsNamespace : UserAuthority → NamespaceRow → Bool → Type 0
OwnsNamespace authority n is_team =
    (n.kind ≡ lit "user") × (n.id ≡ authority.namespace_id) × (is_team ≡ false)

-- Owners and maintainers may publish, and members where the settings of the team say so.
abbrev pub IsPublishingRole : Text → TeamRow → Type 0
IsPublishingRole role team =
    (role ≡ lit "owner")
    ⊎ ((role ≡ lit "maintainer") ⊎ ((role ≡ lit "member") × (team.members_can_publish ≡ true)))

-- The user is a member of the team, in a role that may publish there.
abbrev pub PublishesForTeam : Tables → UserAuthority → NamespaceRow → Bool → Type 0
PublishesForTeam t authority n is_team =
    (n.kind ≡ lit "team")
    × (is_team ≡ true)
    × (m : MembershipRow) × (team : TeamRow) × Mem m t.team_memberships
    × (m.team_namespace_id ≡ n.id)
    × (m.user_id ≡ authority.user_id)
    × Mem team t.teams
    × (team.namespace_id ≡ n.id)
    × IsPublishingRole m.role team

-- The owner names the namespace, with or without the sign before it.
abbrev pub IsNamed : Text → Text → Type 0
IsNamed owner slug = (owner ≡ slug) ⊎ (owner ≡ lit "@" ++ slug)

pub first-Mem :
    {A : Type 0} (p : A → Bool) (xs : List A) (x : A)
    → first p xs ≡ some x
    → Mem x xs × (p x ≡ true)
unfolding first
first-Mem p [] x e = cc e
first-Mem p (y ∷ ys) x e = elim (Bool-cases (p y)) [
  | inl c ↦ let same : x ≡ y = ground arith in (mem-cons.1 (Or.inl same), rw same c)
  | inr c ↦ let (rest, holds) = first-Mem p ys x (ground arith) in (mem-cons.1 (Or.inr rest), holds)
]

-- A text without a slash, read as the owner of a locator, is that owner.
locator-owner :
    (u : Unicode) (slug : Text) (l : ResourceLocator)
    → has_char slash slug ≡ false
    → locator_from_str u (lit "@" ++ (slug ++ lit "/validation")) ≡ ok l
    → l.owner ≡ slug
unfolding read_segments split_at
locator-owner u slug l plain e =
    let (rest, stripped, segments, _, _) =
      locator-parts u (lit "@" ++ (slug ++ lit "/validation")) l e in
    let same : rest ≡ slug ++ lit "/validation" =
      cc (stripped, strip_prefix_self (lit "@") (slug ++ lit "/validation")) in
    let pieces : split_at slash rest ≡ slug ∷ lit "validation" ∷ [] =
      ap (split_at slash) same ∙ split_at-append slash slug (lit "validation") plain in
    let read : read_segments (slug ∷ lit "validation" ∷ []) ≡ ok (l.owner, l.kind, l.name) =
      sym (ap read_segments pieces) ∙ segments in
    cc read

parse_namespace-IsNamed :
    (h : Host) (owner slug : Text) → parse_namespace h owner ≡ ok slug → IsNamed owner slug
unfolding parse_namespace
parse_namespace-IsNamed h owner slug e =
    elim (Result-cases
      (locator_from_str h.unicode (lit "@" ++ (without_at owner ++ lit "/validation")))) [
        | inr (failure, failed) ↦ absurd (ground arith)
        | inl (l, read) ↦
            let plain : has_char slash (without_at owner) ≡ false = ground arith in
            let named : l.owner ≡ slug = ground arith in
            let same : slug ≡ without_at owner =
              sym named ∙ locator-owner h.unicode (without_at owner) l plain read in
            elim (Option-cases (strip_prefix (lit "@") owner)) [
              | inl bare ↦ inl (ground arith)
              | inr (rest, stripped) ↦ inr (
                  strip_prefix-append (lit "@") owner rest stripped
                  ∙ ap (λ s. lit "@" ++ s) (ground arith))
            ]
      ]

parse_role-IsPublishingRole :
    (value : Text) (role : TeamRole) (team : TeamRow)
    → parse_role value ≡ ok role
    → role_can_publish role team.members_can_publish ≡ true
    → IsPublishingRole value team
unfolding parse_role role_can_publish
parse_role-IsPublishingRole value role team e may = elim (eq-cases value (lit "owner")) [
  | inl c ↦ inl c.1
  | inr c ↦ elim (eq-cases value (lit "maintainer")) [
    | inl d ↦ inr (inl d.1)
    | inr d ↦ elim (eq-cases value (lit "member")) [
      | inl m ↦ inr (inr (m.1, ground (arith, c.0, d.0, m.0)))
      | inr m ↦ absurd (ground (arith, c.0, d.0, m.0))
    ]
  ]
]

module _ (h : Host) (t : Tables) (authority : UserAuthority) where
  team_publish-PublishesForTeam :
      (slug : Text) (n : NamespaceRow) (p : NamespacePublishAuthority)
      → n.kind ≡ lit "team"
      → team_publish h t authority slug n ≡ ok p
      → (p.namespace_id ≡ n.id)
        × (p.namespace_slug ≡ slug)
        × PublishesForTeam t authority n p.is_team
  unfolding team_publish
  team_publish-PublishesForTeam slug n p kind e =
      let is_member : MembershipRow → Bool =
        λ m. m.team_namespace_id == n.id && m.user_id == authority.user_id in
      elim (Option-cases (first is_member t.team_memberships)) [
        | inl none_found ↦ absurd (ground arith)
        | inr (m, member) ↦ elim (Result-cases (parse_role m.role)) [
          | inr (failure, failed) ↦ absurd (ground arith)
          | inl (role, parsed) ↦ elim (Option-cases (first (λ s. s.namespace_id == n.id) t.teams)) [
            | inl none_found ↦ absurd (ground arith)
            | inr (team, settings) ↦
                let (member_in, matches) = first-Mem is_member t.team_memberships m member in
                let (team_in, of_team) =
                  first-Mem (λ s. s.namespace_id == n.id) t.teams team settings in
                let may : role_can_publish role team.members_can_publish ≡ true = ground arith in
                (
                  ground arith,
                  ground arith,
                  (
                    kind,
                    ground arith,
                    m,
                    team,
                    member_in,
                    eq→≡ m.team_namespace_id n.id (ground arith),
                    eq→≡ m.user_id authority.user_id (ground arith),
                    team_in,
                    eq→≡ team.namespace_id n.id of_team,
                    parse_role-IsPublishingRole m.role role team parsed may,
                  ),
                )
          ]
        ]
      ]

  -- Who is let publish for an owner publishes in a stored namespace that the owner names, which is their
  -- own, or that of a team where they are a member in a role that may publish.
  pub authorize_namespace_publish-IsNamed :
      (owner : Text) (p : NamespacePublishAuthority)
      → authorize_namespace_publish h t authority owner ≡ ok p
      → (n : NamespaceRow) × Mem n t.namespaces
        × IsNamed owner n.slug
        × (p.namespace_id ≡ n.id)
        × (p.namespace_slug ≡ n.slug)
        × (OwnsNamespace authority n p.is_team ⊎ PublishesForTeam t authority n p.is_team)
  unfolding authorize_namespace_publish
  authorize_namespace_publish-IsNamed owner p e = elim (Result-cases (parse_namespace h owner)) [
    | inr (failure, failed) ↦ absurd (ground arith)
    | inl (slug, parsed) ↦ elim (Option-cases (first (λ n. n.slug == slug) t.namespaces)) [
      | inl none_found ↦ absurd (ground arith)
      | inr (n, found) ↦
          let (stored, named) = first-Mem (λ n. n.slug == slug) t.namespaces n found in
          let same_slug : n.slug ≡ slug = eq→≡ n.slug slug named in
          let owned : IsNamed owner n.slug =
            rw same_slug (parse_namespace-IsNamed h owner slug parsed) in
          elim (eq-cases n.kind (lit "user")) [
            | inl user ↦ (
              n,
              stored,
              owned,
              ground arith,
              ground arith,
              inl (user.1, ground (arith, eq-cases n.id authority.namespace_id), ground arith),
            )
            | inr other ↦
                let team : team_publish h t authority slug n ≡ ok p = ground arith in
                let kind : n.kind ≡ lit "team" = ground (arith, eq-cases n.kind (lit "team")) in
                let (same, slugs, may) = team_publish-PublishesForTeam slug n p kind team in
                (n, stored, owned, same, slugs ∙ sym same_slug, inr may)
          ]
    ]
  ]
