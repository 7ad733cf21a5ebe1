-- ===== src/Registry/Access/Granted.antt =====
-- Who has the right to publish in a namespace is let publish there.
use mathlib.Core.List.{Mem, mem-cons, not-mem-nil}
use mathlib.Core.HLevel.{⊥_prop}
use native.Mathlib.Decide.{ℕ_discrete}
use mathlib.Core.Logic.Or
use denju.Base.{lit, ◌≡◌, refl, sym, ap, ◌∙◌, Bool, true, false, ◌&&◌, some, List, [], ◌∷◌, Text}
use denju.Base.{ok, inl, inr, ◌⊎◌, arith}
use denju.Base.{◌==◌, text_Eq, eq→≡, eq_refl, ≡→eq, Option-cases, none, text_discrete}
use denju.Wire.Types.{TeamRole}
use denju.Registry.Api.{Host}
use denju.Registry.Tables.{Tables, NamespaceRow, TeamRow, MembershipRow, first}
use denju.Registry.Access.Defs.{
  UserAuthority, role_can_publish, parse_role, parse_namespace, team_publish,
  authorize_namespace_publish,
}
use denju.Registry.Access.Publish.{first-Mem, OwnsNamespace, IsPublishingRole, PublishesForTeam}

-- The unique keys of the tables: the slug of a namespace, the namespace of a team, and the team and the
-- user of a membership.
pub record IsKeyed (t : Tables) : Type 0 where
  pub same_namespace :
      (n m : NamespaceRow) → Mem n t.namespaces → Mem m t.namespaces → n.slug ≡ m.slug → n ≡ m
  pub same_team :
      (a b : TeamRow) → Mem a t.teams → Mem b t.teams → a.namespace_id ≡ b.namespace_id → a ≡ b
  pub same_membership :
      (a b : MembershipRow)
      → Mem a t.team_memberships
      → Mem b t.team_memberships
      → a.team_namespace_id ≡ b.team_namespace_id
      → a.user_id ≡ b.user_id
      → a ≡ b

first-none :
    {A : Type 0} (p : A → Bool) (xs : List A) (x : A)
    → first p xs ≡ none
    → p x ≡ true
    → Mem x xs
    → ⊥
unfolding first
first-none p [] x e holds m = not-mem-nil m
first-none p (y ∷ ys) x e holds m =
    Or.elim ⊥_prop (mem-cons.0 m)
      (λ same. let kept : p y ≡ true = rw (sym same) holds in ground arith)
      (λ later. first-none p ys x (ground arith) holds later)

-- A row is found where it is the only one that meets the test.
first-only :
    {A : Type 0} (p : A → Bool) (xs : List A) (x : A)
    → Mem x xs
    → p x ≡ true
    → ((y : A) → Mem y xs → p y ≡ true → y ≡ x)
    → first p xs ≡ some x
first-only p xs x m holds only = elim (Option-cases (first p xs)) [
  | inl missing ↦ absurd (first-none p xs x missing holds m)
  | inr (y, found) ↦
      let (stored, passes) = first-Mem p xs y found in found ∙ ap some (only y stored passes)
]

IsPublishingRole-parse_role :
    (value : Text) (team : TeamRow)
    → IsPublishingRole value team
    → (role : TeamRole) × (parse_role value ≡ ok role)
      × (role_can_publish role team.members_can_publish ≡ true)
unfolding parse_role role_can_publish ◌==◌ text_discrete ℕ_discrete
IsPublishingRole-parse_role value team (inl owner) = (TeamRole.owner, ap parse_role owner, refl)
IsPublishingRole-parse_role value team (inr (inl maintainer)) =
    (TeamRole.maintainer, ap parse_role maintainer, refl)
IsPublishingRole-parse_role value team (inr (inr (member, may))) =
    (TeamRole.member, ap parse_role member, may)

team_is_no_user : (kind : Text) → kind ≡ lit "team" → (kind == lit "user") ≡ false
unfolding ◌==◌ text_discrete ℕ_discrete
team_is_no_user kind e = ap (λ k. k == lit "user") e

module _ (h : Host) (t : Tables) (authority : UserAuthority) where
  team_publish-granted :
      (slug : Text) (n : NamespaceRow) (is_team : Bool)
      → IsKeyed t
      → PublishesForTeam t authority n is_team
      → team_publish h t authority slug n
        ≡ ok (record { namespace_id = n.id; namespace_slug = slug; is_team = is_team })
  unfolding team_publish
  team_publish-granted slug n is_team keyed
        (kind, is, m, team, member_in, of_namespace, of_user, team_in, of_team, may) =
      let is_member : MembershipRow → Bool =
        λ r. r.team_namespace_id == n.id && r.user_id == authority.user_id in
      let at_team = ≡→eq m.team_namespace_id n.id of_namespace in
      let at_user = ≡→eq m.user_id authority.user_id of_user in
      let member : first is_member t.team_memberships ≡ some m =
        first-only is_member t.team_memberships m member_in (ground (arith, at_team, at_user))
          (λ r stored passes.
            keyed.same_membership r m stored member_in
              (eq→≡ r.team_namespace_id n.id (ground (arith, passes)) ∙ sym of_namespace)
              (eq→≡ r.user_id authority.user_id (ground (arith, passes)) ∙ sym of_user)) in
      let settings : first (λ s. s.namespace_id == n.id) t.teams ≡ some team =
        first-only (λ s. s.namespace_id == n.id) t.teams team team_in
          (≡→eq team.namespace_id n.id of_team)
          (λ s stored passes.
            keyed.same_team s team stored team_in
              (eq→≡ s.namespace_id n.id passes ∙ sym of_team)) in
      let (role, parsed, allowed) = IsPublishingRole-parse_role m.role team may in
      ground (arith, member, settings, parsed, allowed, is)

  -- Where the unique keys of the tables hold: a user who owns the stored namespace that the owner is read as,
  -- or who is a member of its team in a role that may publish, is let publish there.
  pub authorize_namespace_publish-granted :
      (owner : Text) (n : NamespaceRow) (is_team : Bool)
      → IsKeyed t
      → parse_namespace h owner ≡ ok n.slug
      → Mem n t.namespaces
      → OwnsNamespace authority n is_team ⊎ PublishesForTeam t authority n is_team
      → authorize_namespace_publish h t authority owner
        ≡ ok (record { namespace_id = n.id; namespace_slug = n.slug; is_team = is_team })
  unfolding authorize_namespace_publish
  authorize_namespace_publish-granted owner n is_team keyed parsed stored right =
      let found : first (λ m. m.slug == n.slug) t.namespaces ≡ some n =
        first-only (λ m. m.slug == n.slug) t.namespaces n stored (eq_refl n.slug)
          (λ m other passes. keyed.same_namespace m n other stored (eq→≡ m.slug n.slug passes)) in
      elim right [
        | inl (user, own, plain) ↦
            let at_user = ≡→eq n.kind (lit "user") user in
            let at_own = ≡→eq n.id authority.namespace_id own in
            ground (arith, parsed, found, at_user, at_own, plain)
        | inr team ↦
            let at_team = ≡→eq n.kind (lit "team") team.0 in
            let granted = team_publish-granted n.slug n is_team keyed team in
            let no_user = team_is_no_user n.kind team.0 in
            ground (arith, parsed, found, at_team, no_user, granted)
      ]
