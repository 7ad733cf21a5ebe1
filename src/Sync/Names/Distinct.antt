-- ===== src/Sync/Names/Distinct.antt =====
-- `allocate_projection_names` (crates/denju-sync/src/lib.rs) gives every skill a name of its own.
use denju.Base.{◌+◌, ◌^◌, ◌≤◌, ◌<◌, ◌≡◌, ◌≢◌, ◌⊎◌, refl, ap, true, false, not, arith, inl, inr}
use denju.Base.{
  Option, some, List, [], ◌∷◌, if◌then◌else◌, ◌==◌, text_Eq, eq-cases, Bool-cases, Option-cases,
}
use denju.Base.{Text, length, contains, All, IsDistinct}
use denju.Base.Strings.Map
use denju.Base.Strings.Map.{Map, set_insert, contains-set_insert}
use denju.Sync.Names.Alias.{ManagedSkillName}
use denju.Sync.Names.Allocate.{ProjectionAssignment, group_size, collides, harness_name_for, assign}
use denju.Sync.Names.Search.{collision_alias_from-IsFree}
use denju.Sync.Names.Canonical.{All-imp₂, ids, length-set_insert, canonical_alone}
use denju.Sync.Names.Claims.{Kept, Kept-fresh}

abbrev pub names : List ProjectionAssignment → List Text
names [] = []
names (a ∷ rest) = a.harness_name ∷ names rest

abbrev pub assigned_ids : List ProjectionAssignment → List Text
assigned_ids [] = []
assigned_ids (a ∷ rest) = a.resource_id ∷ assigned_ids rest

group_size-tail :
    (name : Text) (s : ManagedSkillName) (ss : List ManagedSkillName)
    → group_size name ss ≤ group_size name (s ∷ ss)
unfolding group_size
group_size-tail name s ss = ground arith

set_insert-keeps :
    (name : Text) (used : List Text) (k : Text)
    → contains used k ≡ true
    → contains (set_insert name used) k ≡ true
set_insert-keeps name used k h = ground (arith, contains-set_insert k name used)

set_insert-has : (name : Text) (used : List Text) → contains (set_insert name used) name ≡ true
set_insert-has name used = ground (arith, contains-set_insert name name used, eq-cases name name)

module _ (skills : List ManagedSkillName) (reserved_names : List Text) where
  -- The name that the first two loops claim for a skill.
  abbrev pub planned : Map Text → ManagedSkillName → Option Text
  planned sticky s =
      if not (collides skills reserved_names s)
      then some s.skill_name
      else Map.get s.resource_id sticky

  abbrev pub Claims : List Text → Map Text → List ManagedSkillName → Type 0
  Claims used sticky [] = Unit
  Claims used sticky (s ∷ ss) =
      ((a : Text)
        → planned sticky s ≡ some a
        → (contains used a ≡ true)
          × (contains reserved_names a ≡ false)
          × All (λ t. planned sticky t ≢ some a) ss)
      × Claims used sticky ss

  planned-apart :
      (sticky : Map Text) (t : ManagedSkillName) (a : Text)
      → (collides skills reserved_names t ≡ false → t.skill_name ≢ a)
      → Map.get t.resource_id sticky ≢ some a
      → planned sticky t ≢ some a
  planned-apart sticky t a h k e = elim (Bool-cases (collides skills reserved_names t)) [
    | inl c ↦ k (rw c at e)
    | inr c ↦ h c (cc (rw c at e))
  ]

  stays-unreserved :
      (s : ManagedSkillName)
      → collides skills reserved_names s ≡ false
      → contains reserved_names s.skill_name ≡ false
  unfolding collides
  stays-unreserved s h = ground arith

  pub Kept-Claims :
      (canonical used : List Text) (sticky : Map Text) (ss : List ManagedSkillName)
      → ((k : Text) → contains reserved_names k ≡ true → contains canonical k ≡ true)
      → ((k : Text) → contains canonical k ≡ true → contains used k ≡ true)
      → ((name : Text) → group_size name ss ≤ group_size name skills)
      → All
          (λ s. collides skills reserved_names s ≡ false → contains canonical s.skill_name ≡ true)
          ss
      → Kept skills reserved_names canonical used sticky ss
      → Claims used sticky ss
  Kept-Claims canonical used sticky [] r m g c k = tt
  Kept-Claims canonical used sticky (s ∷ ss) r m g c k = (
    (λ a e. elim (Bool-cases (collides skills reserved_names s)) [
      | inr stay ↦
          let same : s.skill_name ≡ a = cc (rw stay at e) in
          let held : contains canonical a ≡ true = rw same at (c.0 stay) in
          let alone : All (λ t. t.skill_name ≢ a) ss =
            rw same at (canonical_alone skills reserved_names s ss (g s.skill_name) stay) in
          (
            m a held,
            rw same at (stays-unreserved s stay),
            All-imp₂ _ _ _ (λ t p q. planned-apart sticky t a (λ _. p) q) ss alone
                (Kept-fresh skills reserved_names canonical used sticky ss a held k.1),
          )
      | inl moved ↦
          let (free, held, apart) = k.0 a (rw moved at e) in
          (
            held,
            elim (Bool-cases (contains reserved_names a)) [ inr n ↦ n | inl y ↦ cc (r a y) ],
            All-imp₂ _ _ _ (λ t p q. planned-apart sticky t a (λ d x. cc (p d)) q) ss c.1 apart,
          )
    ]),
    Kept-Claims canonical used sticky ss r m
        (λ name. omega (arith, g name, group_size-tail name s ss)) c.1 k.1,
  )

  Claims-mono :
      (used more : List Text) (sticky : Map Text) (ss : List ManagedSkillName)
      → ((k : Text) → contains used k ≡ true → contains more k ≡ true)
      → Claims used sticky ss
      → Claims more sticky ss
  Claims-mono used more sticky [] m c = tt
  Claims-mono used more sticky (s ∷ ss) m c = (
    (λ a e. let (held, free, apart) = c.0 a e in (m a held, free, apart)),
    Claims-mono used more sticky ss m c.1,
  )

  Claims-free :
      (used : List Text) (sticky : Map Text) (ss : List ManagedSkillName) (a : Text)
      → contains used a ≡ false
      → Claims used sticky ss
      → All (λ t. planned sticky t ≢ some a) ss
  Claims-free used sticky [] a h c = tt
  Claims-free used sticky (s ∷ ss) a h c =
      ((λ e. cc (c.0 a e).0), Claims-free used sticky ss a h c.1)

  pub Claims-reserved :
      (used : List Text) (sticky : Map Text) (ss : List ManagedSkillName) (a : Text)
      → contains reserved_names a ≡ true
      → Claims used sticky ss
      → All (λ t. planned sticky t ≢ some a) ss
  Claims-reserved used sticky [] a h c = tt
  Claims-reserved used sticky (s ∷ ss) a h c =
      ((λ e. cc (c.0 a e).1), Claims-reserved used sticky ss a h c.1)

  -- A skill gets its planned name, and otherwise one that is not used.
  harness_name_for-cases :
      (used : List Text) (sticky : Map Text) (s : ManagedSkillName)
      → length used + 2 < 2 ^ 64
      → (name : Text) × (harness_name_for skills reserved_names used sticky s ≡ some name)
        × ((planned sticky s ≡ some name) ⊎ (contains used name ≡ false))
  unfolding harness_name_for
  harness_name_for-cases used sticky s h = elim (Bool-cases (collides skills reserved_names s)) [
    | inr c ↦ (s.skill_name, rw c, inl (rw c))
    | inl c ↦ elim (Option-cases (Map.get s.resource_id sticky)) [
      | inr p ↦ (p.0, rw (c, p.1), inl (rw (c, p.1)))
      | inl n ↦
          let (name, e, free, valid) = collision_alias_from-IsFree s used h in
          (name, rw (c, n) e, inr free)
    ]
  ]

  abbrev assignment : ManagedSkillName → Text → ProjectionAssignment
  assignment s name = record {
    resource_id = s.resource_id;
    harness_name = name;
    derived = not (name == s.skill_name);
  }

  assign-cons :
      (used : List Text) (sticky : Map Text) (s : ManagedSkillName) (ss : List ManagedSkillName)
      (name : Text) (rest : List ProjectionAssignment)
      → harness_name_for skills reserved_names used sticky s ≡ some name
      → assign skills reserved_names (set_insert name used) sticky ss ≡ some rest
      → assign skills reserved_names used sticky (s ∷ ss) ≡ some (assignment s name ∷ rest)
  unfolding assign
  assign-cons used sticky s ss name rest e e' = rw (assign, e, e')

  pub assign-IsDistinct :
      (used : List Text) (sticky : Map Text) (ss : List ManagedSkillName)
      → length used + length ss + 2 < 2 ^ 64
      → Claims used sticky ss
      → (result : List ProjectionAssignment) × (assign skills reserved_names used sticky ss
          ≡ some result)
        × (assigned_ids result ≡ ids ss)
        × IsDistinct (names result)
        × ((k : Text)
            → contains used k ≡ true
            → All (λ t. planned sticky t ≢ some k) ss
            → contains (names result) k ≡ false)
  unfolding assign contains
  assign-IsDistinct used sticky [] h c = ([], refl, refl, tt, λ k p q. refl)
  assign-IsDistinct used sticky (s ∷ ss) h c =
      let (name, e, source) = harness_name_for-cases used sticky s (omega arith) in
      let used' = set_insert name used in
      let more = set_insert-keeps name used in
      let (rest, e', same_ids, distinct, away) =
        assign-IsDistinct used' sticky ss (omega (arith, length-set_insert name used))
          (Claims-mono used used' sticky ss more c.1) in
      let other : (k : Text) → contains used k ≡ true → planned sticky s ≢ some k → k ≢ name =
        λ k p q x. elim source [ inl y ↦ q (rw x y) | inr y ↦ cc (rw x at p) ] in
      let apart : All (λ t. planned sticky t ≢ some name) ss = elim source [
        | inl y ↦ (c.0 name y).2
        | inr y ↦ Claims-free used sticky ss name y c.1
      ] in
      (
        assignment s name ∷ rest,
        assign-cons used sticky s ss name rest e e',
        ap (λ (r : List Text). s.resource_id ∷ r) same_ids,
        (away name (set_insert-has name used) apart, distinct),
        (λ k p q. ground (arith, away k (more k p) q.1, eq-cases k name, other k p q.0)),
      )
