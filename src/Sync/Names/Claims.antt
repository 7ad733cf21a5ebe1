-- ===== src/Sync/Names/Claims.antt =====
-- The aliases that the second loop of `allocate_projection_names` keeps
-- (crates/denju-sync/src/lib.rs).
use denju.Base.{◌+◌, ◌≤◌, ◌≡◌, ◌≢◌, refl, sym, ◌∙◌, Bool, true, false, arith, inl, inr}
use denju.Base.{none, some, List, [], ◌∷◌, if◌then◌else◌, text_Eq, eq-cases, Bool-cases}
use denju.Base.{Text, length, contains, All, IsDistinct}
use denju.Base.Strings.Map
use denju.Base.Strings.Map.{Map, get-insert, set_insert, contains-set_insert}
use denju.Sync.Names.Alias.{ManagedSkillName}
use denju.Sync.Names.Allocate.{keeps_alias, previous_of, keep_aliases}
use denju.Sync.Names.Canonical.{ids, length-set_insert}

module _ (skills : List ManagedSkillName) (reserved_names : List Text) where
  abbrev keeps : List Text → ManagedSkillName → Bool
  keeps used s = keeps_alias skills reserved_names used s s.previous_harness_name

  abbrev previous : ManagedSkillName → Text
  previous = previous_of skills reserved_names

  abbrev next_used : List Text → ManagedSkillName → List Text
  next_used used s = if keeps used s then set_insert (previous s) used else used

  abbrev next_sticky : List Text → Map Text → ManagedSkillName → Map Text
  next_sticky used sticky s =
      if keeps used s then Map.insert s.resource_id (previous s) sticky else sticky

  next_used-keeps :
      (used : List Text) (s : ManagedSkillName) (k : Text)
      → contains used k ≡ true
      → contains (next_used used s) k ≡ true
  next_used-keeps used s k h = ground (arith, contains-set_insert k (previous s) used)

  pub keep_aliases-keeps :
      (used : List Text) (sticky : Map Text) (ss : List ManagedSkillName) (k : Text)
      → contains used k ≡ true
      → contains (keep_aliases skills reserved_names used sticky ss).0 k ≡ true
  unfolding keep_aliases
  keep_aliases-keeps used sticky [] k h = h
  keep_aliases-keeps used sticky (s ∷ ss) k h =
      keep_aliases-keeps (next_used used s) (next_sticky used sticky s) ss k
        (next_used-keeps used s k h)

  pub length-keep_aliases :
      (used : List Text) (sticky : Map Text) (ss : List ManagedSkillName)
      → length (keep_aliases skills reserved_names used sticky ss).0 ≤ length used + length ss
  unfolding keep_aliases
  length-keep_aliases used sticky [] = omega arith
  length-keep_aliases used sticky (s ∷ ss) = ground (
    arith,
    length-keep_aliases (next_used used s) (next_sticky used sticky s) ss,
    length-set_insert (previous s) used,
  )

  -- The second loop leaves the entries of other skills alone.
  get-keep_aliases :
      (used : List Text) (sticky : Map Text) (ss : List ManagedSkillName) (j : Text)
      → contains (ids ss) j ≡ false
      → Map.get j (keep_aliases skills reserved_names used sticky ss).1 ≡ Map.get j sticky
  unfolding keep_aliases contains
  get-keep_aliases used sticky [] j h = refl
  get-keep_aliases used sticky (s ∷ ss) j h =
      get-keep_aliases (next_used used s) (next_sticky used sticky s) ss j (ground arith)
      ∙ ground (arith, get-insert j s.resource_id (previous s) sticky)

  -- Which aliases the second loop may keep: unused ones, no two of them the same.
  abbrev pub Kept : List Text → List Text → Map Text → List ManagedSkillName → Type 0
  Kept used used' sticky [] = Unit
  Kept used used' sticky (s ∷ ss) =
      ((a : Text)
        → Map.get s.resource_id sticky ≡ some a
        → (contains used a ≡ false)
          × (contains used' a ≡ true)
          × All (λ t. Map.get t.resource_id sticky ≢ some a) ss)
      × Kept used used' sticky ss

  Kept-mono :
      (used more used' : List Text) (sticky : Map Text) (ss : List ManagedSkillName)
      → ((k : Text) → contains used k ≡ true → contains more k ≡ true)
      → Kept more used' sticky ss
      → Kept used used' sticky ss
  Kept-mono used more used' sticky [] m h = tt
  Kept-mono used more used' sticky (s ∷ ss) m h = (
    (λ a e.
        let (free, held, apart) = h.0 a e in
        (elim (Bool-cases (contains used a)) [ inr c ↦ c | inl c ↦ cc (m a c) ], held, apart)),
    Kept-mono used more used' sticky ss m h.1,
  )

  pub Kept-fresh :
      (used used' : List Text) (sticky : Map Text) (ss : List ManagedSkillName) (a : Text)
      → contains used a ≡ true
      → Kept used used' sticky ss
      → All (λ t. Map.get t.resource_id sticky ≢ some a) ss
  Kept-fresh used used' sticky [] a h k = tt
  Kept-fresh used used' sticky (s ∷ ss) a h k =
      ((λ e. cc (k.0 a e).0), Kept-fresh used used' sticky ss a h k.1)

  keeps-unused :
      (used : List Text) (s : ManagedSkillName)
      → keeps used s ≡ true
      → contains used (previous s) ≡ false
  unfolding keeps_alias
  keeps-unused used s h = ground arith

  next_sticky-none :
      (used : List Text) (sticky : Map Text) (s : ManagedSkillName) (ss : List ManagedSkillName)
      → contains (ids ss) s.resource_id ≡ false
      → All (λ t. Map.get t.resource_id sticky ≡ none) ss
      → All (λ t. Map.get t.resource_id (next_sticky used sticky s) ≡ none) ss
  unfolding contains
  next_sticky-none used sticky s [] h a = tt
  next_sticky-none used sticky s (t ∷ ss) h a = (
    ground (
      arith,
      a.0,
      get-insert t.resource_id s.resource_id (previous s) sticky,
      eq-cases s.resource_id t.resource_id,
      eq-cases t.resource_id s.resource_id,
    ),
    next_sticky-none used sticky s ss (ground arith) a.1,
  )

  next-claims :
      (used : List Text) (sticky : Map Text) (s : ManagedSkillName) (a : Text)
      → Map.get s.resource_id sticky ≡ none
      → Map.get s.resource_id (next_sticky used sticky s) ≡ some a
      → (contains used a ≡ false) × (contains (next_used used s) a ≡ true)
  next-claims used sticky s a n h = elim (Bool-cases (keeps used s)) [
    | inr c ↦ cc (rw c at h)
    | inl c ↦
        let e : previous s ≡ a = ground (
          arith,
          get-insert s.resource_id s.resource_id (previous s) sticky,
          eq-cases s.resource_id s.resource_id,
        ) in
        (
          rw e at (keeps-unused used s c),
          ground (arith, contains-set_insert a (previous s) used, eq-cases a (previous s)),
        )
  ]

  pub keep_aliases-Kept :
      (used : List Text) (sticky : Map Text) (ss : List ManagedSkillName)
      → IsDistinct (ids ss)
      → All (λ s. Map.get s.resource_id sticky ≡ none) ss
      → let result = keep_aliases skills reserved_names used sticky ss in
        Kept used result.0 result.1 ss
  unfolding keep_aliases
  keep_aliases-Kept used sticky [] d a = tt
  keep_aliases-Kept used sticky (s ∷ ss) d a =
      let used' = next_used used s in
      let sticky' = next_sticky used sticky s in
      let later =
        keep_aliases-Kept used' sticky' ss d.1 (next_sticky-none used sticky s ss d.0 a.1) in
      (
        (λ b e.
            let (free, held) =
              next-claims used sticky s b a.0
                (sym (get-keep_aliases used' sticky' ss s.resource_id d.0) ∙ e) in
            (
              free,
              keep_aliases-keeps used' sticky' ss b held,
              Kept-fresh used' _ _ ss b held later,
            )),
        Kept-mono used used' _ _ ss (next_used-keeps used s) later,
      )
