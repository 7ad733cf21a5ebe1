-- ===== src/Sync/Names/Canonical.antt =====
-- The names that stay canonical in `allocate_projection_names` (crates/denju-sync/src/lib.rs).
use denju.Base.{suc, ◌+◌, ◌≤◌, ◌≡◌, ◌≢◌, true, false, arith}
use denju.Base.{List, [], ◌∷◌, if◌then◌else◌, text_Eq, eq-cases}
use denju.Base.{Text, length, contains, All}
use denju.Base.Strings.Map.{set_insert, contains-set_insert}
use denju.Sync.Names.Alias.{ManagedSkillName}
use denju.Sync.Names.Allocate.{group_size, collides, use_canonical}

pub All-imp₂ {ℓ} :
    {A : Type ℓ} (P Q R : A → Type 0)
    → ((x : A) → P x → Q x → R x)
    → (xs : List A) → All P xs
    → All Q xs
    → All R xs
All-imp₂ P Q R f [] p q = tt
All-imp₂ P Q R f (x ∷ xs) p q = (f x p.0 q.0, All-imp₂ P Q R f xs p.1 q.1)

abbrev pub ids : List ManagedSkillName → List Text
ids [] = []
ids (s ∷ ss) = s.resource_id ∷ ids ss

pub length-set_insert : (k : Text) (s : List Text) → length (set_insert k s) ≤ suc (length s)
unfolding set_insert
length-set_insert k [] = omega arith
length-set_insert k (j ∷ s) = ground (arith, length-set_insert k s)

group_zero :
    (name : Text) (ss : List ManagedSkillName)
    → group_size name ss ≡ 0
    → All (λ t. t.skill_name ≢ name) ss
unfolding group_size
group_zero name [] h = tt
group_zero name (s ∷ ss) h =
    ((λ e. absurd (ground (arith, eq-cases name s.skill_name))), group_zero name ss (ground arith))

module _ (skills : List ManagedSkillName) (reserved_names : List Text) where
  pub use_canonical-keeps :
      (used : List Text) (ss : List ManagedSkillName) (k : Text)
      → contains used k ≡ true
      → contains (use_canonical skills reserved_names used ss) k ≡ true
  unfolding use_canonical
  use_canonical-keeps used [] k h = h
  use_canonical-keeps used (s ∷ ss) k h =
      use_canonical-keeps
        (if collides skills reserved_names s then used else set_insert s.skill_name used) ss k
        (ground (arith, contains-set_insert k s.skill_name used))

  -- Every name that stays canonical is used.
  pub use_canonical-has :
      (used : List Text) (ss : List ManagedSkillName)
      → All
          (λ s.
            collides skills reserved_names s ≡ false
            → contains (use_canonical skills reserved_names used ss) s.skill_name ≡ true)
          ss
  unfolding use_canonical
  use_canonical-has used [] = tt
  use_canonical-has used (s ∷ ss) =
      let used' = if collides skills reserved_names s then used else set_insert s.skill_name used in
      (
        (λ h. use_canonical-keeps used' ss s.skill_name (
            ground (
              arith,
              contains-set_insert s.skill_name s.skill_name used,
              eq-cases s.skill_name s.skill_name,
            ))),
        use_canonical-has used' ss,
      )

  pub length-use_canonical :
      (used : List Text) (ss : List ManagedSkillName)
      → length (use_canonical skills reserved_names used ss) ≤ length used + length ss
  unfolding use_canonical
  length-use_canonical used [] = omega arith
  length-use_canonical used (s ∷ ss) = ground (
    arith,
    length-use_canonical
        (if collides skills reserved_names s then used else set_insert s.skill_name used) ss,
    length-set_insert s.skill_name used,
  )

  -- A skill that stays canonical shares its name with no other.
  pub canonical_alone :
      (s : ManagedSkillName) (ss : List ManagedSkillName)
      → group_size s.skill_name (s ∷ ss) ≤ group_size s.skill_name skills
      → collides skills reserved_names s ≡ false
      → All (λ t. t.skill_name ≢ s.skill_name) ss
  unfolding collides group_size
  canonical_alone s ss h c =
      group_zero s.skill_name ss (ground (arith, eq-cases s.skill_name s.skill_name))
