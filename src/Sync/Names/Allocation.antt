-- ===== src/Sync/Names/Allocation.antt =====
-- What `allocate_projection_names` (crates/denju-sync/src/lib.rs) promises as a whole.
use denju.Base.{suc, ◌+◌, ◌*◌, ◌^◌, ◌<◌, ◌≡◌, refl, ◌∙◌, true, false, arith}
use denju.Base.{none, some, List, [], ◌∷◌, text_Eq, eq-cases, Ordering}
use Prim.Native.Nat.Ordering.{gt}
use denju.Base.{Text, length, contains, All, IsDistinct, insert_by, sort_by}
use denju.Base.Strings.Map
use denju.Base.Strings.Map.{Map}
use denju.Sync.Names.Alias.{ManagedSkillName}
use denju.Sync.Names.Allocate.{
  ProjectionAssignment, skill_cmp, group_size, use_canonical, keep_aliases,
  allocate_projection_names,
}
use denju.Sync.Names.Canonical.{ids, use_canonical-keeps, use_canonical-has, length-use_canonical}
use denju.Sync.Names.Claims.{keep_aliases-keeps, keep_aliases-Kept, length-keep_aliases}
use denju.Sync.Names.Distinct.{names, assigned_ids, Kept-Claims, Claims-reserved, assign-IsDistinct}

abbrev place : ManagedSkillName → List ManagedSkillName → List ManagedSkillName
place = insert_by skill_cmp

abbrev ordered : List ManagedSkillName → List ManagedSkillName
ordered = sort_by skill_cmp

group_size-place :
    (name : Text) (s : ManagedSkillName) (ss : List ManagedSkillName)
    → group_size name (place s ss) ≡ group_size name (s ∷ ss)
unfolding group_size insert_by
group_size-place name s [] = refl
group_size-place name s (t ∷ ss) = ground (arith, group_size-place name s ss)

group_size-ordered :
    (name : Text) (ss : List ManagedSkillName) → group_size name (ordered ss) ≡ group_size name ss
unfolding group_size sort_by
group_size-ordered name [] = refl
group_size-ordered name (s ∷ ss) =
    group_size-place name s (ordered ss) ∙ ground (arith, group_size-ordered name ss)

length-place :
    (s : ManagedSkillName) (ss : List ManagedSkillName) → length (place s ss) ≡ suc (length ss)
unfolding insert_by
length-place s [] = refl
length-place s (t ∷ ss) = ground (arith, length-place s ss)

length-ordered : (ss : List ManagedSkillName) → length (ordered ss) ≡ length ss
unfolding sort_by
length-ordered [] = refl
length-ordered (s ∷ ss) = length-place s (ordered ss) ∙ ground (arith, length-ordered ss)

contains-place :
    (k : Text) (s : ManagedSkillName) (ss : List ManagedSkillName)
    → contains (ids (place s ss)) k ≡ contains (ids (s ∷ ss)) k
unfolding contains insert_by
contains-place k s [] = refl
contains-place k s (t ∷ ss) = ground (arith, contains-place k s ss)

contains-ordered :
    (k : Text) (ss : List ManagedSkillName) → contains (ids (ordered ss)) k ≡ contains (ids ss) k
unfolding contains sort_by
contains-ordered k [] = refl
contains-ordered k (s ∷ ss) =
    contains-place k s (ordered ss) ∙ ground (arith, contains-ordered k ss)

place-IsDistinct :
    (s : ManagedSkillName) (ss : List ManagedSkillName)
    → IsDistinct (ids (s ∷ ss))
    → IsDistinct (ids (place s ss))
unfolding insert_by contains
place-IsDistinct s [] d = d
place-IsDistinct s (t ∷ ss) d = pick (skill_cmp s t) (place-IsDistinct s ss (ground arith, d.1.1))
  where
    pick :
        (o : Ordering)
        → IsDistinct (ids (place s ss))
        → IsDistinct (ids (elim o [ gt ↦ t ∷ place s ss | _ ↦ s ∷ t ∷ ss ]))
    pick gt rest = (
      ground (
        arith,
        contains-place t.resource_id s ss,
        eq-cases t.resource_id s.resource_id,
        eq-cases s.resource_id t.resource_id,
      ),
      rest,
    )
    pick _ rest = d

ordered-IsDistinct :
    (ss : List ManagedSkillName) → IsDistinct (ids ss) → IsDistinct (ids (ordered ss))
unfolding sort_by
ordered-IsDistinct [] d = tt
ordered-IsDistinct (s ∷ ss) d =
    place-IsDistinct s (ordered ss)
      (contains-ordered s.resource_id ss ∙ d.0, ordered-IsDistinct ss d.1)

no_entries : (ss : List ManagedSkillName) → All (λ s. Map.get {V = Text} s.resource_id [] ≡ none) ss
no_entries [] = tt
no_entries (s ∷ ss) = (unfold Map.get in refl, no_entries ss)

All-of_contains :
    (P : Text → Type 0) (ks : List Text) → ((k : Text) → contains ks k ≡ true → P k) → All P ks
unfolding contains
All-of_contains P [] f = tt
All-of_contains P (k ∷ ks) f =
    (f k (ground (arith, eq-cases k k)), All-of_contains P ks (λ j h. f j (ground (arith, h))))

-- For skills whose resources are all different, and where the reserved names, three times the
-- skills and 2 add up to less than 2 ^ 64, the allocation ends with a result. It gives every skill,
-- in the order of the resources, one name. The names are all different, and none of them is reserved.
pub allocate_projection_names-IsDistinct :
    (skills : List ManagedSkillName) (reserved_names : List Text)
    → IsDistinct (ids skills)
    → length reserved_names + 3 * length skills + 2 < 2 ^ 64
    → (result : List ProjectionAssignment) × (allocate_projection_names skills reserved_names
        ≡ some result)
      × (assigned_ids result ≡ ids (sort_by skill_cmp skills))
      × IsDistinct (names result)
      × All (λ k. contains (names result) k ≡ false) reserved_names
unfolding allocate_projection_names
allocate_projection_names-IsDistinct skills reserved_names d h =
    let all_skills = sort_by skill_cmp skills in
    let canonical = use_canonical skills reserved_names reserved_names all_skills in
    let used = (keep_aliases skills reserved_names canonical [] all_skills).0 in
    let sticky = (keep_aliases skills reserved_names canonical [] all_skills).1 in
    let held = use_canonical-keeps skills reserved_names reserved_names all_skills in
    let kept = keep_aliases-keeps skills reserved_names canonical [] all_skills in
    let claims =
      Kept-Claims skills reserved_names canonical used sticky all_skills held kept
        (λ name. omega (arith, group_size-ordered name skills))
        (use_canonical-has skills reserved_names reserved_names all_skills)
        (keep_aliases-Kept skills reserved_names canonical [] all_skills
          (ordered-IsDistinct skills d) (no_entries all_skills)) in
    let (result, e, same_ids, distinct, away) =
      assign-IsDistinct skills reserved_names used sticky all_skills
        (omega (
          arith,
          length-ordered skills,
          length-use_canonical skills reserved_names reserved_names all_skills,
          length-keep_aliases skills reserved_names canonical [] all_skills,
        ))
        claims in
    (
      result,
      e,
      same_ids,
      distinct,
      All-of_contains _ reserved_names λ k r.
          away k (kept k (held k r))
            (Claims-reserved skills reserved_names used sticky all_skills k r claims),
    )
