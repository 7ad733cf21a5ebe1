-- ===== src/Sync/Desired/Defs.antt =====
-- The sources that ask for a skill, and the choice between them (crates/denju-sync/src/lib.rs).
use Prim.Native.Nat.{compare}
use denju.Base.{
  ℕ, suc, Bool, true, false, Option, List, [], ◌∷◌, ◌++◌, if◌then◌else◌, nat_eq, ltb, text_Eq,
}
use denju.Base.{Text, length, take, drop, Ordering, then_with, text_cmp, sort_by}
use denju.Base.Strings.Map.{to_set}

pub data DesiredSourceKind : Type 0 where
  personal_pack direct_subscription owned_workspace team_assignment : DesiredSourceKind

-- The derived `Ord`: the position of the variant.
abbrev pub rank : DesiredSourceKind → ℕ
rank personal_pack = 0
rank direct_subscription = 1
rank owned_workspace = 2
rank team_assignment = 3

unfoldable pub is_enforced : DesiredSourceKind → Bool
is_enforced team_assignment = true
is_enforced _ = false

pub record DesiredSource : Type 0 where
  pub resource_id : Text
  pub revision_id : Text
  pub source_id : Text
  pub source_label : Text
  pub kind : DesiredSourceKind

pub data ResolvedDesiredState : Type 0 where
  absent : ResolvedDesiredState
  selected : DesiredSource → List DesiredSource → ResolvedDesiredState
  conflict : List DesiredSource → Option Text → ResolvedDesiredState

-- The strongest kind first, then the order of the source and of the revision.
abbrev pub source_cmp : DesiredSource → DesiredSource → Ordering
source_cmp left right = then_with (compare (rank right.kind) (rank left.kind)) (
    then_with (text_cmp left.source_id right.source_id)
      (text_cmp left.revision_id right.revision_id))

abbrev pub source_id_cmp : DesiredSource → DesiredSource → Ordering
source_id_cmp left right = text_cmp left.source_id right.source_id

-- `partition_point(|source| source.kind == strongest)`: on a list that is partitioned, as the
-- sorted one is, the length of its first part.
unfoldable pub partition_point : ℕ → List DesiredSource → ℕ
partition_point strongest [] = 0
partition_point strongest (s ∷ rest) =
    let more = partition_point strongest rest in
    if nat_eq (rank s.kind) strongest then suc more else 0

unfoldable pub revisions : List DesiredSource → List Text
revisions [] = []
revisions (s ∷ rest) = s.revision_id ∷ revisions rest

-- What follows the sort, over the strongest sources and the others.
unfoldable pub choose : List DesiredSource → List DesiredSource → Option Text → ResolvedDesiredState
choose [] suppressed last = absent
choose (source ∷ active) suppressed last =
    if ltb 1 (length (to_set (revisions (source ∷ active))))
    then conflict (sort_by source_id_cmp (source ∷ active)) last
    else selected source (active ++ suppressed)

unfoldable pub resolve_sorted : List DesiredSource → Option Text → ResolvedDesiredState
resolve_sorted [] last = absent
resolve_sorted (first ∷ rest) last =
    let split = partition_point (rank first.kind) (first ∷ rest) in
    choose (take split (first ∷ rest)) (drop split (first ∷ rest)) last

unfoldable pub resolve_desired_sources : List DesiredSource → Option Text → ResolvedDesiredState
resolve_desired_sources sources last_valid_revision_id =
    resolve_sorted (sort_by source_cmp sources) last_valid_revision_id
