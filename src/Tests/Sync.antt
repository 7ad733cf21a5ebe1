-- ===== src/Tests/Sync.antt =====
-- Desired state and projection names at concrete inputs.
use denju.Base.{
  ◌+◌, ◌≤◌, ◌≡◌, text_Eq, lit, none, some, List, [], ◌∷◌, Text, length, contains, true, false,
  arith,
}
use denju.Sync.Desired.{
  DesiredSource, DesiredSourceKind, team_assignment, personal_pack, resolve_desired_sources,
}
use denju.Sync.Desired.Choice.{IsChoice, resolve_desired_sources-IsChoice}
use native.Mathlib.Decide.{ℕ_discrete}
use denju.Base.{refl, ◌==◌, text_discrete, IsDistinct, All, sort_by}
use denju.Sync.Names.{
  ManagedSkillName, ProjectionAssignment, collision_alias_at, collision_alias_from,
  valid_collision_alias, skill_cmp, allocate_projection_names,
}
use denju.Sync.Names.Canonical.{ids}
use denju.Sync.Names.Distinct.{names, assigned_ids}
use denju.Sync.Names.Allocation.{allocate_projection_names-IsDistinct}
use denju.Sync.Names.Bounds.{length-collision_alias_at}
use denju.Sync.Names.Search.{collision_alias_from-IsFree}

abbrev source : Text → Text → DesiredSourceKind → DesiredSource
source id revision kind = record {
  resource_id = lit "r";
  revision_id = revision;
  source_id = id;
  source_label = id;
  kind = kind;
}

abbrev two_teams : List DesiredSource
two_teams =
    source (lit "p") (lit "1") personal_pack
    ∷ source (lit "b") (lit "2") team_assignment
    ∷ source (lit "a") (lit "3") team_assignment
    ∷ []

resolve_desired_sources-IsChoice_example :
    IsChoice two_teams (some (lit "1")) (resolve_desired_sources two_teams (some (lit "1")))
resolve_desired_sources-IsChoice_example =
    resolve_desired_sources-IsChoice two_teams (some (lit "1"))

abbrev pdf : ManagedSkillName
pdf = record {
  resource_id = lit "r";
  owner = lit "Ann Lee";
  skill_name = lit "pdf";
  previous_harness_name = none;
}

abbrev used_names : List Text
used_names = lit "ann-lee-pdf" ∷ lit "pdf" ∷ []

collision_alias_from-IsFree_example :
    (name : Text) × (collision_alias_from pdf used_names (length used_names + 2) 1 ≡ some name)
    × (contains used_names name ≡ false)
    × (valid_collision_alias pdf name ≡ true)
collision_alias_from-IsFree_example = collision_alias_from-IsFree pdf used_names (omega arith)

length-collision_alias_at_example :
    (1 ≤ length (collision_alias_at pdf 12)) × (length (collision_alias_at pdf 12) ≤ 64)
length-collision_alias_at_example = length-collision_alias_at pdf 12 (omega arith)

abbrev bob : ManagedSkillName
bob = record {
  resource_id = lit "q";
  owner = lit "bob";
  skill_name = lit "pdf";
  previous_harness_name = some (lit "bob-pdf-2");
}

abbrev managed : List ManagedSkillName
managed = pdf ∷ bob ∷ []

abbrev occupied : List Text
occupied = lit "notes" ∷ []

managed-IsDistinct : IsDistinct (ids managed)
unfolding contains ◌==◌ text_discrete ℕ_discrete
managed-IsDistinct = (refl, (refl, tt))

allocate_projection_names-IsDistinct_example :
    (result : List ProjectionAssignment) × (allocate_projection_names managed occupied
      ≡ some result)
    × (assigned_ids result ≡ ids (sort_by skill_cmp managed))
    × IsDistinct (names result)
    × All (λ k. contains (names result) k ≡ false) occupied
allocate_projection_names-IsDistinct_example =
    allocate_projection_names-IsDistinct managed occupied managed-IsDistinct (omega arith)
