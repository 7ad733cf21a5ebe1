-- ===== src/Sync/Names/Allocate.antt =====
-- `allocate_projection_names` (crates/denju-sync/src/lib.rs).
use denju.Base.{ℕ, suc, ◌+◌, Bool, false, not, ◌&&◌, ◌||◌, Option, none, some, List, [], ◌∷◌}
use denju.Base.{
  if◌then◌else◌, ltb, ◌==◌, text_Eq, contains, length, Text, Ordering, text_cmp, sort_by,
}
use denju.Base.Strings.Map
use denju.Base.Strings.Map.{Map, set_insert}
use denju.Sync.Names.Alias.{ManagedSkillName, collision_alias_from, valid_collision_alias}

pub record ProjectionAssignment : Type 0 where
  pub resource_id : Text
  pub harness_name : Text
  pub derived : Bool

abbrev pub skill_cmp : ManagedSkillName → ManagedSkillName → Ordering
skill_cmp a b = text_cmp a.resource_id b.resource_id

-- The size of a skill's group in `by_name`.
unfoldable pub group_size : Text → List ManagedSkillName → ℕ
group_size name [] = 0
group_size name (s ∷ rest) =
    let more = group_size name rest in if name == s.skill_name then suc more else more

module _ (skills : List ManagedSkillName) (reserved_names : List Text) where
  unfoldable pub collides : ManagedSkillName → Bool
  collides skill =
      ltb 1 (group_size skill.skill_name skills) || contains reserved_names skill.skill_name

  -- The first loop: every name that stays canonical is used.
  unfoldable pub use_canonical : List Text → List ManagedSkillName → List Text
  use_canonical used [] = used
  use_canonical used (skill ∷ rest) =
      use_canonical (if collides skill then used else set_insert skill.skill_name used) rest

  -- Whether a skill keeps its previous alias.
  unfoldable pub keeps_alias : List Text → ManagedSkillName → Option Text → Bool
  keeps_alias used skill none = false
  keeps_alias used skill (some previous) =
      collides skill && (valid_collision_alias skill previous && not (contains used previous))

  abbrev pub previous_of : ManagedSkillName → Text
  previous_of skill = elim skill.previous_harness_name [ none ↦ [] | some previous ↦ previous ]

  -- The second loop: the aliases that are kept.
  unfoldable pub keep_aliases : List Text → Map Text → List ManagedSkillName → List Text × Map Text
  keep_aliases used sticky [] = (used, sticky)
  keep_aliases used sticky (skill ∷ rest) =
      let kept = keeps_alias used skill skill.previous_harness_name in
      keep_aliases (if kept then set_insert (previous_of skill) used else used)
        (if kept then Map.insert skill.resource_id (previous_of skill) sticky else sticky) rest

  -- The name of one skill; `none` is the end of the index space of `collision_alias`, which the
  -- fuel stands for.
  unfoldable pub harness_name_for : List Text → Map Text → ManagedSkillName → Option Text
  harness_name_for used sticky skill =
      if not (collides skill)
      then some skill.skill_name
      else elim (Map.get skill.resource_id sticky) [
        | some previous ↦ some previous
        | none ↦ collision_alias_from skill used (length used + 2) 1
      ]

  -- The last loop.
  unfoldable pub assign :
      List Text → Map Text → List ManagedSkillName → Option (List ProjectionAssignment)
  assign used sticky [] = some []
  assign used sticky (skill ∷ rest) = elim (harness_name_for used sticky skill) [
    | none ↦ none
    | some name ↦ elim (assign (set_insert name used) sticky rest) [
      | none ↦ none
      | some others ↦ some (
          record {
            resource_id = skill.resource_id;
            harness_name = name;
            derived = not (name == skill.skill_name);
          }
          ∷ others)
    ]
  ]

  unfoldable pub allocate_projection_names : Option (List ProjectionAssignment)
  allocate_projection_names =
      let ordered = sort_by skill_cmp skills in
      let (used, sticky) = keep_aliases (use_canonical reserved_names ordered) [] ordered in
      assign used sticky ordered
