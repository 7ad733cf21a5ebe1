-- ===== src/Core/Merge/Symmetry.antt =====
-- The merge gives both devices the same result, whichever head comes first.
use mathlib.Core.List.{perm_append_comm, append_assoc}
use mathlib.Core.List.Perm
use mathlib.Core.Path.{fun_ext}
use denju.Base.{◌≡◌, refl, ap, ap₂, false, arith}
use denju.Base.{Option, none, some, List, eq-cases, Bytes, text_Eq, option_Eq, contains}
use denju.Base.{Eq}
use denju.Base.Strings.Map
use denju.Base.Strings.Map.{to_set-Perm}
use denju.Core.Entry.{OwnedSkillEntry, file, entry_Eq}
use denju.Core.Merge.Edits.{Diff, lines, text_edits, merge_text}
use denju.Core.Merge.Script.{IsDiff, text_edits-IsSeparated}
use denju.Core.Merge.Overlap.{IsSpread, IsSpread-IsSeparated}
use denju.Core.Merge.Union.{merge_edits_comm}
use denju.Core.Merge.Trees.{
  merge_scalar, merge_file_bytes, merge_changed_path, merge_path, path_outcome, merge_paths,
  merge_result, all_paths, by_path, merge_skill_entries, merge_skill_entries_with_resolutions,
}

pub merge_scalar_comm {ℓ} :
    {T : Type ℓ} ⦃e : Eq T⦄ (base a b : T) → merge_scalar base a b ≡ merge_scalar base b a
unfolding merge_scalar
merge_scalar_comm base a b =
    ground (arith, eq-cases a b, eq-cases b a, eq-cases a base, eq-cases b base)

all_paths_comm :
    (base head_a head_b : List OwnedSkillEntry)
    → all_paths base head_a head_b ≡ all_paths base head_b head_a
unfolding all_paths
all_paths_comm base head_a head_b =
    let k = Map.keys (by_path base) in
    let a = Map.keys (by_path head_a) in
    let b = Map.keys (by_path head_b) in
    to_set-Perm
      (rw (append_assoc k a b, append_assoc k b a) (Perm.append_left k (perm_append_comm a b)))

module _ {diff : Diff} (contract : IsDiff diff) where
  text_edits-IsSpread : (base variant : List Bytes) → IsSpread (text_edits diff base variant)
  text_edits-IsSpread base variant =
      IsSpread-IsSeparated 0 _ _ (text_edits-IsSeparated contract base variant)

  merge_text_comm : (base a b : Bytes) → merge_text diff base a b ≡ merge_text diff base b a
  unfolding merge_text
  merge_text_comm base a b = rw (
    merge_edits_comm (lines base) _ _ (text_edits-IsSpread (lines base) (lines a))
        (text_edits-IsSpread (lines base) (lines b)),
    merge_text,
  )

  merge_file_bytes_comm :
      (base a b : Bytes) → merge_file_bytes diff base a b ≡ merge_file_bytes diff base b a
  unfolding merge_file_bytes
  merge_file_bytes_comm base a b = ground (
    arith,
    merge_text_comm base a b,
    eq-cases a b,
    eq-cases b a,
    eq-cases a base,
    eq-cases b base,
  )

  merge_changed_path_comm :
      (base a b : Option OwnedSkillEntry)
      → merge_changed_path diff base a b ≡ merge_changed_path diff base b a
  unfolding merge_changed_path
  merge_changed_path_comm none a b = refl
  merge_changed_path_comm (some base) none none = refl
  merge_changed_path_comm (some base) none (some b) = refl
  merge_changed_path_comm (some base) (some a) none = refl
  merge_changed_path_comm (some (file p bytes x)) (some (file _ a_bytes ax))
        (some (file _ b_bytes bx)) =
      rw (merge_scalar_comm x ax bx, merge_file_bytes_comm bytes a_bytes b_bytes)
  merge_changed_path_comm (some base) (some a) (some b) = ground arith

  merge_path_comm :
      (base a b : Option OwnedSkillEntry)
      → merge_path diff false base a b ≡ merge_path diff false base b a
  unfolding merge_path
  merge_path_comm base a b = ground (
    arith,
    merge_changed_path_comm base a b,
    eq-cases a b,
    eq-cases b a,
    eq-cases a base,
    eq-cases b base,
  )

  -- With a line diff that keeps its contract, the merge of any two heads over any base, its conflicts
  -- included, does not depend on which head is first.
  pub merge_skill_entries_comm :
      (base head_a head_b : List OwnedSkillEntry)
      → merge_skill_entries diff base head_a head_b ≡ merge_skill_entries diff base head_b head_a
  unfolding merge_skill_entries merge_skill_entries_with_resolutions path_outcome contains
  merge_skill_entries_comm base head_a head_b = ap merge_result (
      ap₂ merge_paths
        (fun_ext λ p.
          merge_path_comm (Map.get p (by_path base)) (Map.get p (by_path head_a))
            (Map.get p (by_path head_b)))
        (all_paths_comm base head_a head_b))
