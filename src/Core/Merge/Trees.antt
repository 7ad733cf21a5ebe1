-- ===== src/Core/Merge/Trees.antt =====
-- The merge of whole trees, path by path (crates/denju-core/src/merge.rs).
use denju.Base.{Bool, true, false, Option, none, some, List, [], ◌∷◌, ◌++◌}
use denju.Base.{if◌then◌else◌, Eq, ◌==◌, option_Eq, bool_Eq, text_Eq, contains, Text, Bytes}
use denju.Base.{Result, ok, err, ◌>>=◌, ok_or, is_utf8, sort_by}
use denju.Base.Strings.Map
use denju.Base.Strings.Map.{Map, to_set}
use denju.Core.Entry.{OwnedSkillEntry, file, entry_path, path_cmp, entry_Eq}
use denju.Core.Merge.Edits.{Diff, merge_text}

pub data MergeConflictKind : Type 0 where
  add_add delete_modify type_or_metadata binary_content text_overlap : MergeConflictKind

pub record MergeConflict : Type 0 where
  pub path : Text
  pub kind : MergeConflictKind

pub data SkillMergeResult : Type 0 where
  clean : List OwnedSkillEntry → SkillMergeResult
  conflicted : List MergeConflict → SkillMergeResult

unfoldable pub merge_scalar {ℓ} : {T : Type ℓ} ⦃e : Eq T⦄ → T → T → T → Option T
merge_scalar base a b =
    if a == b then some a else if a == base then some b else if b == base then some a else none

unfoldable pub merge_file_bytes : Diff → Bytes → Bytes → Bytes → Result MergeConflictKind Bytes
merge_file_bytes diff base a b =
    if a == b
    then ok a
    else if a == base
    then ok b
    else if b == base
    then ok a
    else if is_utf8 base
    then (if is_utf8 a
        then (if is_utf8 b
            then ok_or (merge_text diff base a b) text_overlap
            else err binary_content)
        else err binary_content)
    else err binary_content

merge_files :
    Diff
    → Text
    → Bytes
    → Bool
    → Bytes
    → Bool
    → Bytes
    → Bool
    → Result MergeConflictKind (Option OwnedSkillEntry)
merge_files diff p base_bytes base_exec a_bytes a_exec b_bytes b_exec = do
  executable ← ok_or (merge_scalar base_exec a_exec b_exec) type_or_metadata
  bytes ← merge_file_bytes diff base_bytes a_bytes b_bytes
  ok (some (file p bytes executable))

unfoldable pub merge_changed_path :
    Diff
    → Option OwnedSkillEntry
    → Option OwnedSkillEntry
    → Option OwnedSkillEntry
    → Result MergeConflictKind (Option OwnedSkillEntry)
unfolding merge_files
merge_changed_path diff none a b = err add_add
merge_changed_path diff (some base) none b = err delete_modify
merge_changed_path diff (some base) (some a) none = err delete_modify
merge_changed_path diff (some (file p bytes x)) (some (file _ a_bytes ax))
      (some (file _ b_bytes bx)) =
    merge_files diff p bytes x a_bytes ax b_bytes bx
merge_changed_path diff (some _) (some _) (some _) = err type_or_metadata

by_path_onto : Map OwnedSkillEntry → List OwnedSkillEntry → Map OwnedSkillEntry
by_path_onto m [] = m
by_path_onto m (entry ∷ entries) = by_path_onto (Map.insert (entry_path entry) entry m) entries

unfoldable pub by_path : List OwnedSkillEntry → Map OwnedSkillEntry
unfolding by_path_onto
by_path = by_path_onto []

-- What one round of the loop does for a path.
pub data PathOutcome : Type 0 where
  keep : OwnedSkillEntry → PathOutcome
  omit : PathOutcome
  conflict : MergeConflictKind → PathOutcome

abbrev pub keep_if_some : Option OwnedSkillEntry → PathOutcome
keep_if_some none = omit
keep_if_some (some entry) = keep entry

abbrev pub settle :
    Bool → Option OwnedSkillEntry → Result MergeConflictKind (Option OwnedSkillEntry) → PathOutcome
settle resolved a (ok merged) = keep_if_some merged
settle true a (err kind) = keep_if_some a
settle false a (err kind) = conflict kind

unfoldable pub merge_path :
    Diff
    → Bool
    → Option OwnedSkillEntry
    → Option OwnedSkillEntry
    → Option OwnedSkillEntry
    → PathOutcome
merge_path diff resolved base a b =
    if a == b
    then keep_if_some a
    else if a == base
    then keep_if_some b
    else if b == base
    then keep_if_some a
    else settle resolved a (merge_changed_path diff base a b)

-- The loop: the entries and the conflicts, each in the order of the paths.
unfoldable pub merge_paths :
    (Text → PathOutcome) → List Text → List OwnedSkillEntry × List MergeConflict
merge_paths outcome [] = ([], [])
merge_paths outcome (p ∷ ps) =
    let (entries, conflicts) = merge_paths outcome ps in
    elim (outcome p) [
      | keep entry ↦ (entry ∷ entries, conflicts)
      | omit ↦ (entries, conflicts)
      | conflict kind ↦ (entries, record { path = p; kind = kind } ∷ conflicts)
    ]

abbrev pub merge_result : List OwnedSkillEntry × List MergeConflict → SkillMergeResult
merge_result (entries, []) = clean (sort_by path_cmp entries)
merge_result (entries, c ∷ conflicts) = conflicted (c ∷ conflicts)

unfoldable pub all_paths :
    List OwnedSkillEntry → List OwnedSkillEntry → List OwnedSkillEntry → List Text
all_paths base head_a head_b =
    to_set (Map.keys (by_path base) ++ Map.keys (by_path head_a) ++ Map.keys (by_path head_b))

unfoldable pub path_outcome :
    Diff
    → List OwnedSkillEntry
    → List OwnedSkillEntry
    → List OwnedSkillEntry
    → List Text
    → Text
    → PathOutcome
path_outcome diff base head_a head_b resolved p =
    merge_path diff (contains resolved p) (Map.get p (by_path base)) (Map.get p (by_path head_a))
      (Map.get p (by_path head_b))

unfoldable pub merge_skill_entries_with_resolutions :
    Diff
    → List OwnedSkillEntry
    → List OwnedSkillEntry
    → List OwnedSkillEntry
    → List Text
    → SkillMergeResult
merge_skill_entries_with_resolutions diff base head_a head_b resolved =
    merge_result
      (merge_paths (path_outcome diff base head_a head_b resolved) (all_paths base head_a head_b))

unfoldable pub merge_skill_entries :
    Diff → List OwnedSkillEntry → List OwnedSkillEntry → List OwnedSkillEntry → SkillMergeResult
merge_skill_entries diff base head_a head_b =
    merge_skill_entries_with_resolutions diff base head_a head_b []
