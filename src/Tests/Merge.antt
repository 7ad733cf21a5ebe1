-- ===== src/Tests/Merge.antt =====
-- The merge at concrete trees, with a `diff` that replaces a text as a whole.
use native.Mathlib.Decide.{ℕ_discrete}
use denju.Base.Strings.Map
use denju.Core.Merge
use denju.Base.{
  list_cmp, ◌==◌, option_discrete, text_discrete, bool_discrete, contains, any, insert_by, sort_by,
  from_utf8, is_utf8, arith,
}
use denju.Base.{◌≡◌, refl, true, false, List, [], ◌∷◌, some, length, lit, slice}
use denju.Core.Entry.{OwnedSkillEntry, file, entry_path, OwnedSkillEntry-discrete}
use denju.Core.Merge.{
  Diff, DiffOp, DiffTag, TextEdit, lines, text_edits, replay, merge_skill_entries, clean,
  conflicted, merge_skill_entries_with_resolutions, text_overlap, SkillMergeResult,
}
use denju.Core.Merge.Script.{IsDiff, replay-text_edits}
use denju.Core.Merge.Symmetry.{merge_skill_entries_comm}

abbrev whole : Diff
whole base variant =
    record {
      tag = DiffTag.replace;
      old_start = 0;
      old_end = length base;
      new_start = 0;
      new_end = length variant;
    }
    ∷ []

whole-IsDiff : IsDiff whole
whole-IsDiff = record {
  covers = λ base variant. (refl, refl, omega arith, omega arith, (λ e. cc e), (refl, refl));
}

abbrev old : List OwnedSkillEntry
old = file (lit "a.txt") (lit "a0\n") false ∷ file (lit "b.txt") (lit "b0\n") false ∷ []

abbrev left : List OwnedSkillEntry
left = file (lit "a.txt") (lit "a1\n") false ∷ file (lit "b.txt") (lit "b0\n") false ∷ []

abbrev right : List OwnedSkillEntry
right = file (lit "a.txt") (lit "a0\n") false ∷ file (lit "b.txt") (lit "b1\n") true ∷ []

run : List OwnedSkillEntry → List OwnedSkillEntry → List OwnedSkillEntry → SkillMergeResult
unfolding merge_skill_entries merge_skill_entries_with_resolutions Merge.merge_paths Merge.all_paths
    Map.to_set Map.keys Merge.by_path Map.insert list_cmp entry_path Merge.path_outcome
    Merge.merge_path ◌==◌ option_discrete Map.get text_discrete OwnedSkillEntry-discrete
    bool_discrete contains any slice insert_by sort_by Map.set_insert from_utf8 is_utf8
    Merge.TextEdit-discrete Merge.add_candidate Merge.add_candidates Merge.collect_edits
    Merge.concat Merge.edits_overlap lines Merge.merge_edits Merge.merge_text Merge.op_edit
    Merge.push_edit replay text_edits Merge.merge_changed_path Merge.merge_file_bytes
    Merge.merge_scalar ℕ_discrete
run = merge_skill_entries whole

both_sides_are_kept :
    run old left right
    ≡ clean (file (lit "a.txt") (lit "a1\n") false ∷ file (lit "b.txt") (lit "b1\n") true ∷ [])
unfolding run
both_sides_are_kept = refl

-- Both heads rewrite the same text.
both_sides_clash :
    run old left
      (file (lit "a.txt") (lit "a2\n") false ∷ file (lit "b.txt") (lit "b0\n") false ∷ [])
    ≡ conflicted (record { path = lit "a.txt"; kind = text_overlap } ∷ [])
unfolding run
both_sides_clash = refl

merge_skill_entries_comm_example :
    merge_skill_entries whole old left right ≡ merge_skill_entries whole old right left
merge_skill_entries_comm_example = merge_skill_entries_comm whole-IsDiff old left right

replay-text_edits_example :
    replay (lines (lit "a\nb\n")) 0 (text_edits whole (lines (lit "a\nb\n")) (lines (lit "c\n")))
    ≡ some (lines (lit "c\n"))
replay-text_edits_example =
    replay-text_edits whole-IsDiff (lines (lit "a\nb\n")) (lines (lit "c\n"))
