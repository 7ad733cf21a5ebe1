-- ===== src/Core/Merge/Edits.antt =====
-- The line-oriented merge of one file (`merge_text` of crates/denju-core/src/merge.rs). A `str` is
-- its UTF-8 bytes here. The crate `similar` is the parameter `diff`.
use Prim.Native.Nat.{compare}
use native.Mathlib.Decide.{ℕ_discrete}
use denju.Base.{ℕ, Bool, true, false, ◌&&◌, Option, none, some, List, [], ◌∷◌, ◌++◌}
use denju.Base.{ltb, leb, nat_eq, if◌then◌else◌, Eq, contains, any, slice, drop, Bytes}
use denju.Base.{Ordering, then_with, list_cmp, text_cmp, sort_by}

-- One operation of a `TextDiff`: a tag, a range of old lines and a range of new lines.
pub data DiffTag : Type 0 where
  equal delete insert replace : DiffTag

pub record DiffOp : Type 0 where
  pub tag : DiffTag
  pub old_start : ℕ
  pub old_end : ℕ
  pub new_start : ℕ
  pub new_end : ℕ

-- `TextDiff::from_slices(base, variant).ops()`
abbrev pub Diff : Type 0
Diff = List Bytes → List Bytes → List DiffOp

pub record TextEdit : Type 0 where
  pub start : ℕ
  pub stop : ℕ
  pub replacement : List Bytes

unfoldable pub TextEdit-discrete : Discrete TextEdit
unfolding ℕ_discrete
TextEdit-discrete = hlevel ℕ_discrete

instance abbrev pub edit_Eq : Eq TextEdit
edit_Eq = record { discrete = TextEdit-discrete }

unfoldable pub cons_line : ℕ → List Bytes → List Bytes
cons_line b [] = (b ∷ []) ∷ []
cons_line b (line ∷ rest) = (b ∷ line) ∷ rest

-- `split_inclusive('\n')`: each line keeps its line feed, and a last line may lack it.
unfoldable pub lines : Bytes → List Bytes
unfolding cons_line
lines [] = []
lines (b ∷ rest) = if nat_eq b b'\n' then (b ∷ []) ∷ lines rest else cons_line b (lines rest)

-- An edit that begins where the last one ends is joined to it.
unfoldable pub push_edit : List TextEdit → TextEdit → List TextEdit
push_edit [] edit = edit ∷ []
push_edit (last ∷ []) edit =
    if nat_eq last.stop edit.start
    then record last { stop = edit.stop; replacement = last.replacement ++ edit.replacement } ∷ []
    else last ∷ edit ∷ []
push_edit (e ∷ next ∷ rest) edit = e ∷ push_edit (next ∷ rest) edit

abbrev pub is_equal : DiffTag → Bool
is_equal DiffTag.equal = true
is_equal _ = false

unfoldable pub op_edit : List Bytes → DiffOp → TextEdit
op_edit variant op = record {
  start = op.old_start;
  stop = op.old_end;
  replacement = slice variant op.new_start op.new_end;
}

unfoldable pub collect_edits : List Bytes → List DiffOp → List TextEdit → List TextEdit
collect_edits variant [] edits = edits
collect_edits variant (op ∷ ops) edits =
    collect_edits variant ops
      (if is_equal op.tag then edits else push_edit edits (op_edit variant op))

unfoldable pub text_edits : Diff → List Bytes → List Bytes → List TextEdit
text_edits diff base variant = collect_edits variant (diff base variant) []

unfoldable pub edits_overlap : TextEdit → TextEdit → Bool
edits_overlap a b =
    let a_insert = nat_eq a.start a.stop in
    let b_insert = nat_eq b.start b.stop in
    if a_insert
    then (if b_insert then nat_eq a.start b.start else leb b.start a.start && ltb a.start b.stop)
    else (if b_insert
        then leb a.start b.start && ltb b.start a.stop
        else ltb a.start b.stop && ltb b.start a.stop)

-- One round of the loop over `b_edits`: `none` is the early `return None`.
unfoldable pub add_candidate : List TextEdit → TextEdit → Option (List TextEdit)
add_candidate edits candidate =
    if contains edits candidate
    then some edits
    else if any (λ existing. edits_overlap existing candidate) edits
    then none
    else some (edits ++ candidate ∷ [])

unfoldable pub add_candidates : List TextEdit → List TextEdit → Option (List TextEdit)
add_candidates edits [] = some edits
add_candidates edits (candidate ∷ rest) = elim (add_candidate edits candidate) [
  | none ↦ none
  | some edits' ↦ add_candidates edits' rest
]

abbrev pub edit_cmp : TextEdit → TextEdit → Ordering
edit_cmp left right = then_with (compare left.start right.start) (
    then_with (compare left.stop right.stop) (list_cmp text_cmp left.replacement right.replacement))

-- The output loop, as the lines that it appends.
unfoldable pub replay : List Bytes → ℕ → List TextEdit → Option (List Bytes)
replay base cursor [] = some (drop cursor base)
replay base cursor (edit ∷ edits) =
    let rest = replay base edit.stop edits in
    if ltb edit.start cursor then none else elim rest [
      | none ↦ none
      | some tail ↦ some (slice base cursor edit.start ++ (edit.replacement ++ tail))
    ]

unfoldable pub concat : List Bytes → Bytes
concat [] = []
concat (line ∷ rest) = line ++ concat rest

-- The part of `merge_text` after the two edit lists.
unfoldable pub merge_edits : List Bytes → List TextEdit → List TextEdit → Option (List Bytes)
merge_edits base_lines a_edits b_edits = elim (add_candidates a_edits b_edits) [
  | none ↦ none
  | some edits ↦ replay base_lines 0 (sort_by edit_cmp edits)
]

unfoldable pub merge_text : Diff → Bytes → Bytes → Bytes → Option Bytes
merge_text diff base a b =
    let base_lines = lines base in
    let a_edits = text_edits diff base_lines (lines a) in
    let b_edits = text_edits diff base_lines (lines b) in
    elim (merge_edits base_lines a_edits b_edits) [ none ↦ none | some out ↦ some (concat out) ]
