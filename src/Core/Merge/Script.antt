-- ===== src/Core/Merge/Script.antt =====
-- What `similar` promises of its operations, and what `text_edits` makes of them.
use denju.Base.{ℕ, suc, ◌≤◌, ◌≡◌, sym, ap, ap₂, ◌∙◌, true, arith}
use denju.Base.{some, List, [], ◌∷◌, ◌++◌, nat_eq, Bool-cases}
use denju.Base.{slice, slice-append, slice_empty, slice_all, drop-slice, length, Bytes, inl, inr}
use mathlib.Core.List.{append-nil, append_assoc}
use denju.Core.Merge.Edits.{
  DiffOp, Diff, TextEdit, push_edit, is_equal, op_edit, collect_edits, text_edits, replay,
}

-- From old line `i` and new line `j` on, the operations cover both texts in order, and those with
-- the tag `equal` stand for equal lines.
abbrev pub IsScript : List Bytes → List Bytes → ℕ → ℕ → List DiffOp → Type 0
IsScript base variant i j [] = (i ≡ length base) × (j ≡ length variant)
IsScript base variant i j (op ∷ ops) =
    (op.old_start ≡ i)
    × (op.new_start ≡ j)
    × (i ≤ op.old_end)
    × (j ≤ op.new_end)
    × (is_equal op.tag ≡ true → slice base i op.old_end ≡ slice variant j op.new_end)
    × IsScript base variant op.old_end op.new_end ops

-- The documented contract of `TextDiff::from_slices(..).ops()`.
pub record IsDiff (diff : Diff) : Type 0 where
  pub covers : (base variant : List Bytes) → IsScript base variant 0 0 (diff base variant)

-- Edits in ascending order from line `low` on, with an unchanged line between any two of them,
-- all within the first `limit` lines.
abbrev pub IsSeparated : ℕ → List TextEdit → ℕ → Type 0
IsSeparated low [] limit = Unit
IsSeparated low (e ∷ es) limit =
    (low ≤ e.start) × (e.start ≤ e.stop) × (e.stop ≤ limit) × IsSeparated (suc e.stop) es limit

-- The output for the old lines from `cursor` to `limit`.
abbrev pub render : List Bytes → ℕ → List TextEdit → ℕ → List Bytes
render base cursor [] limit = slice base cursor limit
render base cursor (e ∷ es) limit =
    slice base cursor e.start ++ (e.replacement ++ render base e.stop es limit)

IsSeparated-weaken :
    (low : ℕ) (es : List TextEdit) (m n : ℕ) → m ≤ n → IsSeparated low es m → IsSeparated low es n
IsSeparated-weaken low [] m n h s = tt
IsSeparated-weaken low (e ∷ es) m n h s =
    (s.0, s.1, omega arith, IsSeparated-weaken (suc e.stop) es m n h s.3)

render-extend :
    (base : List Bytes) (cursor low : ℕ) (es : List TextEdit) (m n : ℕ)
    → m ≤ n
    → cursor ≤ m
    → IsSeparated low es m
    → render base cursor es n ≡ render base cursor es m ++ slice base m n
render-extend base cursor low [] m n h c s = sym (slice-append base cursor m n c h)
render-extend base cursor low (e ∷ es) m n h c s =
    simp (render-extend base e.stop (suc e.stop) es m n h s.2 s.3, append_assoc)

push_edit-IsSeparated :
    (low : ℕ) (es : List TextEdit) (e : TextEdit)
    → IsSeparated low es e.start
    → low ≤ e.start
    → e.start ≤ e.stop
    → IsSeparated low (push_edit es e) e.stop
unfolding push_edit
push_edit-IsSeparated low [] e s h k = ground arith
push_edit-IsSeparated low (f ∷ []) e s h k = ground arith
push_edit-IsSeparated low (f ∷ g ∷ es) e s h k =
    (s.0, s.1, omega arith, push_edit-IsSeparated (suc f.stop) (g ∷ es) e s.3 (omega arith) k)

render-push_edit :
    (base : List Bytes) (cursor low : ℕ) (es : List TextEdit) (e : TextEdit)
    → IsSeparated low es e.start
    → low ≤ e.start
    → render base cursor (push_edit es e) e.stop ≡ render base cursor es e.start ++ e.replacement
unfolding push_edit
render-push_edit base cursor low [] e s h = simp (slice_empty, append-nil)
render-push_edit base cursor low (f ∷ []) e s h = elim (Bool-cases (nat_eq f.stop e.start)) [
  | inl q ↦
      rw q
        (let p : f.stop ≡ e.start = ground arith in simp (p, slice_empty, append-nil, append_assoc))
  | inr q ↦ rw q (simp (slice_empty, append-nil, append_assoc))
]
render-push_edit base cursor low (f ∷ g ∷ es) e s h =
    simp (render-push_edit base f.stop (suc f.stop) (g ∷ es) e s.3 (omega arith), append_assoc)

module _ (base variant : List Bytes) where
  -- Collecting a script leaves separated edits whose output is the variant.
  collect_edits-IsSeparated :
      (ops : List DiffOp) (i j : ℕ) (edits : List TextEdit)
      → IsScript base variant i j ops
      → IsSeparated 0 edits i
      → IsSeparated 0 (collect_edits variant ops edits) (length base)
  unfolding collect_edits op_edit
  collect_edits-IsSeparated [] i j edits script s = rw (sym script.0) s
  collect_edits-IsSeparated (op ∷ ops) i j edits script s = elim (Bool-cases (is_equal op.tag)) [
    | inl q ↦ rw q (
        collect_edits-IsSeparated ops op.old_end op.new_end edits script.5
          (IsSeparated-weaken 0 edits i op.old_end script.2 s))
    | inr q ↦ rw q (
        collect_edits-IsSeparated ops op.old_end op.new_end _ script.5 (
          push_edit-IsSeparated 0 edits (op_edit variant op) (rw script.0 s) (omega arith)
            (rw script.0 script.2)))
  ]

  render-collect_edits :
      (ops : List DiffOp) (i j : ℕ) (edits : List TextEdit)
      → IsScript base variant i j ops
      → IsSeparated 0 edits i
      → render base 0 edits i ≡ slice variant 0 j
      → render base 0 (collect_edits variant ops edits) (length base) ≡ variant
  unfolding collect_edits op_edit
  render-collect_edits [] i j edits script s h =
      rw (sym script.0) (h ∙ rw script.1 (slice_all variant))
  render-collect_edits (op ∷ ops) i j edits script s h = elim (Bool-cases (is_equal op.tag)) [
    | inl q ↦ rw q (
        render-collect_edits ops op.old_end op.new_end edits script.5
          (IsSeparated-weaken 0 edits i op.old_end script.2 s)
          (render-extend base 0 0 edits i op.old_end script.2 (omega arith) s
            ∙ ap₂ (λ (x y : List Bytes). x ++ y) h (script.4 q)
            ∙ slice-append variant 0 j op.new_end (omega arith) script.3))
    | inr q ↦ rw q (
        render-collect_edits ops op.old_end op.new_end _ script.5
          (push_edit-IsSeparated 0 edits (op_edit variant op) (rw script.0 s) (omega arith)
            (rw script.0 script.2))
          (render-push_edit base 0 0 edits (op_edit variant op) (rw script.0 s) (omega arith)
            ∙ rw (script.0, script.1)
                (rw h (slice-append variant 0 j op.new_end (omega arith) script.3))))
  ]

replay-render :
    (base : List Bytes) (cursor low : ℕ) (es : List TextEdit)
    → cursor ≤ low
    → IsSeparated low es (length base)
    → replay base cursor es ≡ some (render base cursor es (length base))
unfolding replay
replay-render base cursor low [] h s = rw drop-slice
replay-render base cursor low (e ∷ es) h s =
    ground (arith, replay-render base e.stop (suc e.stop) es (omega arith) s.3)

module _ {diff : Diff} (contract : IsDiff diff) (base variant : List Bytes) where
  -- The edits of a variant are ascending, non-empty gaps apart, and within the base.
  pub text_edits-IsSeparated : IsSeparated 0 (text_edits diff base variant) (length base)
  unfolding text_edits
  text_edits-IsSeparated =
      collect_edits-IsSeparated base variant (diff base variant) 0 0 []
        (contract.covers base variant) tt

  -- With a line diff that keeps its contract, the edits of a variant, applied to the base, give the
  -- variant.
  pub replay-text_edits : replay base 0 (text_edits diff base variant) ≡ some variant
  unfolding text_edits
  replay-text_edits =
      replay-render base 0 0 _ (omega arith) text_edits-IsSeparated
      ∙ ap some (
          render-collect_edits base variant (diff base variant) 0 0 []
            (contract.covers base variant) tt (slice_empty base 0 ∙ sym (slice_empty variant 0)))
