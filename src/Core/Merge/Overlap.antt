-- ===== src/Core/Merge/Overlap.antt =====
-- When the edits of two variants clash, and what the candidate loop of `merge_text` collects.
use denju.Base.{ℕ, suc, ◌≤◌, ◌<◌, ◌≡◌, refl, sym, ap, ◌∙◌, Bool, false, not, ◌&&◌, ◌||◌, arith}
use denju.Base.{none, some, List, [], ◌∷◌, ◌++◌, eq-cases, contains, any}
use denju.Base.{if◌then◌else◌}
use mathlib.Core.List.{append-nil, append_assoc}
use denju.Core.Merge.Edits.{TextEdit, edit_Eq, edits_overlap, add_candidate, add_candidates}
use denju.Core.Merge.Script.{IsSeparated}

pub edits_overlap_comm : (a b : TextEdit) → edits_overlap a b ≡ edits_overlap b a
unfolding edits_overlap
edits_overlap_comm a b = ground arith

pub contains-append :
    (xs ys : List TextEdit) (e : TextEdit)
    → contains (xs ++ ys) e ≡ (contains xs e || contains ys e)
unfolding contains
contains-append [] ys e = refl
contains-append (x ∷ xs) ys e = ground (arith, contains-append xs ys e)

abbrev pub overlaps_any : List TextEdit → TextEdit → Bool
overlaps_any edits e = any (λ x. edits_overlap x e) edits

-- The candidates that are new to `edits`, in order.
unfoldable pub fresh : List TextEdit → List TextEdit → List TextEdit
fresh edits [] = []
fresh edits (c ∷ cs) = let rest = fresh edits cs in if contains edits c then rest else c ∷ rest

-- Some new candidate overlaps an edit.
unfoldable pub clash : List TextEdit → List TextEdit → Bool
clash edits [] = false
clash edits (c ∷ cs) = not (contains edits c) && overlaps_any edits c || clash edits cs

-- Distinct edits, no two of which overlap.
abbrev pub IsSpread : List TextEdit → Type 0
IsSpread [] = Unit
IsSpread (e ∷ es) = (contains es e ≡ false) × (overlaps_any es e ≡ false) × IsSpread es

before-contains :
    (e : TextEdit) (low : ℕ) (es : List TextEdit) (limit : ℕ)
    → e.start ≤ e.stop
    → e.stop < low
    → IsSeparated low es limit
    → (contains es e ≡ false) × (overlaps_any es e ≡ false)
unfolding contains any edits_overlap
before-contains e low [] limit k l s = (refl, refl)
before-contains e low (f ∷ fs) limit k l s =
    let rest = before-contains e (suc f.stop) fs limit k (omega arith) s.3 in
    ground (arith, eq-cases e f, rest)

pub IsSpread-IsSeparated :
    (low : ℕ) (es : List TextEdit) (limit : ℕ) → IsSeparated low es limit → IsSpread es
IsSpread-IsSeparated low [] limit s = tt
IsSpread-IsSeparated low (e ∷ es) limit s =
    let b = before-contains e (suc e.stop) es limit s.1 (omega arith) s.3 in
    (b.0, b.1, IsSpread-IsSeparated (suc e.stop) es limit s.3)

pub overlaps_any-append :
    (xs ys : List TextEdit) (e : TextEdit)
    → overlaps_any (xs ++ ys) e ≡ (overlaps_any xs e || overlaps_any ys e)
unfolding any
overlaps_any-append [] ys e = refl
overlaps_any-append (x ∷ xs) ys e = ground (arith, overlaps_any-append xs ys e)

-- `done` neither holds nor overlaps any edit of the list.
abbrev IsClear : List TextEdit → List TextEdit → Type 0
IsClear done [] = Unit
IsClear done (c ∷ cs) = (contains done c ≡ false) × (overlaps_any done c ≡ false) × IsClear done cs

IsClear-extend :
    (done : List TextEdit) (c : TextEdit) (cs : List TextEdit)
    → IsClear done cs
    → contains cs c ≡ false
    → overlaps_any cs c ≡ false
    → IsClear (done ++ c ∷ []) cs
unfolding contains any
IsClear-extend done c [] k h l = tt
IsClear-extend done c (d ∷ cs) k h l = (
  rw contains-append (ground (arith, eq-cases c d, eq-cases d c)),
  rw overlaps_any-append (ground (arith, edits_overlap_comm c d)),
  IsClear-extend done c cs k.2 (ground arith) (ground arith),
)

add_candidates_onto :
    (edits done cs : List TextEdit)
    → IsClear done cs
    → IsSpread cs
    → add_candidates (edits ++ done) cs
      ≡ (if clash edits cs then none else some (edits ++ (done ++ fresh edits cs)))
unfolding add_candidates add_candidate clash fresh
add_candidates_onto edits done [] k s = rw append-nil
add_candidates_onto edits done (c ∷ cs) k s = ground (
  arith,
  contains-append edits done c,
  overlaps_any-append edits done c,
  add_candidates_onto edits done cs k.2 s.2,
  add_candidates_onto edits (done ++ c ∷ []) cs (IsClear-extend done c cs k.2 s.0 s.1) s.2,
  append_assoc edits done (c ∷ []),
  append_assoc done (c ∷ []) (fresh edits cs),
)

IsClear-nil : (cs : List TextEdit) → IsClear [] cs
unfolding contains any
IsClear-nil [] = tt
IsClear-nil (c ∷ cs) = (refl, refl, IsClear-nil cs)

-- The loop fails exactly at a clash, and else adds the new candidates.
pub add_candidates_lem :
    (edits cs : List TextEdit)
    → IsSpread cs
    → add_candidates edits cs ≡ (if clash edits cs then none else some (edits ++ fresh edits cs))
add_candidates_lem edits cs s =
    ap (λ es. add_candidates es cs) (sym (append-nil edits))
    ∙ add_candidates_onto edits [] cs (IsClear-nil cs) s
