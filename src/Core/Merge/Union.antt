-- ===== src/Core/Merge/Union.antt =====
-- The edits of two variants together: the same whichever variant comes first.
use mathlib.Core.List.{Perm}
use denju.Base.{◌≡◌, refl, sym, ap, ◌∙◌, true, false, not, ◌&&◌, ◌||◌, arith, ◌≢◌}
use denju.Base.{List, [], ◌∷◌, ◌++◌, eq-cases, eq_refl, contains, any, Bool-cases, inl, inr}
use denju.Base.{IsDistinct, Perm_of_contains, sort_by-Perm, Bytes}
use denju.Base.{
  IsLawful, Separates, by_key-IsLawful, then_with-IsLawful, list_cmp-IsLawful, compare-IsLawful,
}
use denju.Base.{text_cmp-IsLawful, text_cmp-Separates, list_cmp-Separates, compare-Separates}
use denju.Core.Merge.Edits.{
  TextEdit, TextEdit-discrete, edit_Eq, edit_cmp, edits_overlap, merge_edits,
}
use denju.Core.Merge.Overlap.{
  IsSpread, clash, fresh, overlaps_any, add_candidates_lem, contains-append, edits_overlap_comm,
}

edit_cmp-IsLawful : IsLawful edit_cmp
edit_cmp-IsLawful =
    then_with-IsLawful (by_key-IsLawful (λ (e : TextEdit). e.start) compare-IsLawful) (
      then_with-IsLawful (by_key-IsLawful (λ (e : TextEdit). e.stop) compare-IsLawful)
        (by_key-IsLawful (λ (e : TextEdit). e.replacement) (list_cmp-IsLawful text_cmp-IsLawful)))

edit_cmp-Separates : Separates edit_cmp
edit_cmp-Separates a b h = ground (
  arith,
  compare-Separates a.start b.start,
  compare-Separates a.stop b.stop,
  list_cmp-Separates text_cmp-Separates a.replacement b.replacement,
)

contains-fresh :
    (a b : List TextEdit) (e : TextEdit)
    → contains (fresh a b) e ≡ (contains b e && not (contains a e))
unfolding contains fresh
contains-fresh a [] e = refl
contains-fresh a (c ∷ cs) e = ground (arith, contains-fresh a cs e, eq-cases e c)

fresh-IsDistinct : (a b : List TextEdit) → IsSpread b → IsDistinct (fresh a b)
unfolding fresh
fresh-IsDistinct a [] s = tt
fresh-IsDistinct a (c ∷ cs) s = elim (Bool-cases (contains a c)) [
  | inl q ↦ rw q (fresh-IsDistinct a cs s.2)
  | inr q ↦ rw q (ground (arith, contains-fresh a cs c), fresh-IsDistinct a cs s.2)
]

append-IsDistinct :
    (a b : List TextEdit)
    → IsSpread a
    → IsDistinct b
    → ((e : TextEdit) → contains a e ≡ true → contains b e ≡ false)
    → IsDistinct (a ++ b)
unfolding contains
append-IsDistinct [] b s d h = d
append-IsDistinct (x ∷ xs) b s d h = (
  ground (arith, contains-append xs b x, h x, eq-cases x x),
  append-IsDistinct xs b s.2 d (λ e m. ground (arith, h e)),
)

union-IsDistinct : (a b : List TextEdit) → IsSpread a → IsSpread b → IsDistinct (a ++ fresh a b)
union-IsDistinct a b s t =
    append-IsDistinct a (fresh a b) s (fresh-IsDistinct a b t)
      λ e m. ground (arith, contains-fresh a b e)

pub contains-union :
    (a b : List TextEdit) (e : TextEdit)
    → contains (a ++ fresh a b) e ≡ (contains a e || contains b e)
contains-union a b e = ground (arith, contains-append a (fresh a b) e, contains-fresh a b e)

union-Perm :
    (a b : List TextEdit) → IsSpread a → IsSpread b → Perm (a ++ fresh a b) (b ++ fresh b a)
union-Perm a b s t =
    Perm_of_contains _ _ (union-IsDistinct a b s t) (union-IsDistinct b a t s)
      λ e. ground (arith, contains-union a b e, contains-union b a e)

no_overlap :
    (es : List TextEdit) (x y : TextEdit)
    → overlaps_any es x ≡ false
    → contains es y ≡ true
    → edits_overlap y x ≡ false
unfolding contains any
no_overlap [] x y o m = cc
no_overlap (e ∷ es) x y o m = ground (arith, eq-cases y e, no_overlap es x y)

apart :
    (b : List TextEdit) (x y : TextEdit)
    → IsSpread b
    → contains b x ≡ true
    → contains b y ≡ true
    → x ≢ y
    → edits_overlap x y ≡ false
unfolding contains
apart [] x y s m n h = cc
apart (e ∷ es) x y s m n h = elim (eq-cases x e) [
  | inl p ↦ elim (eq-cases y e) [
    | inl q ↦ absurd (h (p.1 ∙ sym q.1))
    | inr q ↦ edits_overlap_comm x y ∙ rw p.1 (no_overlap es e y s.1 (rw q.0 at n))
  ]
  | inr p ↦ elim (eq-cases y e) [
    | inl q ↦ rw q.1 (no_overlap es e x s.1 (rw p.0 at m))
    | inr q ↦ apart es x y s.2 (rw p.0 at m) (rw q.0 at n) h
  ]
]

overlap_intro :
    (es : List TextEdit) (x y : TextEdit)
    → contains es y ≡ true
    → edits_overlap y x ≡ true
    → overlaps_any es x ≡ true
unfolding contains any
overlap_intro [] x y m o = cc
overlap_intro (e ∷ es) x y m o = ground (arith, eq-cases y e, overlap_intro es x y)

overlap_witness :
    (es : List TextEdit) (x : TextEdit)
    → overlaps_any es x ≡ true
    → (y : TextEdit) × (contains es y ≡ true) × (edits_overlap y x ≡ true)
unfolding contains any
overlap_witness [] x o = cc
overlap_witness (e ∷ es) x o = elim (Bool-cases (edits_overlap e x)) [
  | inl q ↦ (e, rw eq_refl refl, q)
  | inr q ↦ let (y, m, k) = overlap_witness es x (rw q at o) in (y, ground arith, k)
]

clash_intro :
    (a b : List TextEdit) (e : TextEdit)
    → contains b e ≡ true
    → contains a e ≡ false
    → overlaps_any a e ≡ true
    → clash a b ≡ true
unfolding contains clash
clash_intro a [] e m n o = cc
clash_intro a (c ∷ cs) e m n o = ground (arith, eq-cases e c, clash_intro a cs e)

clash_witness :
    (a b : List TextEdit)
    → clash a b ≡ true
    → (e : TextEdit) × (contains b e ≡ true) × (contains a e ≡ false) × (overlaps_any a e ≡ true)
unfolding contains clash
clash_witness a [] h = cc
clash_witness a (c ∷ cs) h = elim (Bool-cases (not (contains a c) && overlaps_any a c)) [
  | inl q ↦ (c, rw eq_refl refl, ground arith, ground arith)
  | inr q ↦ let (e, m, n, o) = clash_witness a cs (rw q at h) in (e, ground arith, n, o)
]

clash_flip : (a b : List TextEdit) → IsSpread b → clash a b ≡ true → clash b a ≡ true
clash_flip a b t h =
    let (c, m, n, o) = clash_witness a b h in
    let (x, k, l) = overlap_witness a c o in
    elim (Bool-cases (contains b x)) [
      | inl both ↦ cc (l, apart b x c t both m (λ e. cc (ap (contains a) e, k, n)))
      | inr only ↦ clash_intro b a x k only (overlap_intro b x c m (edits_overlap_comm c x ∙ l))
    ]

clash_comm : (a b : List TextEdit) → IsSpread a → IsSpread b → clash a b ≡ clash b a
clash_comm a b s t = ground (arith, clash_flip a b t, clash_flip b a s)

pub merge_edits_comm :
    (base : List Bytes) (a b : List TextEdit)
    → IsSpread a
    → IsSpread b
    → merge_edits base a b ≡ merge_edits base b a
unfolding merge_edits
merge_edits_comm base a b s t = ground (
  arith,
  add_candidates_lem a b t,
  add_candidates_lem b a s,
  clash_comm a b s t,
  sort_by-Perm edit_cmp-IsLawful edit_cmp-Separates TextEdit-discrete (union-Perm a b s t),
)
