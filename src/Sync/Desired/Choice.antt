-- ===== src/Sync/Desired/Choice.antt =====
-- What `resolve_desired_sources` (crates/denju-sync/src/lib.rs) chooses, without its sort.

use mathlib.Core.List.{Perm}
use mathlib.Core.List.Perm
use denju.Base.{ℕ, suc, ◌≤◌, ◌<◌, ◌≡◌, ◌≢◌, refl, sym, ap, ◌⊎◌, inl, inr, Bool, true, false, arith}
use denju.Base.{Option, List, [], ◌∷◌, ◌++◌, map, nat_eq, ltb, text_Eq, eq-cases, contains}
use denju.Base.{
  Text, length, take, drop, take-append-drop, sort_by, Perm-sort_by, All-sort_by, All, All-imp,
}
use denju.Base.{
  IsSorted, IsSorted-sort_by, IsLawful, flip-IsLawful, by_key-IsLawful, then_with-IsLawful,
}
use denju.Base.{compare-IsLawful, text_cmp-IsLawful, if◌then◌else◌}
use denju.Base.Strings.Map.{to_set, set_insert, to_set-Perm, contains-to_set}
use denju.Sync.Desired.Defs.{
  DesiredSource, ResolvedDesiredState, absent, selected, conflict, rank, source_cmp, source_id_cmp,
  partition_point, revisions, choose, resolve_sorted, resolve_desired_sources,
}

source_cmp-IsLawful : IsLawful source_cmp
source_cmp-IsLawful =
    then_with-IsLawful
      (by_key-IsLawful (λ (s : DesiredSource). rank s.kind) (flip-IsLawful compare-IsLawful))
      (then_with-IsLawful (by_key-IsLawful (λ (s : DesiredSource). s.source_id) text_cmp-IsLawful)
        (by_key-IsLawful (λ (s : DesiredSource). s.revision_id) text_cmp-IsLawful))

source_id-IsLawful : IsLawful source_id_cmp
source_id-IsLawful = by_key-IsLawful (λ (s : DesiredSource). s.source_id) text_cmp-IsLawful

-- A set of texts that are all one text has one element.
to_set_alone : (r : Text) (rs : List Text) → All (λ s. s ≡ r) rs → to_set (r ∷ rs) ≡ r ∷ []
unfolding to_set set_insert
to_set_alone r [] a = refl
to_set_alone r (s ∷ rs) a =
    rw (a.0, to_set_alone r rs a.1) (ground (arith, text_cmp-IsLawful.swaps r r))

same_or_other :
    (r : Text) (rs : List Text)
    → All (λ s. s ≡ r) rs ⊎ ((s : Text) × (contains rs s ≡ true) × (s ≢ r))
unfolding contains
same_or_other r [] = inl tt
same_or_other r (s ∷ rs) = elim (same_or_other r rs) [
  | inr o ↦ inr (o.0, ground (arith, o.1), o.2)
  | inl a ↦ elim (eq-cases s r) [
    | inl c ↦ inl (c.1, a)
    | inr c ↦ inr (s, ground (arith, eq-cases s s), c.1)
  ]
]

-- Two of the texts differ.
pub Disagree : List Text → Type 0
Disagree rs = (x y : Text) × (contains rs x ≡ true) × (contains rs y ≡ true) × (x ≢ y)

two_of_set : (rs : List Text) → 1 < length (to_set rs) → Disagree rs
unfolding Disagree
two_of_set [] h = absurd (unfold to_set in omega arith)
two_of_set (r ∷ rs) h = elim (same_or_other r rs) [
  | inr o ↦ (
    r,
    o.0,
    unfold contains in ground (arith, eq-cases r r),
    unfold contains in ground (arith, o.1),
    λ e. o.2 (sym e),
  )
  | inl a ↦ absurd (omega (arith, ap length (to_set_alone r rs a)))
]

same_of_short :
    (x y : Text) (ss : List Text)
    → length ss ≤ 1
    → contains ss x ≡ true
    → contains ss y ≡ true
    → x ≡ y
unfolding contains
same_of_short x y [] h p q = cc
same_of_short x y (s ∷ []) h p q = ground (arith, eq-cases x s, eq-cases y s)
same_of_short x y (s ∷ t ∷ ss) h p q = absurd (omega arith)

alone_of_set : (r : Text) (rs : List Text) → length (to_set (r ∷ rs)) ≤ 1 → All (λ s. s ≡ r) rs
alone_of_set r rs h = elim (same_or_other r rs) [
  | inl a ↦ a
  | inr o ↦ absurd (
      o.2 (
        same_of_short o.0 r (to_set (r ∷ rs)) h
          (rw (contains-to_set o.0 (r ∷ rs)) (unfold contains in ground (arith, o.1)))
          (rw (contains-to_set r (r ∷ rs)) (unfold contains in ground (arith, eq-cases r r)))))
]

-- The sources from the first on, the stronger kinds first.
abbrev Descends : List DesiredSource → Type 0
Descends [] = Unit
Descends (s ∷ ss) = All (λ t. rank t.kind ≤ rank s.kind) ss × Descends ss

Descends-sorted : (ss : List DesiredSource) → IsSorted source_cmp ss → Descends ss
Descends-sorted [] h = tt
Descends-sorted (s ∷ ss) h = (All-imp (λ t c. ground arith) ss h.0, Descends-sorted ss h.1)

split_strongest :
    (k : ℕ) (ss : List DesiredSource)
    → Descends ss
    → All (λ s. rank s.kind ≤ k) ss
    → All (λ s. rank s.kind ≡ k) (take (partition_point k ss) ss)
      × All (λ s. rank s.kind < k) (drop (partition_point k ss) ss)
unfolding partition_point
split_strongest k [] d a = (tt, tt)
split_strongest k (s ∷ ss) d a = cut (nat_eq (rank s.kind) k) refl (split_strongest k ss d.1 a.1)
  where
    cut :
        (b : Bool)
        → nat_eq (rank s.kind) k ≡ b
        → All (λ t. rank t.kind ≡ k) (take (partition_point k ss) ss)
          × All (λ t. rank t.kind < k) (drop (partition_point k ss) ss)
        → All (λ t. rank t.kind ≡ k) (take (if b then suc (partition_point k ss) else 0) (s ∷ ss))
          × All (λ t. rank t.kind < k) (drop (if b then suc (partition_point k ss) else 0) (s ∷ ss))
    cut true e rest = ((ground arith, rest.0), rest.1)
    cut false e rest = (tt, (ground (arith, a.0), All-imp (λ t c. ground (arith, a.0)) ss d.0))

-- What may be chosen among the sources.
pub IsChoice : List DesiredSource → Option Text → ResolvedDesiredState → Type 0
IsChoice sources last absent = sources ≡ []
IsChoice sources last (selected s suppressed) =
    (agreeing weaker : List DesiredSource) × (suppressed ≡ agreeing ++ weaker)
    × Perm (s ∷ suppressed) sources
    × All (λ t. (rank t.kind ≡ rank s.kind) × (t.revision_id ≡ s.revision_id)) agreeing
    × All (λ t. rank t.kind < rank s.kind) weaker
IsChoice sources last (conflict ss last') =
    (last' ≡ last)
    × (strongest : ℕ) × (weaker : List DesiredSource) × Perm (ss ++ weaker) sources
    × All (λ t. rank t.kind ≡ strongest) ss
    × All (λ t. rank t.kind < strongest) weaker
    × Disagree (revisions ss)

abbrev revision : DesiredSource → Text
revision s = s.revision_id

revisions-map : (ss : List DesiredSource) → revisions ss ≡ map revision ss
unfolding revisions
revisions-map [] = refl
revisions-map (s ∷ ss) = ap (λ (r : List Text). s.revision_id ∷ r) (revisions-map ss)

to_set-revisions-Perm :
    {ss ts : List DesiredSource} → Perm ss ts → to_set (revisions ss) ≡ to_set (revisions ts)
to_set-revisions-Perm {ss} {ts} p =
    rw (revisions-map ss, revisions-map ts) (to_set-Perm (Perm.map revision p))

agreeing_of_alone :
    (k : ℕ) (r : Text) (ss : List DesiredSource)
    → All (λ t. rank t.kind ≡ k) ss
    → All (λ x. x ≡ r) (revisions ss)
    → All (λ t. (rank t.kind ≡ k) × (t.revision_id ≡ r)) ss
unfolding revisions
agreeing_of_alone k r [] a b = tt
agreeing_of_alone k r (s ∷ ss) a b = ((a.0, b.0), agreeing_of_alone k r ss a.1 b.1)

choose-IsChoice :
    (sources : List DesiredSource) (last : Option Text) (s : DesiredSource)
    (active weaker : List DesiredSource)
    → All (λ t. rank t.kind ≡ rank s.kind) active
    → All (λ t. rank t.kind < rank s.kind) weaker
    → Perm ((s ∷ active) ++ weaker) sources
    → IsChoice sources last (choose (s ∷ active) weaker last)
unfolding choose IsChoice
choose-IsChoice sources last s active weaker a w p =
    pick (ltb 1 (length (to_set (revisions (s ∷ active))))) refl
  where
    pick :
        (b : Bool)
        → ltb 1 (length (to_set (revisions (s ∷ active)))) ≡ b
        → IsChoice sources last (
            if b
            then conflict (sort_by source_id_cmp (s ∷ active)) last
            else selected s (active ++ weaker))
    pick true e =
        let sorted = Perm-sort_by source_id_cmp (s ∷ active) in
        (
          refl,
          rank s.kind,
          weaker,
          Perm.trans (Perm.append_right weaker sorted) p,
          All-sort_by source_id-IsLawful _ (s ∷ active) (refl, a),
          w,
          two_of_set (revisions (sort_by source_id_cmp (s ∷ active)))
              (rw (to_set-revisions-Perm sorted) (ground arith)),
        )
    pick false e = (
      active,
      weaker,
      refl,
      p,
      agreeing_of_alone _ _ active a
          (alone_of_set s.revision_id (revisions active) (unfold revisions in ground arith)),
      w,
    )

resolve_sorted-IsChoice :
    (sources : List DesiredSource) (last : Option Text) (ss : List DesiredSource)
    → Descends ss
    → Perm ss sources
    → IsChoice sources last (resolve_sorted ss last)
unfolding resolve_sorted
resolve_sorted-IsChoice sources last [] d p = unfold IsChoice in Perm.eq-nil (Perm.symm p)
resolve_sorted-IsChoice sources last (s ∷ ss) d p =
    let n = partition_point (rank s.kind) ss in
    let e : partition_point (rank s.kind) (s ∷ ss) ≡ suc n =
      unfold partition_point in ground arith in
    let parts = split_strongest (rank s.kind) ss d.1 d.0 in
    rw e (
      choose-IsChoice sources last s (take n ss) (drop n ss) parts.0 parts.1
        (rw (take-append-drop n ss) p))

-- The choice, for any sources. None give `Absent`. One selected source comes with all the others:
-- first those of its kind, which ask for the same revision, then the weaker ones. A conflict holds
-- the sources of the strongest kind, two of which ask for different revisions, and the last valid
-- revision as it was given.
pub resolve_desired_sources-IsChoice :
    (sources : List DesiredSource) (last : Option Text)
    → IsChoice sources last (resolve_desired_sources sources last)
unfolding resolve_desired_sources
resolve_desired_sources-IsChoice sources last =
    resolve_sorted-IsChoice sources last (sort_by source_cmp sources)
      (Descends-sorted _ (IsSorted-sort_by source_cmp-IsLawful sources))
      (Perm-sort_by source_cmp sources)
