-- ===== src/Registry/Social/Normal.antt =====
-- The topics that `normalize_topics` accepts, and what it forgets of its input.
use Prim.Native.Nat.Ordering.{lt, gt}
use mathlib.Core.List.{Perm}
use mathlib.Core.List.Perm
use mathlib.Core.Path.{subst}
use denju.Base.{◌≡◌, ◌≢◌, refl, sym, ap, ◌∙◌, false, List, [], ◌∷◌, map, any}
use denju.Base.{Text, ok, length, inl, inr, arith, All, All-imp, IsSorted}
use denju.Base.{
  text_cmp, text_cmp-IsLawful, text_cmp-Separates, sort_by, length-sort_by, IsSorted-sort_by,
}
use denju.Base.{sort_by-Perm, text_discrete, text_Eq, eq-cases}
use denju.Registry.Api.{Host, trim}
use denju.Registry.Social.Topics.{normalize_topics, dedup, is_bad_topic, ascii_lowercase}

-- In strictly ascending order.
abbrev pub IsAscending : List Text → Type 0
IsAscending [] = Unit
IsAscending (x ∷ xs) = All (λ y. text_cmp x y ≡ lt) xs × IsAscending xs

All-dedup : (P : Text → Type 0) (xs : List Text) → All P xs → All P (dedup xs)
unfolding dedup
All-dedup P [] a = tt
All-dedup P (x ∷ []) a = a
All-dedup P (x ∷ y ∷ rest) a = elim (eq-cases x y) [
  | inl c ↦ rw c.0 (All-dedup P (y ∷ rest) a.1)
  | inr c ↦ rw c.0 (a.0, All-dedup P (y ∷ rest) a.1)
]

lt_before :
    (x y : Text) → (x ≢ y) → text_cmp x y ≢ gt → (z : Text) → text_cmp y z ≢ gt → text_cmp x z ≡ lt
lt_before x y different h z g = ground (
  arith,
  text_cmp-Separates x y,
  text_cmp-IsLawful.lt_trans x y z,
  text_cmp-IsLawful.eq_left z y x,
  text_cmp-IsLawful.eq_left y z x,
  text_cmp-IsLawful.swaps x y,
  text_cmp-IsLawful.swaps y z,
  text_cmp-IsLawful.swaps x z,
)

dedup-IsAscending : (xs : List Text) → IsSorted text_cmp xs → IsAscending (dedup xs)
unfolding dedup
dedup-IsAscending [] s = tt
dedup-IsAscending (x ∷ []) s = (tt, tt)
dedup-IsAscending (x ∷ y ∷ rest) s = elim (eq-cases x y) [
  | inl c ↦ rw c.0 (dedup-IsAscending (y ∷ rest) s.1)
  | inr c ↦ rw c.0 (
    All-dedup (λ z. text_cmp x z ≡ lt) (y ∷ rest)
        (
          ground (arith, text_cmp-Separates x y, s.0.0),
          All-imp (lt_before x y c.1 s.0.0) rest s.1.0,
        ),
    dedup-IsAscending (y ∷ rest) s.1,
  )
]

module _ (h : Host) where
  -- Accepted topics are in strictly ascending order, so that none comes twice, and each is well formed.
  pub normalize_topics-IsAscending :
      (input topics : List Text)
      → normalize_topics h input ≡ ok topics
      → IsAscending topics × (any is_bad_topic topics ≡ false)
  unfolding normalize_topics
  normalize_topics-IsAscending input topics e =
      let cleaned = sort_by text_cmp (map (λ topic. map ascii_lowercase (trim h topic)) input) in
      let same : dedup cleaned ≡ topics = ground arith in
      (
        subst IsAscending same (
            dedup-IsAscending cleaned (
              IsSorted-sort_by text_cmp-IsLawful
                (map (λ topic. map ascii_lowercase (trim h topic)) input))),
        ground arith,
      )

  -- The topics, or their refusal, do not depend on the order in which they are given.
  pub normalize_topics-Perm :
      (input other : List Text)
      → Perm input other
      → normalize_topics h input ≡ normalize_topics h other
  unfolding normalize_topics
  normalize_topics-Perm input other p =
      let clean : Text → Text = λ topic. map ascii_lowercase (trim h topic) in
      let sorted : sort_by text_cmp (map clean input) ≡ sort_by text_cmp (map clean other) =
        sort_by-Perm text_cmp-IsLawful text_cmp-Separates text_discrete (Perm.map clean p) in
      let lengths : length input ≡ length other =
        sym (length-sort_by text_cmp input)
        ∙ ap length (sort_by-Perm text_cmp-IsLawful text_cmp-Separates text_discrete p)
        ∙ length-sort_by text_cmp other in
      rw (lengths, sorted) refl
