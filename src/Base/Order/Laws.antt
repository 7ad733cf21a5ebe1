-- ===== src/Base/Order/Laws.antt =====
-- Lawful comparison functions, and what sorting by one gives.
use Prim.Native.Nat.{compare, Ordering}
use Prim.Native.Nat.Ordering.{lt, eq}
use mathlib.Core.Path.{◌≡◌, refl}
use mathlib.Core.List.{List, [], ◌∷◌}
use native.Mathlib.Omega.{arith}
use denju.Base.Order.Defs.{flip, then_with, text_cmp, list_cmp}

-- A total preorder, given as a comparison function.
pub record IsLawful {ℓ} {A : Type ℓ} (cmp : A → A → Ordering) : Type ℓ where
  pub swaps : (a b : A) → cmp b a ≡ flip (cmp a b)
  pub lt_trans : (a b c : A) → cmp a b ≡ lt → cmp b c ≡ lt → cmp a c ≡ lt
  pub eq_left : (a b c : A) → cmp a b ≡ eq → cmp a c ≡ cmp b c

pub compare-IsLawful : IsLawful compare
compare-IsLawful = record {
  swaps = λ a b. ground arith;
  lt_trans = λ a b c h k. ground arith;
  eq_left = λ a b c h. ground arith;
}

module _ {ℓ} {A : Type ℓ} {cmp : A → A → Ordering} (law : IsLawful cmp) where
  list_swaps : (xs ys : List A) → list_cmp cmp ys xs ≡ flip (list_cmp cmp xs ys)
  unfolding list_cmp
  list_swaps [] [] = refl
  list_swaps [] (y ∷ ys) = refl
  list_swaps (x ∷ xs) [] = refl
  list_swaps (x ∷ xs) (y ∷ ys) = ground (arith, law.swaps x y, list_swaps xs ys)

  list_eq_left :
      (xs ys zs : List A) → list_cmp cmp xs ys ≡ eq → list_cmp cmp xs zs ≡ list_cmp cmp ys zs
  unfolding list_cmp
  list_eq_left [] [] zs h = refl
  list_eq_left [] (y ∷ ys) zs h = cc
  list_eq_left (x ∷ xs) [] zs h = cc
  list_eq_left (x ∷ xs) (y ∷ ys) [] h = refl
  list_eq_left (x ∷ xs) (y ∷ ys) (z ∷ zs) h =
      ground (arith, law.eq_left x y z, list_eq_left xs ys zs)

  list_lt_trans :
      (xs ys zs : List A)
      → list_cmp cmp xs ys ≡ lt
      → list_cmp cmp ys zs ≡ lt
      → list_cmp cmp xs zs ≡ lt
  unfolding list_cmp
  list_lt_trans [] [] zs h k = cc
  list_lt_trans [] (y ∷ ys) [] h k = cc
  list_lt_trans [] (y ∷ ys) (z ∷ zs) h k = refl
  list_lt_trans (x ∷ xs) [] zs h k = cc
  list_lt_trans (x ∷ xs) (y ∷ ys) [] h k = cc
  list_lt_trans (x ∷ xs) (y ∷ ys) (z ∷ zs) h k = ground (
    arith,
    law.lt_trans x y z,
    law.eq_left x y z,
    law.eq_left z y x,
    law.swaps y z,
    law.swaps x z,
    law.swaps x y,
    law.eq_left y z x,
    list_lt_trans xs ys zs,
  )

  pub list_cmp-IsLawful : IsLawful (list_cmp cmp)
  list_cmp-IsLawful = record {
    swaps = list_swaps;
    lt_trans = list_lt_trans;
    eq_left = list_eq_left;
  }

-- Two values that compare as equal are equal.
abbrev pub Separates {ℓ} : {A : Type ℓ} → (A → A → Ordering) → Type ℓ
Separates {A} cmp = (a b : A) → cmp a b ≡ eq → a ≡ b

pub list_cmp-Separates {ℓ} :
    {A : Type ℓ} {cmp : A → A → Ordering} (sep : Separates cmp) → Separates (list_cmp cmp)
unfolding list_cmp
list_cmp-Separates sep [] [] h = refl
list_cmp-Separates sep [] (y ∷ ys) h = cc
list_cmp-Separates sep (x ∷ xs) [] h = cc
list_cmp-Separates sep (x ∷ xs) (y ∷ ys) h = ground (arith, sep x y, list_cmp-Separates sep xs ys)

pub compare-Separates : Separates compare
compare-Separates a b h = ground arith

pub text_cmp-IsLawful : IsLawful text_cmp
text_cmp-IsLawful = list_cmp-IsLawful compare-IsLawful

pub text_cmp-Separates : Separates text_cmp
text_cmp-Separates = list_cmp-Separates compare-Separates

-- Comparison by a key, and `then_with`.
pub by_key-IsLawful {ℓ κ} :
    {A : Type ℓ} {K : Type κ} {cmp : K → K → Ordering} (key : A → K)
    → IsLawful cmp
    → IsLawful (λ a b. cmp (key a) (key b))
by_key-IsLawful key law = record {
  swaps = λ a b. law.swaps (key a) (key b);
  lt_trans = λ a b c. law.lt_trans (key a) (key b) (key c);
  eq_left = λ a b c. law.eq_left (key a) (key b) (key c);
}

pub flip-IsLawful {ℓ} :
    {A : Type ℓ} {cmp : A → A → Ordering} → IsLawful cmp → IsLawful (λ a b. cmp b a)
flip-IsLawful law = record {
  swaps = λ a b. law.swaps b a;
  lt_trans = λ a b c h k. law.lt_trans c b a k h;
  eq_left = λ a b c h.
      ground (arith, law.swaps c a, law.swaps c b, law.swaps a b, law.eq_left a b c, law.swaps b a);
}

pub then_with-IsLawful {ℓ} :
    {A : Type ℓ} {f g : A → A → Ordering}
    → IsLawful f
    → IsLawful g
    → IsLawful (λ a b. then_with (f a b) (g a b))
then_with-IsLawful p q = record {
  swaps = λ a b. ground (arith, p.swaps a b, q.swaps a b);
  lt_trans = λ a b c h k. ground (
    arith,
    p.lt_trans a b c,
    q.lt_trans a b c,
    p.eq_left a b c,
    p.eq_left b c a,
    p.swaps a b,
    p.swaps b c,
    p.swaps a c,
    p.eq_left c b a,
  );
  eq_left = λ a b c h. ground (arith, p.eq_left a b c, q.eq_left a b c);
}
