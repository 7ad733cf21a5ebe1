-- ===== src/Base/Order/Sort.antt =====
-- `sort_by` permutes, orders, and does not depend on the order of what it is given.
use Prim.Native.Nat.Ordering.{lt, eq, gt}
use Prim.Native.Nat.{Ordering, suc}
use denju.Base.Lists.{length}
use mathlib.Core.Path.{◌≡◌, refl, sym, ap, ap₂, ◌∙◌}
use mathlib.Core.Bool.{true, false, false≢true}
use mathlib.Core.List.{List, [], ◌∷◌, Perm, Permᴰ, Mem, mem-cons, not-mem-nil}
use mathlib.Core.List.{Nodup, Nodup-nil, Nodup-cons, perm_ext_iff_of_Nodup}
use mathlib.Core.HLevel.{hedberg}
use mathlib.Core.List.Perm
use mathlib.Core.Logic.{◌≢◌, inl, inr, ∥∥₁_elim}
use mathlib.Core.Logic.Or
use denju.Base.Equality.{Eq, contains, eq-cases, ≡→eq, list_discrete, bool_discrete}
use native.Mathlib.Omega.{arith}
use denju.Base.Order.Defs.{insert_by, sort_by}
use denju.Base.Order.Laws.{IsLawful, Separates}

module _ {ℓ} {A : Type ℓ} (cmp : A → A → Ordering) where
  Perm-insert_by : (x : A) (ys : List A) → Perm (insert_by cmp x ys) (x ∷ ys)
  unfolding insert_by
  Perm-insert_by x [] = Perm.refl _
  Perm-insert_by x (y ∷ ys) = split (cmp x y) refl (Perm-insert_by x ys)
    where
      split :
          (o : Ordering)
          → cmp x y ≡ o
          → Perm (insert_by cmp x ys) (x ∷ ys)
          → Perm (insert_by cmp x (y ∷ ys)) (x ∷ y ∷ ys)
      split lt e p = rw (e, insert_by) (Perm.refl _)
      split eq e p = rw (e, insert_by) (Perm.refl _)
      split gt e p = rw (e, insert_by) (Perm.trans (Perm.cons y p) (Perm.swap x y ys))

  length-insert_by : (x : A) (xs : List A) → length (insert_by cmp x xs) ≡ suc (length xs)
  unfolding insert_by
  length-insert_by x [] = refl
  length-insert_by x (y ∷ xs) = ground (arith, length-insert_by x xs)

  pub length-sort_by : (xs : List A) → length (sort_by cmp xs) ≡ length xs
  unfolding sort_by
  length-sort_by [] = refl
  length-sort_by (x ∷ xs) = length-insert_by x (sort_by cmp xs) ∙ ap suc (length-sort_by xs)

  pub Perm-sort_by : (xs : List A) → Perm (sort_by cmp xs) xs
  unfolding sort_by
  Perm-sort_by [] = Perm.refl _
  Perm-sort_by (x ∷ xs) =
      Perm.trans (Perm-insert_by x (sort_by cmp xs)) (Perm.cons x (Perm-sort_by xs))

module _ {ℓ} {A : Type ℓ} {cmp : A → A → Ordering} (law : IsLawful cmp) (sep : Separates cmp) where
  insert_by_comm :
      (x y : A) (zs : List A)
      → insert_by cmp x (insert_by cmp y zs) ≡ insert_by cmp y (insert_by cmp x zs)
  unfolding insert_by
  insert_by_comm x y [] = ground (arith, law.swaps x y, sep x y)
  insert_by_comm x y (z ∷ zs) = ground (
    arith,
    law.swaps x y,
    sep x y,
    insert_by_comm x y zs,
    law.lt_trans x y z,
    law.eq_left x y z,
    law.lt_trans y x z,
    law.eq_left y x z,
    law.swaps x z,
    law.swaps y z,
    law.lt_trans y z x,
    law.lt_trans x z y,
    law.eq_left x z y,
    law.eq_left y z x,
  )

  sort_by-Permᴰ : {xs ys : List A} → Permᴰ xs ys → sort_by cmp xs ≡ sort_by cmp ys
  unfolding sort_by
  sort_by-Permᴰ Permᴰ.nil = refl
  sort_by-Permᴰ (Permᴰ.cons e p) = ap₂ (insert_by cmp) e (sort_by-Permᴰ p)
  sort_by-Permᴰ (Permᴰ.swap {a = a} {b = b} {l = l} p q) =
      insert_by_comm a b (sort_by cmp l)
      ∙ ap₂ (λ x y. insert_by cmp x (insert_by cmp y (sort_by cmp l))) q p
  sort_by-Permᴰ (Permᴰ.trans p q) = sort_by-Permᴰ p ∙ sort_by-Permᴰ q

  -- Where equal means equal, sorting forgets the order of its input.
  pub sort_by-Perm : Discrete A → {xs ys : List A} → Perm xs ys → sort_by cmp xs ≡ sort_by cmp ys
  sort_by-Perm d p = ∥∥₁_elim p (hedberg (list_discrete d) _ _) sort_by-Permᴰ

module _ {ℓ} {A : Type ℓ} ⦃e : Eq A⦄ where
  Mem_of_contains : (a : A) (xs : List A) → contains xs a ≡ true → Mem a xs
  unfolding contains
  Mem_of_contains a [] h = cc
  Mem_of_contains a (x ∷ xs) h = elim (eq-cases a x) [
    | inl c ↦ mem-cons.1 (Or.inl c.1)
    | inr c ↦ mem-cons.1 (Or.inr (Mem_of_contains a xs (rw c.0 at h)))
  ]

  contains_of_Mem : (a : A) (xs : List A) → Mem a xs → contains xs a ≡ true
  unfolding contains
  contains_of_Mem a [] h = absurd (not-mem-nil h)
  contains_of_Mem a (x ∷ xs) h =
      Or.elim (hedberg bool_discrete _ _) (mem-cons.0 h) (λ p. rw (≡→eq a x p))
        (λ m. ground (arith, contains_of_Mem a xs m))

  -- No element twice.
  abbrev pub IsDistinct : List A → Type 0
  IsDistinct [] = Unit
  IsDistinct (x ∷ xs) = (contains xs x ≡ false) × IsDistinct xs

  Nodup-of_IsDistinct : (xs : List A) → IsDistinct xs → Nodup xs
  Nodup-of_IsDistinct [] h = Nodup-nil
  Nodup-of_IsDistinct (x ∷ xs) h =
      Nodup-cons.1
        ((λ m. false≢true (sym h.0 ∙ contains_of_Mem x xs m)), Nodup-of_IsDistinct xs h.1)

  pub Perm_of_contains :
      (xs ys : List A)
      → IsDistinct xs
      → IsDistinct ys
      → ((a : A) → contains xs a ≡ contains ys a)
      → Perm xs ys
  Perm_of_contains xs ys dx dy h =
      (perm_ext_iff_of_Nodup (Nodup-of_IsDistinct xs dx) (Nodup-of_IsDistinct ys dy)).1 λ a. (
        (λ m. Mem_of_contains a ys (sym (h a) ∙ contains_of_Mem a xs m)),
        (λ m. Mem_of_contains a xs (h a ∙ contains_of_Mem a ys m)),
      )

-- In ascending order; equal neighbours are allowed.
abbrev pub All {ℓ κ} : {A : Type ℓ} → (A → Type κ) → List A → Type κ
All P [] = Unit
All P (x ∷ xs) = P x × All P xs

pub All-imp {ℓ κ μ} :
    {A : Type ℓ} {P : A → Type κ} {Q : A → Type μ}
    → ((x : A) → P x → Q x)
    → (xs : List A) → All P xs
    → All Q xs
All-imp f [] a = tt
All-imp f (x ∷ xs) a = (f x a.0, All-imp f xs a.1)

abbrev pub IsSorted {ℓ} : {A : Type ℓ} → (A → A → Ordering) → List A → Type 0
IsSorted cmp [] = Unit
IsSorted cmp (x ∷ xs) = All (λ y. cmp x y ≢ gt) xs × IsSorted cmp xs

module _ {ℓ} {A : Type ℓ} {cmp : A → A → Ordering} (law : IsLawful cmp) where
  All-trans :
      (x y : A) (zs : List A)
      → cmp x y ≢ gt
      → All (λ z. cmp y z ≢ gt) zs
      → All (λ z. cmp x z ≢ gt) zs
  All-trans x y [] h a = tt
  All-trans x y (z ∷ zs) h a = (
    ground (
      arith,
      law.lt_trans x y z,
      law.eq_left x y z,
      law.eq_left z y x,
      law.swaps y z,
      law.swaps x z,
      law.swaps x y,
      law.eq_left y z x,
    ),
    All-trans x y zs h a.1,
  )

  All-insert_by :
      (P : A → Type 0) (x : A) (ys : List A) → P x → All P ys → All P (insert_by cmp x ys)
  unfolding insert_by
  All-insert_by P x [] p a = (p, tt)
  All-insert_by P x (y ∷ ys) p a = split (cmp x y) (All-insert_by P x ys p a.1)
    where
      split :
          (o : Ordering)
          → All P (insert_by cmp x ys)
          → All P (elim o [ gt ↦ y ∷ insert_by cmp x ys | _ ↦ x ∷ y ∷ ys ])
      split lt r = (p, a)
      split eq r = (p, a)
      split gt r = (a.0, r)

  IsSorted-insert_by : (x : A) (ys : List A) → IsSorted cmp ys → IsSorted cmp (insert_by cmp x ys)
  unfolding insert_by
  IsSorted-insert_by x [] s = (tt, tt)
  IsSorted-insert_by x (y ∷ ys) s = split (cmp x y) refl (IsSorted-insert_by x ys s.1)
    where
      split :
          (o : Ordering)
          → cmp x y ≡ o
          → IsSorted cmp (insert_by cmp x ys)
          → IsSorted cmp (elim o [ gt ↦ y ∷ insert_by cmp x ys | _ ↦ x ∷ y ∷ ys ])
      split lt h r = ((ground arith, All-trans x y ys (ground arith) s.0), s)
      split eq h r = ((ground arith, All-trans x y ys (ground arith) s.0), s)
      split gt h r = (All-insert_by _ x ys (ground (arith, law.swaps x y)) s.0, r)

  pub IsSorted-sort_by : (xs : List A) → IsSorted cmp (sort_by cmp xs)
  unfolding sort_by
  IsSorted-sort_by [] = tt
  IsSorted-sort_by (x ∷ xs) = IsSorted-insert_by x (sort_by cmp xs) (IsSorted-sort_by xs)

  pub All-sort_by : (P : A → Type 0) (xs : List A) → All P xs → All P (sort_by cmp xs)
  unfolding sort_by
  All-sort_by P [] a = tt
  All-sort_by P (x ∷ xs) a = All-insert_by P x (sort_by cmp xs) a.0 (All-sort_by P xs a.1)
