-- ===== src/Base/Order/Defs.antt =====
-- Comparison functions (`Ord::cmp`, `Ordering::then_with`) and the stable `sort_by`.
use Prim.Native.Nat.{ℕ, compare}
use Prim.Native.Nat.Ordering.{lt, eq, gt}
use mathlib.Core.Bool.{Bool, true, false}
use mathlib.Core.List.{List, [], ◌∷◌}
pub use Prim.Native.Nat.{Ordering}

abbrev pub flip : Ordering → Ordering
flip lt = gt
flip eq = eq
flip gt = lt

-- `Ordering::then_with`
abbrev pub then_with : Ordering → Ordering → Ordering
then_with lt o = lt
then_with eq o = o
then_with gt o = gt

abbrev pub not_gt : Ordering → Bool
not_gt gt = false
not_gt _ = true

-- The order of slices, element by element, a proper prefix first.
unfoldable pub list_cmp {ℓ} : {A : Type ℓ} → (A → A → Ordering) → List A → List A → Ordering
list_cmp cmp [] [] = eq
list_cmp cmp [] (y ∷ ys) = lt
list_cmp cmp (x ∷ xs) [] = gt
list_cmp cmp (x ∷ xs) (y ∷ ys) = then_with (cmp x y) (list_cmp cmp xs ys)

-- The order of texts. On code points it is the order of the UTF-8 bytes, by the design of UTF-8.
abbrev pub text_cmp : List ℕ → List ℕ → Ordering
text_cmp = list_cmp compare

module _ {ℓ} {A : Type ℓ} (cmp : A → A → Ordering) where
  unfoldable pub insert_by : A → List A → List A
  insert_by x [] = x ∷ []
  insert_by x (y ∷ ys) =
      let rest = insert_by x ys in elim (cmp x y) [ gt ↦ y ∷ rest | _ ↦ x ∷ y ∷ ys ]

  -- `slice::sort_by`, which is stable: of equal elements the first stays first.
  unfoldable pub sort_by : List A → List A
  unfolding insert_by
  sort_by [] = []
  sort_by (x ∷ xs) = insert_by x (sort_by xs)
