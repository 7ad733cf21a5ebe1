-- ===== src/Base/Lists.antt =====
-- Lists measured and cut by native numbers, under the library's names.
use Prim.Native.Nat.{ℕ, zero, suc, ◌+◌, ◌-◌, ◌≤◌, min}
use mathlib.Core.Path.{◌≡◌, refl, sym, ap, ◌∙◌}
use mathlib.Core.Bool.{Bool, true, false, ◌||◌, ◌&&◌}
use mathlib.Core.List.{List, [], ◌∷◌, ◌++◌, reverse, reverse-append}
use native.Mathlib.Nat.{zero-add, suc-add}
use native.Mathlib.Omega.{arith}

module _ {ℓ} {A : Type ℓ} where
  abbrev pub length : List A → ℕ
  length [] = 0
  length (x ∷ xs) = suc (length xs)

  abbrev pub take : ℕ → List A → List A
  take zero xs = []
  take (suc n) [] = []
  take (suc n) (x ∷ xs) = x ∷ take n xs

  abbrev pub drop : ℕ → List A → List A
  drop zero xs = xs
  drop (suc n) [] = []
  drop (suc n) (x ∷ xs) = drop n xs

  -- `xs[from..to]`, where the source's bounds check passes.
  unfoldable pub slice : List A → ℕ → ℕ → List A
  slice xs from to = take (to - from) (drop from xs)

  pub take-append-drop : (n : ℕ) (xs : List A) → take n xs ++ drop n xs ≡ xs
  take-append-drop zero xs = refl
  take-append-drop (suc n) [] = refl
  take-append-drop (suc n) (x ∷ xs) = ap (λ (r : List A). x ∷ r) (take-append-drop n xs)

  pub length-append : (xs ys : List A) → length (xs ++ ys) ≡ length xs + length ys
  length-append [] ys = omega arith
  length-append (x ∷ xs) ys = omega (arith, length-append xs ys)

  pub length-take : (n : ℕ) (xs : List A) → length (take n xs) ≡ min n (length xs)
  length-take zero xs = omega arith
  length-take (suc n) [] = omega arith
  length-take (suc n) (x ∷ xs) = omega (arith, length-take n xs)

  take_all : (n : ℕ) (xs : List A) → length xs ≤ n → take n xs ≡ xs
  take_all zero [] h = refl
  take_all zero (x ∷ xs) h = elim h [ ]
  take_all (suc n) [] h = refl
  take_all (suc n) (x ∷ xs) h = ap (λ (r : List A). x ∷ r) (take_all n xs (omega arith))

  take_nil : (n : ℕ) → take n [] ≡ []
  take_nil zero = refl
  take_nil (suc n) = refl

  drop_nil : (n : ℕ) → drop n [] ≡ []
  drop_nil zero = refl
  drop_nil (suc n) = refl

  take_split : (m n : ℕ) (xs : List A) → take (m + n) xs ≡ take m xs ++ take n (drop m xs)
  take_split zero n xs = rw zero-add
  take_split (suc m) n [] = rw (take_nil, take_nil)
  take_split (suc m) n (x ∷ xs) = rw suc-add (ap (λ (r : List A). x ∷ r) (take_split m n xs))

  drop-drop : (m n : ℕ) (xs : List A) → drop n (drop m xs) ≡ drop (m + n) xs
  drop-drop zero n xs = rw zero-add
  drop-drop (suc m) n [] = rw (drop_nil, drop_nil)
  drop-drop (suc m) n (x ∷ xs) = rw suc-add (drop-drop m n xs)

  pub slice-append :
      (xs : List A) (i j k : ℕ) → i ≤ j → j ≤ k → slice xs i j ++ slice xs j k ≡ slice xs i k
  unfolding slice
  slice-append xs i j k h l =
      let g : j ≡ i + (j - i) = omega arith in
      let d : drop j xs ≡ drop (j - i) (drop i xs) =
        ap (λ n. drop n xs) g ∙ sym (drop-drop i (j - i) xs) in
      let e : k - i ≡ j - i + (k - j) = omega arith in
      rw (d, e) (sym (take_split (j - i) (k - j) (drop i xs)))

  pub slice_empty : (xs : List A) (i : ℕ) → slice xs i i ≡ []
  unfolding slice
  slice_empty xs i = let e : i - i ≡ 0 = omega arith in rw e

  pub slice_all : (xs : List A) → slice xs 0 (length xs) ≡ xs
  unfolding slice
  slice_all xs = take_all (length xs - 0) xs (omega arith)

  pub take-slice : (n : ℕ) (xs : List A) → take n xs ≡ slice xs 0 n
  unfolding slice
  take-slice n xs = let e : n - 0 ≡ n = omega arith in rw e

  unfoldable pub any : (A → Bool) → List A → Bool
  any p [] = false
  any p (x ∷ xs) = p x || any p xs

  unfoldable pub all : (A → Bool) → List A → Bool
  all p [] = true
  all p (x ∷ xs) = p x && all p xs

module _ {ℓ} {A : Type ℓ} where
  drop_all : (xs : List A) → drop (length xs) xs ≡ []
  drop_all [] = refl
  drop_all (x ∷ xs) = drop_all xs

  -- `xs[from..]` is `xs[from..xs.len()]`.
  pub drop-slice : (from : ℕ) (xs : List A) → drop from xs ≡ slice xs from (length xs)
  unfolding slice
  drop-slice from xs = sym (take_all _ (drop from xs) (drop_bound from xs))
    where
      drop_bound : (n : ℕ) (ys : List A) → length (drop n ys) ≤ length ys - n
      drop_bound zero ys = omega arith
      drop_bound (suc n) [] = omega arith
      drop_bound (suc n) (y ∷ ys) = omega (arith, drop_bound n ys)

  pub length-reverse : (xs : List A) → length (reverse xs) ≡ length xs
  length-reverse [] = refl
  length-reverse (x ∷ xs) =
      ap length (reverse-append (x ∷ []) xs)
      ∙ omega (arith, length-append (reverse xs) (x ∷ []), length-reverse xs)

-- Parts of the same length are told apart from what follows.
pub append_injective {ℓ} :
    {A : Type ℓ} (xs ys us vs : List A)
    → length xs ≡ length ys
    → xs ++ us ≡ ys ++ vs
    → (xs ≡ ys) × (us ≡ vs)
append_injective [] [] us vs h e = (refl, e)
append_injective [] (y ∷ ys) us vs h e = absurd (omega arith)
append_injective (x ∷ xs) [] us vs h e = absurd (omega arith)
append_injective (x ∷ xs) (y ∷ ys) us vs h e = ground (arith, append_injective xs ys us vs)
