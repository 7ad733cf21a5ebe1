-- ===== src/Base/Strings/Map.antt =====
-- `BTreeMap<String, V>` and `BTreeSet<String>`: lists in ascending key order.
use Prim.Native.Nat.{ℕ}
use Prim.Native.Nat.Ordering.{lt, eq, gt}
use mathlib.Core.Path.{◌≡◌, refl, ap₂, ◌∙◌}
use mathlib.Core.Bool.{◌||◌}
use mathlib.Core.List.{List, [], ◌∷◌, map, Perm, Permᴰ}
use mathlib.Core.Option.{Option, none, some}
use mathlib.Core.HLevel.{hedberg}
use mathlib.Core.Logic.{∥∥₁_elim}
use native.Mathlib.Omega.{arith}
use denju.Base.Tests.{if◌then◌else◌}
use denju.Base.Equality.{◌==◌, text_Eq, text_discrete, list_discrete, contains, eq-cases}
use denju.Base.Order.{text_cmp, text_cmp-IsLawful, text_cmp-Separates}

text_cmp_self : (k : List ℕ) → text_cmp k k ≡ eq
text_cmp_self k = ground (arith, text_cmp-IsLawful.swaps k k)

abbrev pub Map {ℓ} : Type ℓ → Type ℓ
Map V = List (List ℕ × V)

module _ {ℓ} {V : Type ℓ} where
  unfoldable pub get : List ℕ → Map V → Option V
  get k [] = none
  get k ((j, v) ∷ m) = if k == j then some v else get k m

  -- The old value of a present key is replaced.
  unfoldable pub insert : List ℕ → V → Map V → Map V
  insert k v [] = (k, v) ∷ []
  insert k v ((j, w) ∷ m) =
      let rest = insert k v m in
      elim (text_cmp k j) [ lt ↦ (k, v) ∷ (j, w) ∷ m | eq ↦ (k, v) ∷ m | gt ↦ (j, w) ∷ rest ]

  unfoldable pub keys : Map V → List (List ℕ)
  keys = map (λ (k, v). k)

  pub get-insert :
      (j k : List ℕ) (v : V) (m : Map V)
      → get j (insert k v m) ≡ (if j == k then some v else get j m)
  unfolding get insert
  get-insert j k v [] = refl
  get-insert j k v ((i, w) ∷ m) = ground (
    arith,
    get-insert j k v m,
    eq-cases j k,
    eq-cases j i,
    text_cmp-Separates k i,
    text_cmp_self k,
  )

-- `BTreeSet::insert`
unfoldable pub set_insert : List ℕ → List (List ℕ) → List (List ℕ)
set_insert k [] = k ∷ []
set_insert k (j ∷ s) =
    let rest = set_insert k s in elim (text_cmp k j) [ lt ↦ k ∷ j ∷ s | eq ↦ j ∷ s | gt ↦ j ∷ rest ]

-- `collect::<BTreeSet<_>>()`
unfoldable pub to_set : List (List ℕ) → List (List ℕ)
unfolding set_insert
to_set [] = []
to_set (k ∷ ks) = set_insert k (to_set ks)

pub contains-set_insert :
    (j k : List ℕ) (s : List (List ℕ)) → contains (set_insert k s) j ≡ (j == k || contains s j)
unfolding set_insert contains
contains-set_insert j k [] = refl
contains-set_insert j k (i ∷ s) =
    ground (arith, contains-set_insert j k s, eq-cases j k, eq-cases j i, text_cmp-Separates k i)

pub contains-to_set : (j : List ℕ) (s : List (List ℕ)) → contains (to_set s) j ≡ contains s j
unfolding to_set contains
contains-to_set j [] = refl
contains-to_set j (k ∷ s) = contains-set_insert j k (to_set s) ∙ rw (contains-to_set j s)

set_insert_comm :
    (j k : List ℕ) (s : List (List ℕ))
    → set_insert j (set_insert k s) ≡ set_insert k (set_insert j s)
unfolding set_insert
set_insert_comm j k [] = ground (arith, text_cmp-IsLawful.swaps j k, text_cmp-Separates j k)
set_insert_comm j k (i ∷ s) = ground (
  arith,
  set_insert_comm j k s,
  text_cmp-IsLawful.swaps j k,
  text_cmp-Separates j k,
  text_cmp-Separates j i,
  text_cmp-Separates k i,
  text_cmp-IsLawful.lt_trans j k i,
  text_cmp-IsLawful.lt_trans k j i,
  text_cmp-IsLawful.lt_trans j i k,
  text_cmp-IsLawful.lt_trans k i j,
  text_cmp-IsLawful.swaps j i,
  text_cmp-IsLawful.swaps k i,
)

to_set-Permᴰ : {s t : List (List ℕ)} → Permᴰ s t → to_set s ≡ to_set t
unfolding to_set
to_set-Permᴰ Permᴰ.nil = refl
to_set-Permᴰ (Permᴰ.cons e p) = ap₂ set_insert e (to_set-Permᴰ p)
to_set-Permᴰ (Permᴰ.swap {a = a} {b = b} {l = l} p q) =
    set_insert_comm a b (to_set l) ∙ ap₂ (λ x y. set_insert x (set_insert y (to_set l))) q p
to_set-Permᴰ (Permᴰ.trans p q) = to_set-Permᴰ p ∙ to_set-Permᴰ q

-- A set does not depend on the order in which it was collected.
pub to_set-Perm : {s t : List (List ℕ)} → Perm s t → to_set s ≡ to_set t
to_set-Perm p = ∥∥₁_elim p (hedberg (list_discrete text_discrete) _ _) to_set-Permᴰ
