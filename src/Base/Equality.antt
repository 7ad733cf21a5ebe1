-- ===== src/Base/Equality.antt =====
-- Decidable equality as an instance: the derived `PartialEq` and `Eq` of the source.
use Prim.Native.Nat.{ℕ}
use mathlib.Core.Path.{◌≡◌, refl}
use mathlib.Core.Logic.{◌≢◌, ◌⊎◌, inl, inr}
use mathlib.Core.Bool.{Bool, true, false, ◌||◌}
use mathlib.Core.List.{List, [], ◌∷◌}
use mathlib.Core.Option.{Option}
use native.Mathlib.Decide.{ℕ_discrete}

pub record Eq {ℓ} (A : Type ℓ) : Type ℓ where
  pub discrete : Discrete A

abbrev pub decided {ℓ} : {P : Type ℓ} → Dec P → Bool
decided (yes p) = true
decided (no p) = false

infix 50 ◌==◌
unfoldable pub ◌==◌ {ℓ} : {A : Type ℓ} ⦃e : Eq A⦄ → A → A → Bool
◌==◌ ⦃e⦄ a b = decided (e.discrete a b)

module _ {ℓ} {A : Type ℓ} ⦃e : Eq A⦄ where
  pub eq-cases : (a b : A) → ((a == b) ≡ true) × (a ≡ b) ⊎ ((a == b) ≡ false) × (a ≢ b)
  unfolding ◌==◌
  eq-cases a b = split (e.discrete a b)
    where
      split : (d : Dec (a ≡ b)) → (decided d ≡ true) × (a ≡ b) ⊎ (decided d ≡ false) × (a ≢ b)
      split (yes p) = inl (refl, p)
      split (no p) = inr (refl, p)

  pub eq→≡ : (a b : A) → (a == b) ≡ true → a ≡ b
  eq→≡ a b h = elim (eq-cases a b) [ inl c ↦ c.1 | inr c ↦ cc (c.0) ]

  pub eq_refl : (a : A) → (a == a) ≡ true
  eq_refl a = elim (eq-cases a a) [ inl c ↦ c.0 | inr c ↦ absurd (c.1 refl) ]

  pub ≡→eq : (a b : A) → a ≡ b → (a == b) ≡ true
  ≡→eq a b h = elim (eq-cases a b) [ inl c ↦ c.0 | inr c ↦ absurd (c.1 h) ]

  pub ≢→eq : (a b : A) → a ≢ b → (a == b) ≡ false
  ≢→eq a b h = elim (eq-cases a b) [ inl c ↦ absurd (h c.1) | inr c ↦ c.0 ]

  pub eq_comm : (a b : A) → (a == b) ≡ (b == a)
  eq_comm a b = elim (eq-cases a b) [
    | inl c ↦ cc (c.0, c.1, eq_refl a)
    | inr c ↦ cc (c.0, ≢→eq b a (λ p. c.1 (cc p)))
  ]

  -- `contains` of a slice or of a set
  unfoldable pub contains : List A → A → Bool
  contains [] a = false
  contains (x ∷ xs) a = a == x || contains xs a

unfoldable pub text_discrete : Discrete (List ℕ)
unfolding ℕ_discrete
text_discrete = hlevel ℕ_discrete

instance abbrev pub text_Eq : Eq (List ℕ)
text_Eq = record { discrete = text_discrete }

instance abbrev pub nat_Eq : Eq ℕ
nat_Eq = record { discrete = ℕ_discrete }

unfoldable pub bool_discrete : Discrete Bool
bool_discrete = hlevel

instance abbrev pub bool_Eq : Eq Bool
bool_Eq = record { discrete = bool_discrete }

unfoldable pub option_discrete {ℓ} : {A : Type ℓ} → Discrete A → Discrete (Option A)
option_discrete d = hlevel d

instance abbrev pub option_Eq {ℓ} : {A : Type ℓ} ⦃e : Eq A⦄ → Eq (Option A)
option_Eq ⦃e⦄ = record { discrete = option_discrete e.discrete }

unfoldable pub list_discrete {ℓ} : {A : Type ℓ} → Discrete A → Discrete (List A)
list_discrete d = hlevel d
