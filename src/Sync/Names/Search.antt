-- ===== src/Sync/Names/Search.antt =====
-- The search of `collision_alias` (crates/denju-sync/src/lib.rs) ends at a free alias.
use denju.Base.{ℕ, zero, suc, ◌+◌, ◌^◌, ◌≤◌, ◌<◌, ◌≡◌, ◌≢◌, sym, true, false, arith, inl, inr}
use denju.Base.{
  none, some, List, [], ◌∷◌, if◌then◌else◌, ◌==◌, text_Eq, eq-cases, Bool-cases, Option-cases,
}
use denju.Base.{Text, length, contains, nat_eq}
use denju.Sync.Names.Alias.{
  ManagedSkillName, collision_alias_at, collision_alias_from, valid_collision_alias,
}
use denju.Sync.Names.Decimal.{
  collision_alias_at-injective, valid_collision_alias-collision_alias_at,
}

remove : Text → List Text → List Text
remove a [] = []
remove a (b ∷ bs) = let rest = remove a bs in if a == b then bs else b ∷ rest

length-remove :
    (a : Text) (bs : List Text) → contains bs a ≡ true → suc (length (remove a bs)) ≡ length bs
unfolding remove contains
length-remove a [] h = cc
length-remove a (b ∷ bs) h = ground (arith, length-remove a bs)

contains-remove :
    (a c : Text) (bs : List Text) → c ≢ a → contains bs c ≡ true → contains (remove a bs) c ≡ true
unfolding remove contains
contains-remove a c [] n h = cc
contains-remove a c (b ∷ bs) n h =
    ground (arith, contains-remove a c bs n, eq-cases a b, eq-cases c b)

module _ (skill : ManagedSkillName) where
  abbrev alias : ℕ → Text
  alias = collision_alias_at skill

  -- Used names hold a run of aliases only if there are as many of them.
  run-bound :
      (used : List Text) (i n : ℕ)
      → 2 ≤ i
      → i + n ≤ 2 ^ 64
      → ((k : ℕ) → i ≤ k → k < i + n → contains used (alias k) ≡ true)
      → n ≤ length used
  run-bound used i zero h b all = omega arith
  run-bound used i (suc n) h b all =
      let held = all i (omega arith) (omega arith) in
      let shorter = run-bound (remove (alias i) used) (suc i) n (omega arith) (omega arith) λ k p q.
        contains-remove (alias i) (alias k) used
          (λ e. absurd (
            omega (
              arith,
              collision_alias_at-injective skill k i (omega arith) (omega arith) h (omega arith) e,
            )))
          (all k (omega arith) (omega arith)) in
      omega (arith, length-remove (alias i) used held, shorter)

  search-none :
      (used : List Text) (fuel i k : ℕ)
      → collision_alias_from skill used fuel i ≡ none
      → i ≤ k
      → k < i + fuel
      → contains used (alias k) ≡ true
  unfolding collision_alias_from
  search-none used zero i k e p q = absurd (omega arith)
  search-none used (suc fuel) i k e p q = elim (Bool-cases (contains used (alias i))) [
    | inr free ↦ cc (rw free at e)
    | inl held ↦ elim (Bool-cases (nat_eq i k)) [
      | inl same ↦ let g : i ≡ k = ground arith in rw g at held
      | inr other ↦ search-none used fuel (i + 1) k (rw held at e) (ground arith) (omega arith)
    ]
  ]

  search-some :
      (used : List Text) (fuel i : ℕ) (name : Text)
      → collision_alias_from skill used fuel i ≡ some name
      → (j : ℕ) × (i ≤ j) × (j < i + fuel) × (name ≡ alias j) × (contains used name ≡ false)
  unfolding collision_alias_from
  search-some used zero i name e = cc
  search-some used (suc fuel) i name e = elim (Bool-cases (contains used (alias i))) [
    | inl held ↦
        let (j, p, q, r, free) = search-some used fuel (i + 1) name (rw held at e) in
        (j, omega arith, omega arith, r, free)
    | inr free ↦
        let g : alias i ≡ name = cc (rw free at e) in
        (i, omega arith, omega arith, sym g, rw g at free)
  ]

-- Whatever names are used, the search ends within two rounds more than there are used names. The
-- alias it finds is free, and is one that a later allocation recognises as an alias of the skill.
pub collision_alias_from-IsFree :
    (skill : ManagedSkillName) (used : List Text)
    → length used + 2 < 2 ^ 64
    → (name : Text) × (collision_alias_from skill used (length used + 2) 1 ≡ some name)
      × (contains used name ≡ false)
      × (valid_collision_alias skill name ≡ true)
collision_alias_from-IsFree skill used h =
    elim (Option-cases (collision_alias_from skill used (length used + 2) 1)) [
      | inl e ↦ absurd (
          omega (
            arith,
            run-bound skill used 2 (length used + 1) (omega arith) (omega arith)
                λ k p q. search-none skill used (length used + 2) 1 k e (omega arith) (omega arith),
          ))
      | inr s ↦
          let (j, p, q, r, free) = search-some skill used (length used + 2) 1 s.0 s.1 in
          (s.0, s.1, free, rw r (valid_collision_alias-collision_alias_at skill j p (omega arith)))
    ]
