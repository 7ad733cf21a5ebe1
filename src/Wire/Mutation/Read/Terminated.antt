-- ===== src/Wire/Mutation/Read/Terminated.antt =====
-- Texts with a zero byte at their end and nowhere else.
use denju.Base.{◌≡◌, Bool, true, false, [], ◌∷◌, ◌++◌, nat_eq, Bytes}
use denju.Base.{if◌then◌else◌, ◌==◌, text_Eq, eq→≡, sym, Bool-cases, inl, inr}

unfoldable pub is_terminated : Bytes → Bool
is_terminated [] = false
is_terminated (b ∷ s) = if nat_eq b 0 then s == [] else is_terminated s

-- What follows a terminated text can be told from it.
pub append-is_terminated :
    (s t x y : Bytes)
    → is_terminated s ≡ true
    → is_terminated t ≡ true
    → s ++ x ≡ t ++ y
    → (s ≡ t) × (x ≡ y)
unfolding is_terminated
append-is_terminated [] t x y p q e = cc
append-is_terminated (b ∷ s) [] x y p q e = cc
append-is_terminated (b ∷ s) (d ∷ t) x y p q e =
    let same : b ≡ d = cc e in
    let rest : s ++ x ≡ t ++ y = cc e in
    elim (Bool-cases (nat_eq b 0)) [
      | inl c ↦
          let s_ends : s ≡ [] = eq→≡ s [] (rw c at p) in
          let t_ends : t ≡ [] = eq→≡ t [] (rw (sym same, c) at q) in
          (cc (same, s_ends, t_ends), rw (s_ends, t_ends) at rest)
      | inr c ↦
          let (tails, after) =
            append-is_terminated s t x y (rw c at p) (rw (sym same, c) at q) rest in
          (cc (same, tails), after)
    ]
