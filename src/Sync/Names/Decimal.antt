-- ===== src/Sync/Names/Decimal.antt =====
-- Decimal suffixes are read back (crates/denju-sync/src/lib.rs).
use denju.Base.{
  ℕ, zero, suc, ◌+◌, ◌*◌, ◌-◌, ◌/◌, ◌%◌, ◌^◌, ◌≤◌, ◌<◌, ◌≡◌, refl, ◌∙◌, Bool, true, ◌&&◌, arith,
  none, some,
}
use denju.Base.{[], ◌∷◌, ◌++◌, leb, nat_eq, text_Eq, all, length, Text}
use denju.Base.{eq_refl, length-append, Bool-cases, inl, inr}
use denju.Sync.Names.Alias.{
  ManagedSkillName, digits, decimal, after_last_hyphen, parse_u64, parse_digits, collision_alias_at,
  alias_suffix, is_numbered_alias, valid_collision_alias,
}

abbrev is_digit : ℕ → Bool
is_digit c = leb b'0' c && leb c b'9'

all-append : (p : ℕ → Bool) (s t : Text) → all p (s ++ t) ≡ (all p s && all p t)
unfolding all
all-append p [] t = refl
all-append p (c ∷ s) t = ground (arith, all-append p s t)

digits-all : (fuel n : ℕ) → all is_digit (digits fuel n) ≡ true
unfolding digits all
digits-all zero n = refl
digits-all (suc fuel) n = ground (
  arith,
  digits-all fuel (n / 10),
  all-append is_digit (digits fuel (n / 10)) ((b'0' + n % 10) ∷ []),
)

length-digits : (fuel n : ℕ) → 1 ≤ length (digits (suc fuel) n)
unfolding digits
length-digits fuel n = ground (arith, length-append (digits fuel (n / 10)) ((b'0' + n % 10) ∷ []))

parse_digits-append :
    (n : ℕ) (s t : Text)
    → parse_digits n (s ++ t) ≡ elim (parse_digits n s) [ none ↦ none | some m ↦ parse_digits m t ]
unfolding parse_digits
parse_digits-append n [] t = refl
parse_digits-append n (c ∷ s) t = ground (arith, parse_digits-append (n * 10 + (c - b'0')) s t)

parse_digits-digits : (fuel n : ℕ) → n < fuel → n < 2 ^ 64 → parse_digits 0 (digits fuel n) ≡ some n
unfolding digits parse_digits
parse_digits-digits zero n h k = absurd (omega arith)
parse_digits-digits (suc fuel) n h k = ground (
  arith,
  parse_digits-digits fuel (n / 10),
  parse_digits-append 0 (digits fuel (n / 10)) ((b'0' + n % 10) ∷ []),
)

parse_u64-digits :
    (s : Text) → 1 ≤ length s → all is_digit s ≡ true → parse_u64 s ≡ parse_digits 0 s
unfolding parse_u64 all
parse_u64-digits [] h a = absurd (omega arith)
parse_u64-digits (c ∷ []) h a = ground arith
parse_u64-digits (c ∷ d ∷ s) h a = ground arith

after_last_hyphen-digits : (s : Text) → all is_digit s ≡ true → after_last_hyphen s ≡ none
unfolding after_last_hyphen all
after_last_hyphen-digits [] a = refl
after_last_hyphen-digits (c ∷ s) a = ground (arith, after_last_hyphen-digits s (ground arith))

pub after_last_hyphen-append :
    (b s : Text) → all is_digit s ≡ true → after_last_hyphen (b ++ (b'-' ∷ s)) ≡ some s
unfolding after_last_hyphen
after_last_hyphen-append [] s a = rw (after_last_hyphen-digits s a)
after_last_hyphen-append (c ∷ b) s a = rw (after_last_hyphen-append b s a)

parse_u64-decimal : (i : ℕ) → i < 2 ^ 64 → parse_u64 (decimal i) ≡ some i
unfolding decimal
parse_u64-decimal i k =
    parse_u64-digits (decimal i) (length-digits i i) (digits-all (suc i) i)
    ∙ parse_digits-digits (suc i) i (omega arith) k

-- The number at the end of an alias from the second on.
pub after_last_hyphen-alias :
    (skill : ManagedSkillName) (i : ℕ)
    → 2 ≤ i
    → after_last_hyphen (collision_alias_at skill i) ≡ some (decimal i)
unfolding collision_alias_at decimal
after_last_hyphen-alias skill i h =
    let e : alias_suffix i ≡ b'-' ∷ decimal i = unfold alias_suffix in ground arith in
    rw e (after_last_hyphen-append _ (decimal i) (digits-all (suc i) i))

pub valid_collision_alias-collision_alias_at :
    (skill : ManagedSkillName) (i : ℕ)
    → 1 ≤ i
    → i < 2 ^ 64
    → valid_collision_alias skill (collision_alias_at skill i) ≡ true
unfolding valid_collision_alias is_numbered_alias
valid_collision_alias-collision_alias_at skill i h k = elim (Bool-cases (nat_eq i 1)) [
  | inl first ↦ let e : i ≡ 1 = ground arith in rw (e, eq_refl (collision_alias_at skill 1)) refl
  | inr later ↦
      rw
        (
          after_last_hyphen-alias skill i (ground arith),
          parse_u64-decimal i k,
          eq_refl (collision_alias_at skill i),
        )
        (ground arith)
]

-- Aliases of two numbers from 2 on differ.
pub collision_alias_at-injective :
    (skill : ManagedSkillName) (i j : ℕ)
    → 2 ≤ i
    → i < 2 ^ 64
    → 2 ≤ j
    → j < 2 ^ 64
    → collision_alias_at skill i ≡ collision_alias_at skill j
    → i ≡ j
collision_alias_at-injective skill i j h k l m e = cc (
  after_last_hyphen-alias skill i h,
  after_last_hyphen-alias skill j l,
  parse_u64-decimal i k,
  parse_u64-decimal j m,
)
