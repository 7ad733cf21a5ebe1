-- ===== src/Base/Strings/Laws.antt =====
-- Laws of splitting and joining texts.
use Prim.Native.Nat.{ℕ, suc, ◌≤◌}
use mathlib.Core.Path.{◌≡◌, refl, ap, ◌∙◌}
use mathlib.Core.Bool.{false}
use mathlib.Core.List.{List, [], ◌∷◌, ◌++◌}
use mathlib.Core.Option.{some}
use native.Mathlib.Omega.{arith}
use denju.Base.Tests.{nat_eq, if◌then◌else◌}
use denju.Base.Lists.{length}
use denju.Base.Strings.Defs.{Text, push_char, split_at, join, has_char, strip_prefix}

push_char-join :
    (sep c : ℕ) (pieces : List Text)
    → 1 ≤ length pieces
    → join sep (push_char sep c pieces) ≡ c ∷ join sep pieces
unfolding push_char join
push_char-join sep c [] h = absurd (omega arith)
push_char-join sep c (piece ∷ []) h = ground arith
push_char-join sep c (piece ∷ next ∷ rest) h = ground arith

length-push_char : (sep c : ℕ) (pieces : List Text) → 1 ≤ length (push_char sep c pieces)
unfolding push_char
length-push_char sep c [] = omega arith
length-push_char sep c (piece ∷ rest) = ground arith

pub length-split_at : (sep : ℕ) (s : Text) → 1 ≤ length (split_at sep s)
unfolding split_at
length-split_at sep [] = omega arith
length-split_at sep (c ∷ s) = length-push_char sep c (split_at sep s)

-- The pieces, joined again, are the text.
pub join-split_at : (sep : ℕ) (s : Text) → join sep (split_at sep s) ≡ s
unfolding split_at join
join-split_at sep [] = refl
join-split_at sep (c ∷ s) =
    push_char-join sep c (split_at sep s) (length-split_at sep s)
    ∙ ap (λ (t : Text). c ∷ t) (join-split_at sep s)

pub split_at-whole : (sep : ℕ) (s : Text) → has_char sep s ≡ false → split_at sep s ≡ s ∷ []
unfolding split_at has_char push_char
split_at-whole sep [] h = refl
split_at-whole sep (c ∷ s) h = rw (split_at-whole sep s (ground arith)) (ground arith)

push_char_sep : (sep : ℕ) (ps : List Text) → 1 ≤ length ps → push_char sep sep ps ≡ [] ∷ ps
unfolding push_char
push_char_sep sep [] h = absurd (omega arith)
push_char_sep sep (p ∷ ps) h = ground arith

pub split_at-append :
    (sep : ℕ) (s t : Text)
    → has_char sep s ≡ false
    → split_at sep (s ++ sep ∷ t) ≡ s ∷ split_at sep t
unfolding has_char split_at push_char
split_at-append sep [] t h = push_char_sep sep (split_at sep t) (length-split_at sep t)
split_at-append sep (c ∷ s) t h = rw (split_at-append sep s t (ground arith)) (ground arith)

length-push_char_eq :
    (sep c : ℕ) (ps : List Text)
    → 1 ≤ length ps
    → length (push_char sep c ps) ≡ (if nat_eq c sep then suc (length ps) else length ps)
unfolding push_char
length-push_char_eq sep c [] h = absurd (omega arith)
length-push_char_eq sep c (p ∷ ps) h = ground arith

-- One piece means that the separator does not occur.
pub has_char_of_length : (sep : ℕ) (s : Text) → length (split_at sep s) ≡ 1 → has_char sep s ≡ false
unfolding has_char split_at
has_char_of_length sep [] h = refl
has_char_of_length sep (c ∷ s) h = ground (
  arith,
  length-push_char_eq sep c (split_at sep s),
  length-split_at sep s,
  has_char_of_length sep s,
)

pub strip_prefix-append : (p s rest : Text) → strip_prefix p s ≡ some rest → s ≡ p ++ rest
unfolding strip_prefix
strip_prefix-append [] s rest h = ground arith
strip_prefix-append (c ∷ p) [] rest h = cc
strip_prefix-append (c ∷ p) (d ∷ s) rest h = ground (arith, strip_prefix-append p s rest)

pub strip_prefix_self : (p s : Text) → strip_prefix p (p ++ s) ≡ some s
unfolding strip_prefix
strip_prefix_self [] s = refl
strip_prefix_self (c ∷ p) s = ground (arith, strip_prefix_self p s)
