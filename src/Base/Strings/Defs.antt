-- ===== src/Base/Strings/Defs.antt =====
-- A `str` is the list of its code points, a `[u8]` the list of its bytes.
use Prim.Native.Nat.{ℕ}
use Prim.Native.Char.{code}
use Prim.Native.String.{String}
use mathlib.Core.Bool.{Bool, true, false, ◌&&◌, ◌||◌}
use mathlib.Core.List.{List, [], ◌∷◌, ◌++◌}
use mathlib.Core.Option.{Option, none, some}
use denju.Base.Tests.{nat_eq, if◌then◌else◌}
use denju.Base.Equality.{text_Eq}

abbrev pub Text : Type 0
Text = List ℕ

abbrev pub Bytes : Type 0
Bytes = List ℕ

-- A literal of the source.
abbrev pub lit : String → Text
lit String.[] = []
lit (String.◌∷◌ c s) = code c ∷ lit s

unfoldable pub push_char : ℕ → ℕ → List Text → List Text
push_char sep c [] = [] ∷ []
push_char sep c (piece ∷ rest) = if nat_eq c sep then [] ∷ piece ∷ rest else (c ∷ piece) ∷ rest

-- `str::split` at one character: at least one piece.
unfoldable pub split_at : ℕ → Text → List Text
unfolding push_char
split_at sep [] = [] ∷ []
split_at sep (c ∷ s) = push_char sep c (split_at sep s)

-- `join`
unfoldable pub join : ℕ → List Text → Text
join sep [] = []
join sep (piece ∷ []) = piece
join sep (piece ∷ next ∷ rest) = piece ++ sep ∷ join sep (next ∷ rest)

unfoldable pub starts_with : Text → Text → Bool
starts_with [] s = true
starts_with (c ∷ p) [] = false
starts_with (c ∷ p) (d ∷ s) = nat_eq c d && starts_with p s

unfoldable pub last : Text → Option ℕ
last [] = none
last (c ∷ []) = some c
last (c ∷ d ∷ s) = last (d ∷ s)

unfoldable pub ends_with_char : ℕ → Text → Bool
unfolding last
ends_with_char c s = elim (last s) [ none ↦ false | some d ↦ nat_eq d c ]

-- `str::strip_prefix`
unfoldable pub strip_prefix : Text → Text → Option Text
strip_prefix [] s = some s
strip_prefix (c ∷ p) [] = none
strip_prefix (c ∷ p) (d ∷ s) = if nat_eq c d then strip_prefix p s else none

-- `str::contains` of one character
unfoldable pub has_char : ℕ → Text → Bool
has_char c [] = false
has_char c (d ∷ s) = nat_eq d c || has_char c s
