-- ===== src/Base/Strings/Utf8.antt =====
-- `str::from_utf8`: the decoding of UTF-8, which refuses what is not well formed.
use denju.Base.Tests.{leb, ltb, if◌then◌else◌}
use Prim.Native.Nat.{ℕ, zero, suc, ◌+◌, ◌*◌, ◌-◌, ◌/◌, ◌%◌}
use mathlib.Core.Path.{◌≡◌, refl}
use mathlib.Core.Bool.{Bool, true, false, ◌&&◌}
use mathlib.Core.List.{List, [], ◌∷◌, ◌++◌}
use mathlib.Core.Option
use mathlib.Core.Option.{Option, none, some}

-- How many continuation bytes are due, the bits so far, and the range of the next byte.
record Decoder : Type 0 where
  due : ℕ
  bits : ℕ
  low : ℕ
  high : ℕ

abbrev ready : Decoder
ready = record { due = 0; bits = 0; low = 0x80; high = 0xBF }

-- The first byte of a character: its length, and the bounds that rule out overlong forms,
-- surrogates and values above 0x10FFFF.
lead : ℕ → Option (Decoder × List ℕ)
lead b =
    if ltb b 0x80
    then some (ready, b ∷ [])
    else if ltb b 0xC2
    then none
    else if ltb b 0xE0
    then some (record { due = 1; bits = b - 0xC0; low = 0x80; high = 0xBF }, [])
    else if ltb b 0xE1
    then some (record { due = 2; bits = 0; low = 0xA0; high = 0xBF }, [])
    else if ltb b 0xED
    then some (record { due = 2; bits = b - 0xE0; low = 0x80; high = 0xBF }, [])
    else if ltb b 0xEE
    then some (record { due = 2; bits = 13; low = 0x80; high = 0x9F }, [])
    else if ltb b 0xF0
    then some (record { due = 2; bits = b - 0xE0; low = 0x80; high = 0xBF }, [])
    else if ltb b 0xF1
    then some (record { due = 3; bits = 0; low = 0x90; high = 0xBF }, [])
    else if ltb b 0xF4
    then some (record { due = 3; bits = b - 0xF0; low = 0x80; high = 0xBF }, [])
    else if ltb b 0xF5
    then some (record { due = 3; bits = 4; low = 0x80; high = 0x8F }, [])
    else none

continue : Decoder → ℕ → ℕ → Option (Decoder × List ℕ)
continue d rest b =
    if leb d.low b && leb b d.high
    then (let bits = d.bits * 64 + (b - 0x80) in
        elim rest [
          | zero ↦ some (ready, bits ∷ [])
          | suc n ↦ some (record { due = suc n; bits = bits; low = 0x80; high = 0xBF }, [])
        ])
    else none

step : Decoder → ℕ → ℕ → Option (Decoder × List ℕ)
step d zero b = lead b
step d (suc n) b = continue d n b

finish : ℕ → Option (List ℕ)
finish zero = some []
finish (suc n) = none

decode_from : Decoder → List ℕ → Option (List ℕ)
decode_from d [] = finish d.due
decode_from d (b ∷ bs) = elim (step d d.due b) [
  | none ↦ none
  | some (d', out) ↦ Option.map (λ rest. out ++ rest) (decode_from d' bs)
]

unfoldable pub from_utf8 : List ℕ → Option (List ℕ)
unfolding decode_from step lead continue finish
from_utf8 = decode_from ready

unfoldable pub is_utf8 : List ℕ → Bool
unfolding from_utf8
is_utf8 bytes = elim (from_utf8 bytes) [ none ↦ false | some s ↦ true ]

encode_char : ℕ → List ℕ
encode_char c =
    if ltb c 0x80
    then c ∷ []
    else if ltb c 0x800
    then (0xC0 + c / 64) ∷ (0x80 + c % 64) ∷ []
    else if ltb c 0x10000
    then (0xE0 + c / 4096) ∷ (0x80 + c / 64 % 64) ∷ (0x80 + c % 64) ∷ []
    else (0xF0 + c / 262144) ∷ (0x80 + c / 4096 % 64) ∷ (0x80 + c / 64 % 64) ∷ (0x80 + c % 64) ∷ []

-- `str::as_bytes`
unfoldable pub to_utf8 : List ℕ → List ℕ
unfolding encode_char
to_utf8 [] = []
to_utf8 (c ∷ s) = encode_char c ++ to_utf8 s

euro_sign : from_utf8 (0xE2 ∷ 0x82 ∷ 0xAC ∷ 0x41 ∷ []) ≡ some (0x20AC ∷ 0x41 ∷ [])
unfolding from_utf8
euro_sign = refl

surrogates_are_refused : from_utf8 (0xED ∷ 0xA0 ∷ 0x80 ∷ []) ≡ none
unfolding from_utf8
surrogates_are_refused = refl

round_trip : from_utf8 (to_utf8 (0x1F600 ∷ 0xE9 ∷ [])) ≡ some (0x1F600 ∷ 0xE9 ∷ [])
unfolding from_utf8 to_utf8
round_trip = refl
