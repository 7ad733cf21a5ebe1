-- ===== src/Sync/Names/Alias.antt =====
-- Owner-qualified aliases (crates/denju-sync/src/lib.rs). A name is the list of the bytes of its UTF-8,
-- which the source loops over, compares and truncates.
use denju.Base.{
  ℕ, zero, suc, ◌+◌, ◌-◌, ◌*◌, ◌/◌, ◌%◌, ◌^◌, Bool, false, not, ◌&&◌, ◌||◌, Option, none, some,
}
use denju.Base.{
  List, [], ◌∷◌, ◌++◌, if◌then◌else◌, leb, ltb, nat_eq, ◌==◌, text_Eq, contains, length, take,
}
use denju.Base.{Text, lit}
use mathlib.Core.List.{reverse}

pub record ManagedSkillName : Type 0 where
  pub resource_id : Text
  pub owner : Text
  pub skill_name : Text
  pub previous_harness_name : Option Text

abbrev pub is_alnum : ℕ → Bool
is_alnum b = leb b'a' b && leb b b'z' || leb b'0' b && leb b b'9'

-- The loop of `sanitize_component`, which pushes onto `output`.
unfoldable pub sanitize_loop : Text → Bool → List ℕ → Text
sanitize_loop output pending [] = output
sanitize_loop output pending (b ∷ bytes) =
    sanitize_loop
      (if is_alnum b
        then (if pending && not (output == []) then output ++ (b'-' ∷ b ∷ []) else output ++ b ∷ [])
        else output)
      (not (is_alnum b)) bytes

unfoldable pub sanitize_component : Text → Text
sanitize_component value =
    let output = sanitize_loop [] false value in if output == [] then lit "owner" else output

-- `{index}`: decimal digits, on fuel above the number of digits.
unfoldable pub digits : ℕ → ℕ → Text
digits zero n = []
digits (suc fuel) n =
    let front = digits fuel (n / 10) in (if ltb n 10 then [] else front) ++ (b'0' + n % 10) ∷ []

unfoldable pub decimal : ℕ → Text
decimal n = digits (suc n) n

unfoldable pub drop_hyphens : Text → Text
drop_hyphens [] = []
drop_hyphens (c ∷ s) = if nat_eq c b'-' then drop_hyphens s else c ∷ s

-- `trim_matches('-')`
unfoldable pub trim_hyphens : Text → Text
unfolding drop_hyphens
trim_hyphens s = reverse (drop_hyphens (reverse (drop_hyphens s)))

unfoldable pub alias_suffix : ℕ → Text
alias_suffix index = if nat_eq index 1 then [] else b'-' ∷ decimal index

-- `truncate` counts bytes, as `take` does here. It panics where it would cut a character in two, which is not
-- modelled: a name of ASCII, as validated skill names are, has no such place.
unfoldable pub collision_alias_at : ManagedSkillName → ℕ → Text
collision_alias_at skill index =
    let raw = sanitize_component skill.owner ++ (b'-' ∷ skill.skill_name) in
    let suffix = alias_suffix index in
    let base = trim_hyphens (take (64 - length suffix) raw) in
    (if base == [] then lit "skill" else base) ++ suffix

-- The search `for index in 1_u64..`, over as many rounds as the fuel.
unfoldable pub collision_alias_from : ManagedSkillName → List Text → ℕ → ℕ → Option Text
collision_alias_from skill used zero index = none
collision_alias_from skill used (suc fuel) index =
    let later = collision_alias_from skill used fuel (index + 1) in
    let candidate = collision_alias_at skill index in
    if contains used candidate then later else some candidate

-- `rsplit_once('-')`, the part after the hyphen.
unfoldable pub after_last_hyphen : Text → Option Text
after_last_hyphen [] = none
after_last_hyphen (c ∷ s) = elim (after_last_hyphen s) [
  | some suffix ↦ some suffix
  | none ↦ if nat_eq c b'-' then some s else none
]

unfoldable pub parse_digits : ℕ → Text → Option ℕ
parse_digits n [] = some n
parse_digits n (c ∷ s) =
    let next = n * 10 + (c - b'0') in
    let rest = parse_digits next s in
    if leb b'0' c && leb c b'9' && ltb next (2 ^ 64) then rest else none

-- `str::parse::<u64>`: a sign `+` is allowed.
unfoldable pub parse_u64 : Text → Option ℕ
unfolding parse_digits
parse_u64 [] = none
parse_u64 (c ∷ []) = if nat_eq c b'+' then none else parse_digits 0 (c ∷ [])
parse_u64 (c ∷ d ∷ s) = parse_digits 0 (if nat_eq c b'+' then d ∷ s else c ∷ d ∷ s)

unfoldable pub is_numbered_alias : ManagedSkillName → Text → Option ℕ → Bool
is_numbered_alias skill candidate none = false
is_numbered_alias skill candidate (some index) =
    leb 2 index && candidate == collision_alias_at skill index

unfoldable pub valid_collision_alias : ManagedSkillName → Text → Bool
valid_collision_alias skill candidate =
    candidate == collision_alias_at skill 1 || elim (after_last_hyphen candidate) [
      | none ↦ false
      | some suffix ↦ is_numbered_alias skill candidate (parse_u64 suffix)
    ]
