-- ===== src/Sync/Names/Bounds.antt =====
-- The size of an alias (crates/denju-sync/src/lib.rs).
use mathlib.Core.List.{reverse}
use native.Mathlib.Nat.{pow-suc}
use denju.Base.{ℕ, zero, suc, ◌+◌, ◌-◌, ◌/◌, ◌%◌, ◌^◌, ◌≤◌, ◌<◌, if◌then◌else◌, arith}
use denju.Base.{Text, lit, [], ◌∷◌, ◌++◌, ◌==◌, text_Eq, text_discrete, take, length}
use denju.Base.{length-append, length-take, length-reverse}
use denju.Sync.Names.Alias.{
  ManagedSkillName, digits, decimal, drop_hyphens, trim_hyphens, alias_suffix, sanitize_component,
  collision_alias_at,
}

-- A number below a power of ten has no more digits than the exponent says.
length-digits-power : (k fuel n : ℕ) → n < 10 ^ suc k → length (digits fuel n) ≤ suc k
unfolding digits
length-digits-power k zero n below = omega arith
length-digits-power zero (suc fuel) n below =
    ground (arith, length-append {A = ℕ} [] ((b'0' + n % 10) ∷ []))
length-digits-power (suc k) (suc fuel) n below =
    let tenth : n / 10 < 10 ^ suc k = omega (arith, below, pow-suc 10 (suc k)) in
    ground (
      arith,
      length-digits-power k fuel (n / 10) tenth,
      length-append (digits fuel (n / 10)) ((b'0' + n % 10) ∷ []),
    )

length-drop_hyphens : (s : Text) → length (drop_hyphens s) ≤ length s
unfolding drop_hyphens
length-drop_hyphens [] = omega arith
length-drop_hyphens (c ∷ s) = ground (arith, length-drop_hyphens s)

length-trim_hyphens : (s : Text) → length (trim_hyphens s) ≤ length s
unfolding trim_hyphens
length-trim_hyphens s =
    let front = length-drop_hyphens s in
    let back = length-drop_hyphens (reverse (drop_hyphens s)) in
    let turned = length-reverse (drop_hyphens (reverse (drop_hyphens s))) in
    omega (arith, front, back, turned, length-reverse (drop_hyphens s))

length-alias_suffix : (index : ℕ) → index < 2 ^ 64 → length (alias_suffix index) ≤ 21
unfolding alias_suffix decimal
length-alias_suffix index below =
    ground (arith, length-digits-power 19 (suc index) index (omega (arith, below)))

sized :
    (base suffix : Text)
    → length base ≤ 64 - length suffix
    → length suffix ≤ 21
    → (1 ≤ length ((if base == [] then lit "skill" else base) ++ suffix))
      × (length ((if base == [] then lit "skill" else base) ++ suffix) ≤ 64)
unfolding ◌==◌ text_discrete
sized [] suffix fits short =
    let both = length-append (lit "skill") suffix in
    (omega (arith, both, short), omega (arith, both, short))
sized (c ∷ base) suffix fits short =
    let both = length-append (c ∷ base) suffix in
    (omega (arith, both), omega (arith, both, fits, short))

-- Every alias with an index of 64 bits has from one to 64 bytes.
pub length-collision_alias_at :
    (skill : ManagedSkillName) (index : ℕ)
    → index < 2 ^ 64
    → (1 ≤ length (collision_alias_at skill index)) × (length (collision_alias_at skill index) ≤ 64)
unfolding collision_alias_at
length-collision_alias_at skill index below =
    let suffix = alias_suffix index in
    let raw = sanitize_component skill.owner ++ (b'-' ∷ skill.skill_name) in
    let kept = take (64 - length suffix) raw in
    sized (trim_hyphens kept) suffix
      (omega (arith, length-trim_hyphens kept, length-take (64 - length suffix) raw))
      (length-alias_suffix index below)
