-- ===== src/Core/Skill/Frontmatter.antt =====
-- `split_frontmatter` (crates/denju-core/src/skill.rs), over the UTF-8 bytes of the source.
use denju.Base.{ℕ, suc, ◌+◌, ◌-◌, Bool, not, ◌&&◌, ◌||◌, Option, none, some, List, [], ◌∷◌}
use denju.Base.{
  if◌then◌else◌, nat_eq, leb, ◌==◌, text_Eq, slice, drop, length, starts_with, Bytes, lit,
}
use denju.Base.{Result, ok, err, ◌>>=◌, ok_or}
use denju.Core.Merge.{lines}
use denju.Core.Skill.Name.{SkillValidationError, missing_frontmatter}

abbrev is_line_end : ℕ → Bool
is_line_end b = nat_eq b b'\r' || nat_eq b b'\n'

-- `trim_end_matches(['\r', '\n'])`
unfoldable pub trim_line_end : Bytes → Bytes
trim_line_end [] = []
trim_line_end (b ∷ rest) =
    let tail = trim_line_end rest in if is_line_end b && tail == [] then [] else b ∷ tail

abbrev pub marker : Bytes
marker = lit "---"

abbrev pub is_marker : Bytes → Bool
is_marker line = trim_line_end line == marker

-- The loop over the lines after the first: where the closing marker starts and ends.
unfoldable pub find_marker : List Bytes → ℕ → Option (ℕ × ℕ)
find_marker [] offset = none
find_marker (line ∷ rest) offset =
    let later = find_marker rest (offset + length line) in
    if is_marker line then some (offset, offset + length line) else later

-- `ends_with`
unfoldable pub ends_with : Bytes → Bytes → Bool
ends_with suffix s = leb (length suffix) (length s) && drop (length s - length suffix) s == suffix

-- `rfind`: where the last occurrence starts.
unfoldable pub rfind : Bytes → Bytes → ℕ → Option ℕ
rfind part [] at = if starts_with part [] then some at else none
rfind part (b ∷ rest) at = elim (rfind part rest (suc at)) [
  | some later ↦ some later
  | none ↦ if starts_with part (b ∷ rest) then some at else none
]

-- The branch after the loop, for a marker that ends the source.
unfoldable pub last_marker : Bytes → ℕ → Result SkillValidationError (Bytes × ℕ)
last_marker source start =
    if ends_with (b'\n' ∷ marker) (drop start source)
      || ends_with (b'\r' ∷ b'\n' ∷ marker) (drop start source)
    then (do
      marker_start ← ok_or (rfind marker source 0) missing_frontmatter
      ok (slice source start marker_start, length source))
    else err missing_frontmatter

unfoldable pub close_frontmatter :
    Bytes → ℕ → Option (ℕ × ℕ) → Result SkillValidationError (Bytes × ℕ)
close_frontmatter source start (some (line_start, offset)) =
    ok (slice source start line_start, offset)
close_frontmatter source start none = last_marker source start

unfoldable pub open_frontmatter : Bytes → List Bytes → Result SkillValidationError (Bytes × ℕ)
open_frontmatter source [] = err missing_frontmatter
open_frontmatter source (first ∷ rest) =
    if not (is_marker first)
    then err missing_frontmatter
    else close_frontmatter source (length first) (find_marker rest (length first))

-- The YAML between the markers, and the offset of the body.
unfoldable pub split_frontmatter : Bytes → Result SkillValidationError (Bytes × ℕ)
unfolding open_frontmatter close_frontmatter
split_frontmatter source = open_frontmatter source (lines source)
