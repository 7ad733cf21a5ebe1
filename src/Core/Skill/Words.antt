-- ===== src/Core/Skill/Words.antt =====
-- A skill name is a row of words joined by single hyphens.
use denju.Base.{ℕ, ◌≤◌, ◌≡◌, refl, sym, Bool, true, false, not, ◌&&◌, arith, List, [], ◌∷◌}
use denju.Base.{
  if◌then◌else◌, nat_eq, leb, text_Eq, length, all, Text, split_at, push_char, starts_with,
  ends_with_char, last,
}
use denju.Base.{length-split_at, ok, err}
use denju.Core.Skill.Name.{
  validate_skill_name, has_double_hyphen, hyphen, is_word_char, is_name_char, invalid_name,
}

first : List Text → Text
first [] = []
first (p ∷ ps) = p

later : List Text → List Text
later [] = []
later (p ∷ ps) = ps

abbrev filled : Text → Bool
filled [] = false
filled (c ∷ s) = true

first-push_char :
    (c : ℕ) (ps : List Text)
    → 1 ≤ length ps
    → first (push_char hyphen c ps) ≡ (if nat_eq c hyphen then [] else c ∷ first ps)
unfolding push_char first
first-push_char c [] h = absurd (omega arith)
first-push_char c (p ∷ ps) h = ground arith

later-push_char :
    (c : ℕ) (ps : List Text)
    → 1 ≤ length ps
    → later (push_char hyphen c ps) ≡ (if nat_eq c hyphen then ps else later ps)
unfolding push_char later
later-push_char c [] h = absurd (omega arith)
later-push_char c (p ∷ ps) h = ground arith

all-first-later :
    (p : Text → Bool) (ps : List Text)
    → 1 ≤ length ps
    → all p ps ≡ (p (first ps) && all p (later ps))
unfolding all first later
all-first-later p [] h = absurd (omega arith)
all-first-later p (q ∷ ps) h = refl

abbrev pieces : Text → List Text
pieces = split_at hyphen

first-cons :
    (c : ℕ) (s : Text)
    → first (pieces (c ∷ s)) ≡ (if nat_eq c hyphen then [] else c ∷ first (pieces s))
unfolding split_at
first-cons c s = first-push_char c (pieces s) (length-split_at hyphen s)

later-cons :
    (c : ℕ) (s : Text)
    → later (pieces (c ∷ s)) ≡ (if nat_eq c hyphen then pieces s else later (pieces s))
unfolding split_at
later-cons c s = later-push_char c (pieces s) (length-split_at hyphen s)

-- The characters of a name are those of its pieces, and hyphens.
all-pieces : (s : Text) → all is_name_char s ≡ all (all is_word_char) (pieces s)
unfolding all
all-pieces [] = unfold split_at in refl
all-pieces (c ∷ s) =
    rw
      (
        all-pieces s,
        all-first-later _ (pieces (c ∷ s)) (length-split_at hyphen (c ∷ s)),
        first-cons c s,
        later-cons c s,
      )
      (ground (arith, all-first-later (all is_word_char) (pieces s) (length-split_at hyphen s)))

filled-first :
    (s : Text) → filled (first (pieces s)) ≡ (filled s && not (starts_with (hyphen ∷ []) s))
filled-first [] = unfold split_at first in refl
filled-first (c ∷ s) = rw first-cons (unfold starts_with in ground arith)

filled-later :
    (s : Text)
    → all filled (later (pieces s)) ≡ (not (has_double_hyphen s) && not (ends_with_char hyphen s))
unfolding has_double_hyphen ends_with_char last
filled-later [] = unfold split_at later all in refl
filled-later (c ∷ []) = rw (later-cons c []) (unfold split_at later all starts_with in ground arith)
filled-later (c ∷ d ∷ s) = rw (later-cons c (d ∷ s)) (
    ground (
      arith,
      filled-later (d ∷ s),
      filled-first (d ∷ s),
      all-first-later filled (pieces (d ∷ s)) (length-split_at hyphen (d ∷ s)),
    ))

unfoldable pub is_word : Text → Bool
is_word p = filled p && all is_word_char p

all-is_word : (ps : List Text) → all is_word ps ≡ (all filled ps && all (all is_word_char) ps)
unfolding all is_word
all-is_word [] = refl
all-is_word (p ∷ ps) = ground (arith, all-is_word ps)

-- `validate_skill_name` accepts exactly the names of at most 64 characters that are words joined by
-- single hyphens, each word one or more lower-case letters and digits, and gives `InvalidName` on
-- every other name.
pub validate_skill_name-words :
    (name : Text)
    → validate_skill_name name ≡ (
        if leb (length name) 64 && all is_word (split_at hyphen name)
        then ok tt
        else err invalid_name)
validate_skill_name-words [] = unfold validate_skill_name split_at all is_word in refl
validate_skill_name-words (c ∷ s) =
    rw
      (
        all-is_word (pieces (c ∷ s)),
        all-first-later filled (pieces (c ∷ s)) (length-split_at hyphen (c ∷ s)),
        filled-first (c ∷ s),
        filled-later (c ∷ s),
        sym (all-pieces (c ∷ s)),
      )
      (unfold validate_skill_name length in ground arith)
