-- ===== src/Core/Locator/RoundTrip.antt =====
-- A locator prints as the text that it was read from, and is read from the text that it prints.
use denju.Base.{
  ◌≡◌, refl, sym, ap, ◌∙◌, true, false, arith, Option-cases, inl, inr, some, List, [], ◌∷◌, ◌++◌,
}
use denju.Base.{◌==◌, text_Eq, eq-cases, Text, lit, split_at, strip_prefix, join, Result, ok, err}
use denju.Base.{
  join-split_at, strip_prefix-append, strip_prefix_self, split_at-append, split_at-whole,
  has_char_of_length, has_char, length, text_discrete, all,
}
use native.Mathlib.Decide.{ℕ_discrete}
use denju.Core.PortablePath.Paths.{parse-walk}
use denju.Core.Unicode.{Unicode}
use denju.Core.PortablePath.{parse, slash, component_count, PortablePath, PortablePathError}
use denju.Core.Skill.{validate_skill_name, is_name_char}
use denju.Core.Locator.Defs.{
  ResourceKind, skill, pack, ResourceLocator, locator_from_str, display, display_kind,
  read_segments, validate_name, validate_namespace_segment, validate_pack_name,
  is_lowercase_portable_segment, single_component,
}

read_segments-join :
    (segments : List Text) (owner name : Text) (kind : ResourceKind)
    → read_segments segments ≡ ok (owner, kind, name)
    → join slash segments ≡ owner ++ (display_kind kind ++ name)
unfolding read_segments display_kind join
read_segments-join [] owner name kind h = cc
read_segments-join (a ∷ []) owner name kind h = cc
read_segments-join (a ∷ b ∷ []) owner name kind h = ground arith
read_segments-join (a ∷ b ∷ c ∷ []) owner name kind h = ground (arith, eq-cases b (lit "packs"))
read_segments-join (a ∷ b ∷ c ∷ d ∷ rest) owner name kind h = cc

pub locator-parts :
    (u : Unicode) (value : Text) (l : ResourceLocator)
    → locator_from_str u value ≡ ok l
    → (rest : Text) × (strip_prefix (lit "@") value ≡ some rest)
      × (read_segments (split_at slash rest) ≡ ok (l.owner, l.kind, l.name))
      × (validate_namespace_segment u l.owner ≡ ok tt)
      × (validate_name u l.kind l.name ≡ ok tt)
unfolding locator_from_str
locator-parts u value l h = elim (Option-cases (strip_prefix (lit "@") value)) [
  | inl e ↦ cc (sym (rw (e, locator_from_str) at h))
  | inr c ↦ (c.0, c.1, ground (arith, c.1), ground (arith, c.1), ground (arith, c.1))
]

-- A text that is read as a locator is what the locator prints.
pub display-locator_from_str :
    (u : Unicode) (value : Text) (l : ResourceLocator)
    → locator_from_str u value ≡ ok l
    → display l ≡ value
unfolding display
display-locator_from_str u value l h =
    let (rest, stripped, read, owner, name) = locator-parts u value l h in
    ap (λ (t : Text). lit "@" ++ t)
      (sym (read_segments-join (split_at slash rest) l.owner l.name l.kind read)
        ∙ join-split_at slash rest)
    ∙ sym (strip_prefix-append (lit "@") value rest stripped)

single_component-path :
    (r : Result PortablePathError PortablePath)
    → single_component r ≡ true
    → (p : PortablePath) × (r ≡ ok p) × (component_count p ≡ 1)
single_component-path (ok p) h = (p, refl, ground arith)
single_component-path (err e) h = cc

segment-has_char :
    (u : Unicode) (s : Text) → is_lowercase_portable_segment u s ≡ true → has_char slash s ≡ false
unfolding is_lowercase_portable_segment
segment-has_char u s h =
    let (p, accepted, one) = single_component-path (parse u s) (ground arith) in
    let same = (parse-walk u s p accepted).0 in
    has_char_of_length slash s
      (ap (λ (t : Text). length (split_at slash t)) (sym same) ∙ unfold component_count in one)

all-has_char : (s : Text) → all is_name_char s ≡ true → has_char slash s ≡ false
unfolding all has_char
all-has_char [] h = refl
all-has_char (c ∷ s) h = ground (arith, all-has_char s)

name-has_char : (s : Text) → validate_skill_name s ≡ ok tt → has_char slash s ≡ false
unfolding validate_skill_name
name-has_char s h = all-has_char s (ground arith)

-- The parts that the parser accepts for a kind.
pub record IsValidLocator (u : Unicode) (l : ResourceLocator) : Type 0 where
  pub owner_valid : is_lowercase_portable_segment u l.owner ≡ true
  pub name_valid : validate_name u l.kind l.name ≡ ok tt

name-segment :
    (u : Unicode) (kind : ResourceKind) (s : Text)
    → validate_name u kind s ≡ ok tt
    → has_char slash s ≡ false
unfolding validate_name validate_pack_name
name-segment u skill s h = name-has_char s (ground arith)
name-segment u pack s h = segment-has_char u s (ground arith)

read_segments-split :
    (kind : ResourceKind) (owner name : Text)
    → has_char slash owner ≡ false
    → has_char slash name ≡ false
    → read_segments (split_at slash (owner ++ (display_kind kind ++ name))) ≡ ok (owner, kind, name)
unfolding read_segments display_kind
read_segments-split skill owner name p q =
    rw (split_at-append slash owner name p, split_at-whole slash name q)
read_segments-split pack owner name p q =
    rw (split_at-append slash owner (lit "packs/" ++ name) p) (
      rw
        (
          split_at-append slash (lit "packs") name (unfold has_char in refl),
          split_at-whole slash name q,
        )
        (unfold ◌==◌ text_discrete ℕ_discrete in refl))

-- A locator with valid parts is read back from the text that it prints.
pub locator_from_str-display :
    (u : Unicode) (l : ResourceLocator) → IsValidLocator u l → locator_from_str u (display l) ≡ ok l
unfolding locator_from_str display validate_namespace_segment
locator_from_str-display u l v =
    rw (strip_prefix_self (lit "@") (l.owner ++ (display_kind l.kind ++ l.name))) (
      rw (
        read_segments-split l.kind l.owner l.name (segment-has_char u l.owner v.owner_valid)
            (name-segment u l.kind l.name v.name_valid),
        v.owner_valid,
        v.name_valid,
      ))
