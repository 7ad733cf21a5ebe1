-- ===== src/Registry/Release.antt =====
-- `validate_release_metadata` (crates/denju-registry/src/release_validation.rs) and what it accepts.
use denju.Base.{ℕ, ◌≡◌, refl, Bool, true, false, not, ◌&&◌, ◌||◌, Option, none, some}
use denju.Base.{◌≤◌, ◌⊎◌, ◌↔◌, inl, inr, All, IsDistinct, eq-cases, eq_comm, Bool-cases}
use denju.Base.{
  List, [], ◌∷◌, arith, if◌then◌else◌, ltb, leb, nat_eq, ◌==◌, text_Eq, text_discrete, all, length,
}
use denju.Base.{Text, lit, to_utf8, Result, ok, err, ◌>>◌, reject, contains}
use denju.Base.Strings.Map.{set_insert, contains-set_insert}
use denju.Registry.Api.{ApiError, api_error, invalid_request}

-- `is_ascii_alphanumeric` and the three marks
unfoldable pub is_tag_byte : ℕ → Bool
is_tag_byte c =
    leb b'A' c && leb c b'Z'
    || leb b'a' c && leb c b'z'
    || leb b'0' c && leb c b'9'
    || nat_eq c b'.'
    || nat_eq c b'_'
    || nat_eq c b'-'

-- The source counts and tests bytes. A character of several bytes fails the test of the bytes.
unfoldable pub is_bad_tag : Text → Bool
unfolding is_tag_byte
is_bad_tag tag = tag == [] || ltb 64 (length tag) || not (all is_tag_byte tag)

-- The loop over the tags, with the set of those before.
unfoldable pub check_tags : List Text → List Text → Result ApiError Unit
unfolding is_bad_tag
check_tags unique [] = ok tt
check_tags unique (tag ∷ tags) =
    let rest = check_tags (set_insert tag unique) tags in
    if is_bad_tag tag
    then err (
        api_error invalid_request
          (lit "release tags must be 1-64 ASCII letters, digits, '.', '_' or '-'"))
    else if contains unique tag
    then err (api_error invalid_request (lit "release tags must be unique"))
    else rest

unfoldable pub is_long_message : Option Text → Bool
is_long_message none = false
is_long_message (some message) = ltb 4096 (length (to_utf8 message))

unfoldable pub validate_release_metadata : Option Text → List Text → Result ApiError Unit
unfolding is_long_message check_tags
validate_release_metadata message tags = do
  reject (is_long_message message)
      (api_error invalid_request (lit "release message exceeds 4096 bytes"))
  check_tags [] tags

-- A letter, a digit, a full stop, an underscore or a hyphen of ASCII.
abbrev pub IsTagByte : ℕ → Type 0
IsTagByte c =
    (65 ≤ c) × (c ≤ 90)
    ⊎ ((97 ≤ c) × (c ≤ 122) ⊎ ((48 ≤ c) × (c ≤ 57) ⊎ ((c ≡ 46) ⊎ ((c ≡ 95) ⊎ (c ≡ 45)))))

abbrev pub IsTag : Text → Type 0
IsTag tag = (1 ≤ length tag) × (length tag ≤ 64) × All IsTagByte tag

-- A message that is given has at most 4096 bytes of UTF-8.
abbrev pub IsShort : Option Text → Type 0
IsShort none = Unit
IsShort (some message) = length (to_utf8 message) ≤ 4096

-- What the metadata of a release have to be.
abbrev pub IsMetadata : Option Text → List Text → Type 0
IsMetadata message tags = IsShort message × All IsTag tags × IsDistinct tags

last_of :
    (a b c d e f : Bool)
    → a ≡ false
    → b ≡ false
    → c ≡ false
    → (a || b || c || d || e || f) ≡ true
    → (d || e || f) ≡ true
last_of a b c d e f not_a not_b not_c holds = ground arith

within : (low high c : ℕ) → (leb low c && leb c high) ≡ true → (low ≤ c) × (c ≤ high)
within low high c e = elim (Bool-cases (leb low c)) [
  | inl above ↦ (ground arith, ground arith)
  | inr below ↦ absurd (ground arith)
]

is_tag_byte_iff : (c : ℕ) → (is_tag_byte c ≡ true) ↔ IsTagByte c
unfolding is_tag_byte
is_tag_byte_iff c = ((λ e. forward e), (λ a. ground arith))
  where
    marks :
        (nat_eq c b'.' || nat_eq c b'_' || nat_eq c b'-') ≡ true → (c ≡ 46) ⊎ ((c ≡ 95) ⊎ (c ≡ 45))
    marks e = ground arith

    forward : is_tag_byte c ≡ true → IsTagByte c
    forward e = elim (Bool-cases (leb b'A' c && leb c b'Z')) [
      | inl upper ↦ inl (within b'A' b'Z' c upper)
      | inr not_upper ↦ elim (Bool-cases (leb b'a' c && leb c b'z')) [
        | inl lower ↦ inr (inl (within b'a' b'z' c lower))
        | inr not_lower ↦ elim (Bool-cases (leb b'0' c && leb c b'9')) [
          | inl digit ↦ inr (inr (inl (within b'0' b'9' c digit)))
          | inr not_digit ↦ inr (
              inr (
                inr (
                  marks (
                    last_of (leb b'A' c && leb c b'Z') (leb b'a' c && leb c b'z')
                      (leb b'0' c && leb c b'9') (nat_eq c b'.') (nat_eq c b'_') (nat_eq c b'-')
                      not_upper not_lower not_digit e))))
        ]
      ]
    ]

all_iff : (tag : Text) → (all is_tag_byte tag ≡ true) ↔ All IsTagByte tag
unfolding all
all_iff [] = ((λ e. tt), (λ a. refl))
all_iff (c ∷ s) = (
  (λ e. ((is_tag_byte_iff c).0 (ground arith), (all_iff s).0 (ground arith))),
  (λ a. ground (arith, (is_tag_byte_iff c).1 a.0, (all_iff s).1 a.1)),
)

is_bad_tag_iff : (tag : Text) → (is_bad_tag tag ≡ false) ↔ IsTag tag
unfolding is_bad_tag ◌==◌ text_discrete
is_bad_tag_iff tag = (
  (λ e. (ground (arith, empty tag), ground arith, (all_iff tag).0 (ground arith))),
  (λ a. ground (arith, empty tag, a.0, a.1, (all_iff tag).1 a.2)),
)
  where
    empty : (s : Text) → (s == []) ≡ nat_eq (length s) 0
    empty [] = refl
    empty (c ∷ s) = ground (arith, eq-cases (c ∷ s) [])

-- No tag is the given one or in the set exactly where the given one is no tag and none is in the set.
insert_new_iff :
    (tag : Text) (unique tags : List Text)
    → All (λ other. contains (set_insert tag unique) other ≡ false) tags
      ↔ (contains tags tag ≡ false) × All (λ other. contains unique other ≡ false) tags
unfolding contains
insert_new_iff tag unique [] = ((λ a. (refl, tt)), (λ a. tt))
insert_new_iff tag unique (other ∷ tags) =
    let inserted = contains-set_insert other tag unique in
    let rest = insert_new_iff tag unique tags in
    (
      (λ a.
          let after = rest.0 a.1 in
          (
            ground (arith, inserted, a.0, after.0, eq_comm tag other),
            (ground (arith, inserted, a.0), after.1),
          )),
      (λ a. (
        ground (arith, inserted, a.0, a.1.0, eq_comm tag other),
        rest.1 (ground (arith, a.0), a.1.1),
      )),
    )

check_tags_iff :
    (unique tags : List Text)
    → (check_tags unique tags ≡ ok tt)
      ↔ All IsTag tags × All (λ tag. contains unique tag ≡ false) tags × IsDistinct tags
unfolding check_tags
check_tags_iff unique [] = ((λ e. (tt, tt, tt)), (λ a. refl))
check_tags_iff unique (tag ∷ tags) =
    let rest = check_tags_iff (set_insert tag unique) tags in
    let apart = insert_new_iff tag unique tags in
    (
      (λ e.
          let (good, new, distinct) = rest.0 (ground arith) in
          let (absent, others) = apart.0 new in
          (
            ((is_bad_tag_iff tag).0 (ground arith), good),
            (ground arith, others),
            (absent, distinct),
          )),
      (λ a.
          let good = (is_bad_tag_iff tag).1 a.0.0 in
          let later = rest.1 (a.0.1, apart.1 (a.2.0, a.1.1), a.2.1) in
          ground (arith, good, later, a.1.0)),
    )

is_long_message_iff : (message : Option Text) → (is_long_message message ≡ false) ↔ IsShort message
unfolding is_long_message
is_long_message_iff none = ((λ e. tt), (λ a. refl))
is_long_message_iff (some message) = ((λ e. ground arith), (λ a. ground arith))

-- Release metadata are accepted exactly where a message that is given has at most 4096 bytes, every tag
-- has from one to 64 characters, which are letters, digits, full stops, underscores or hyphens of ASCII,
-- and no two tags are equal.
pub validate_release_metadata-IsMetadata :
    (message : Option Text) (tags : List Text)
    → (validate_release_metadata message tags ≡ ok tt) ↔ IsMetadata message tags
unfolding validate_release_metadata contains
validate_release_metadata-IsMetadata message tags =
    let rest = check_tags_iff [] tags in
    (
      (λ e.
          let (good, _, distinct) = rest.0 (ground arith) in
          ((is_long_message_iff message).0 (ground arith), good, distinct)),
      (λ a.
          let short = (is_long_message_iff message).1 a.0 in
          let accepted = rest.1 (a.1, none_before tags, a.2) in ground (arith, short, accepted)),
    )
  where
    none_before : (tags : List Text) → All (λ tag. contains [] tag ≡ false) tags
    none_before [] = tt
    none_before (tag ∷ tags) = (refl, none_before tags)
