-- ===== src/Registry/Social/Responses.antt =====
-- The requests and responses of the social operations (crates/denju-wire/src/discovery.rs), and how
-- a response is written to and read from the JSON of a recorded operation.
use native.Mathlib.Decide.{ℕ_discrete}
use denju.Base.{ℕ, ◌≡◌, refl, Bool, Option, none, some, List, [], ◌∷◌, Text, lit, Option-cases}
use denju.Base.{Result, ok, err, ◌>>=◌, inl, inr, ◌==◌, text_discrete}
use denju.Wire.Json.{
  Json, Items, null, boolean, number, string, array, nil, cons, struct, field, string_items,
  members_of, find,
}
use denju.Wire.Types.{skip_none, some_string}

pub record ProfileUpdateRequest : Type 0 where
  pub operation_id : Text
  pub bio : Option Text
  pub followers_visible : Bool
  pub following_visible : Bool
  pub request_hash : Text

pub record ProfileUpdateResponse : Type 0 where
  pub user_id : Text
  pub username : Text
  pub bio : Option Text
  pub followers_visible : Bool
  pub following_visible : Bool

pub record FollowMutationRequest : Type 0 where
  pub operation_id : Text
  pub target_user_id : Text
  pub request_hash : Text

pub record FollowMutationResponse : Type 0 where
  pub target_user_id : Text
  pub username : Text
  pub following : Bool

pub record StarMutationRequest : Type 0 where
  pub operation_id : Text
  pub resource_id : Text
  pub request_hash : Text

pub record StarMutationResponse : Type 0 where
  pub resource_id : Text
  pub locator : Text
  pub starred : Bool
  pub star_count : ℕ

pub record ResourceTopicsRequest : Type 0 where
  pub operation_id : Text
  pub resource_id : Text
  pub expected_generation : ℕ
  pub topics : List Text
  pub request_hash : Text

pub record ResourceTopicsResponse : Type 0 where
  pub resource_id : Text
  pub locator : Text
  pub generation : ℕ
  pub topics : List Text

pub record ReportResourceRequest : Type 0 where
  pub operation_id : Text
  pub resource_id : Text
  pub reason : Text
  pub request_hash : Text

pub record ReportResourceResponse : Type 0 where
  pub report_id : Text
  pub resource_id : Text
  pub accepted : Bool

-- The responses, as `to_value` and `from_value` see them.
pub data SocialResponse : Type 0 where
  profile : ProfileUpdateResponse → SocialResponse
  followed : FollowMutationResponse → SocialResponse
  stars : StarMutationResponse → SocialResponse
  topics : ResourceTopicsResponse → SocialResponse
  report : ReportResourceResponse → SocialResponse

unfoldable pub to_value : SocialResponse → Json
to_value (profile r) = struct (
    (lit "user_id", string r.user_id)
    ∷ (lit "username", string r.username)
    ∷ skip_none (lit "bio") (some_string r.bio) (
        (lit "followers_visible", boolean r.followers_visible)
        ∷ (lit "following_visible", boolean r.following_visible)
        ∷ []))
to_value (followed r) = struct (
    (lit "target_user_id", string r.target_user_id)
    ∷ (lit "username", string r.username)
    ∷ (lit "following", boolean r.following)
    ∷ [])
to_value (stars r) = struct (
    (lit "resource_id", string r.resource_id)
    ∷ (lit "locator", string r.locator)
    ∷ (lit "starred", boolean r.starred)
    ∷ (lit "star_count", number r.star_count)
    ∷ [])
to_value (topics r) = struct (
    (lit "resource_id", string r.resource_id)
    ∷ (lit "locator", string r.locator)
    ∷ (lit "generation", number r.generation)
    ∷ (lit "topics", array (string_items r.topics))
    ∷ [])
to_value (report r) = struct (
    (lit "report_id", string r.report_id)
    ∷ (lit "resource_id", string r.resource_id)
    ∷ (lit "accepted", boolean r.accepted)
    ∷ [])

-- A reader refuses the value that has not its shape.
unfoldable pub read_text : Json → Result Json Text
read_text (string s) = ok s
read_text j = err j

unfoldable pub read_flag : Json → Result Json Bool
read_flag (boolean b) = ok b
read_flag j = err j

unfoldable pub read_number : Json → Result Json ℕ
read_number (number n) = ok n
read_number j = err j

-- A field with `default`: what is missing is read as `null`.
unfoldable pub read_maybe_text : Json → Result Json (Option Text)
read_maybe_text (string s) = ok (some s)
read_maybe_text null = ok none
read_maybe_text j = err j

unfoldable pub read_items : Items → Result Json (List Text)
unfolding read_text
read_items nil = ok []
read_items (cons j rest) = do s ← read_text j; ss ← read_items rest; ok (s ∷ ss)

unfoldable pub read_texts : Json → Result Json (List Text)
unfolding read_items
read_texts (array items) = read_items items
read_texts j = err j

-- `serde_json::from_value`, at the type of each response.
unfoldable pub read_profile : Json → Result Json SocialResponse
unfolding read_text read_flag read_maybe_text
read_profile j = do
  user_id ← read_text (field (lit "user_id") j)
  username ← read_text (field (lit "username") j)
  bio ← read_maybe_text (field (lit "bio") j)
  followers_visible ← read_flag (field (lit "followers_visible") j)
  following_visible ← read_flag (field (lit "following_visible") j)
  ok (
      profile (record {
        user_id = user_id;
        username = username;
        bio = bio;
        followers_visible = followers_visible;
        following_visible = following_visible;
      }))

unfoldable pub read_followed : Json → Result Json SocialResponse
unfolding read_text read_flag
read_followed j = do
  target_user_id ← read_text (field (lit "target_user_id") j)
  username ← read_text (field (lit "username") j)
  following ← read_flag (field (lit "following") j)
  ok (
      followed
        (record { target_user_id = target_user_id; username = username; following = following }))

unfoldable pub read_stars : Json → Result Json SocialResponse
unfolding read_text read_flag read_number
read_stars j = do
  resource_id ← read_text (field (lit "resource_id") j)
  locator ← read_text (field (lit "locator") j)
  starred ← read_flag (field (lit "starred") j)
  star_count ← read_number (field (lit "star_count") j)
  ok (
      stars (record {
        resource_id = resource_id;
        locator = locator;
        starred = starred;
        star_count = star_count;
      }))

unfoldable pub read_topics : Json → Result Json SocialResponse
unfolding read_text read_number read_texts
read_topics j = do
  resource_id ← read_text (field (lit "resource_id") j)
  locator ← read_text (field (lit "locator") j)
  generation ← read_number (field (lit "generation") j)
  topics_read ← read_texts (field (lit "topics") j)
  ok (
      topics (record {
        resource_id = resource_id;
        locator = locator;
        generation = generation;
        topics = topics_read;
      }))

unfoldable pub read_report : Json → Result Json SocialResponse
unfolding read_text read_flag
read_report j = do
  report_id ← read_text (field (lit "report_id") j)
  resource_id ← read_text (field (lit "resource_id") j)
  accepted ← read_flag (field (lit "accepted") j)
  ok (report (record { report_id = report_id; resource_id = resource_id; accepted = accepted }))

-- The reader at the type of a response.
unfoldable pub from_value_like : SocialResponse → Json → Result Json SocialResponse
from_value_like (profile r) = read_profile
from_value_like (followed r) = read_followed
from_value_like (stars r) = read_stars
from_value_like (topics r) = read_topics
from_value_like (report r) = read_report

read_items-string_items : (ss : List Text) → read_items (string_items ss) ≡ ok ss
unfolding read_items read_text string_items
read_items-string_items [] = refl
read_items-string_items (s ∷ ss) = rw (read_items-string_items ss)

-- A response is read back as it was written.
pub from_value-to_value : (r : SocialResponse) → from_value_like r (to_value r) ≡ ok r
unfolding from_value_like to_value read_profile read_followed read_stars read_topics read_report
    read_text read_flag read_number read_maybe_text read_texts struct members_of field find ◌==◌
    text_discrete ℕ_discrete
from_value-to_value (profile r) = elim (Option-cases r.bio) [ inl e ↦ rw e | inr (b, e) ↦ rw e ]
from_value-to_value (followed r) = refl
from_value-to_value (stars r) = refl
from_value-to_value (topics r) = rw (read_items-string_items r.topics)
from_value-to_value (report r) = refl
