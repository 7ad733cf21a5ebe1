-- ===== src/Tests/Registry.antt =====
-- Social calls on a small registry: alice owns the skill review, which bob stars.

use mathlib.Core.List.Perm
use denju.Base.{◌≡◌, refl, true, false, none, some, List, [], ◌∷◌, ◌++◌, Text, Bytes, lit}
use denju.Base.{
  ok, take, nat_eq, any, sort_by, insert_by, ends_with_char, last, starts_with, list_cmp, ◌==◌,
  text_discrete,
}
use denju.Wire.Hash.{Crates, HashInput, request_hash_from_str, hash_payload}
use denju.Wire.Json.{normal, struct, members_of, insert_member}
use denju.Wire.Mutation.Account.{StarMutationKind, star_request, star_mutation_kind_domain}
use denju.Registry.Api.{Host, trim, trim_start, trim_end, parse_uuid, parse_operation, parse_hash}
use denju.Registry.Social.Operations.{
  commit, ensure_hash, in_operation, unless_replayed, lock_live_social_user,
  replay_social_operation, record_social_operation,
}
use denju.Registry.Social.Statements.{
  change_star, insert_star, refresh_resource_star_count, lock_social_resource, is_available,
}
use denju.Registry.Social.Topics.{
  normalize_topics, dedup, is_bad_topic, ascii_lowercase, topic_bytes,
}
use denju.Registry.Social.Normal.{IsAscending, normalize_topics-IsAscending, normalize_topics-Perm}
use denju.Registry.Social.Once.{sent_again, serve-sent_again, serve-used_operation}
use denju.Registry.Social.Stars.{StarCounts}
use denju.Registry.Social.Counts.{serve_all-StarCounts}
use denju.Registry.Social.Starred.{serve-unavailable}
use denju.Core.Skill.{has_double_hyphen}
use denju.Registry.Social.Handlers.{mutate_star, star_change, count_stars}
use denju.Core.Ids.{id_from_str, from_uuid, version_num}
use native.Mathlib.Decide.{ℕ_discrete}
use denju.Registry.Tables.{
  find_namespace, first, update_where, count_where, Tables, UserRow, NamespaceRow, ResourceRow,
}
use denju.Registry.Access.{UserAuthority}
use denju.Registry.Social.Calls.{SocialCall, handle, serve, serve_all}
use denju.Registry.Social.Responses.{SocialResponse}
use denju.Tests.Canonical.{plain, encode}
use denju.Tests.Tables.{ascii}

-- The digest keeps the first 32 bytes, and an identity is its text.
abbrev short : Crates
short = record plain { digest = take 32 }

abbrev pub host : Host
host = record {
  crates = short;
  unicode = ascii;
  parse_str = λ s. some s;
  uuid_error = λ s. lit "bad";
  uuid_text = λ b. b;
  is_whitespace = λ c. nat_eq c b' ';
  database_error = λ e. lit "database";
  serde_error = λ j. lit "shape";
}

abbrev alice_id : Bytes
alice_id = lit "alice"

abbrev user : Text → UserRow
user name = record {
  id = name;
  namespace_id = some name;
  deleted = false;
  author_principal_id = name;
  bio = none;
  followers_visible = true;
  following_visible = true;
}

abbrev pub namespace : Text → NamespaceRow
namespace name = record { id = name; slug = name; kind = lit "user" }

abbrev review : ResourceRow
review = record {
  id = lit "review-id";
  owner_namespace_id = some (lit "alice");
  deleted_owner_slug = none;
  slug = lit "review";
  kind = lit "skill";
  visibility = lit "public";
  deleted = false;
  released = true;
  quarantined = false;
  star_count = 0;
  generation = 1;
  discovery_topics = [];
}

abbrev pub registry : Tables
registry = record {
  users = user (lit "alice") ∷ user (lit "bob") ∷ [];
  namespaces = namespace (lit "alice") ∷ namespace (lit "bob") ∷ [];
  teams = [];
  team_memberships = [];
  resources = review ∷ [];
  user_follows = [];
  resource_stars = [];
  social_operations = [];
  resource_reports = [];
  authority_events = [];
  outbox_events = [];
  next_event = 1;
}

abbrev pub bob : UserAuthority
bob = record {
  user_id = lit "bob";
  namespace_id = lit "bob";
  namespace_slug = lit "bob";
  author_principal_id = lit "bob";
}

abbrev hash_of : HashInput → Text
hash_of input = take 32 (input.domain ++ encode (normal input.payload))

abbrev star_review : StarMutationKind → Text → SocialCall
star_review kind operation_id = SocialCall.star kind (record {
  operation_id = operation_id;
  resource_id = lit "review-id";
  request_hash = hash_of (star_request kind operation_id (lit "review-id"));
})

abbrev first_star : SocialCall
first_star = star_review StarMutationKind.star (lit "op-000p1")

abbrev take_back : SocialCall
take_back = star_review StarMutationKind.unstar (lit "op-000p2")

abbrev reused : SocialCall
reused = star_review StarMutationKind.unstar (lit "op-000p1")

abbrev one_star : SocialResponse
one_star = SocialResponse.stars (record {
  resource_id = lit "review-id";
  locator = lit "@alice/review";
  starred = true;
  star_count = 1;
})

unfoldable starred : Tables
unfolding serve
starred = (serve host bob first_star registry).0

starred_once : serve host bob first_star registry ≡ (starred, ok one_star)
unfolding starred serve commit handle mutate_star parse_uuid parse_operation parse_hash ensure_hash
    in_operation unless_replayed lock_live_social_user replay_social_operation
    record_social_operation star_change change_star insert_star count_stars
    refresh_resource_star_count lock_social_resource find_namespace first update_where count_where
    any request_hash_from_str hash_payload id_from_str from_uuid version_num star_request
    star_mutation_kind_domain struct members_of normal insert_member list_cmp encode ◌==◌
    text_discrete ℕ_discrete
starred_once = refl

-- Bob takes the star back, so that only the record of the first call tells that it was done.
abbrev since : List (UserAuthority × SocialCall)
since = (bob, take_back) ∷ []

serve-sent_again_example :
    serve host bob (sent_again [] first_star) (serve_all host since starred)
    ≡ (serve_all host since starred, ok one_star)
serve-sent_again_example =
    serve-sent_again host bob first_star [] registry starred one_star since starred_once

serve-used_operation_example :
    (serve host bob reused (serve_all host since starred)).0 ≡ serve_all host since starred
serve-used_operation_example =
    serve-used_operation host bob bob first_star reused registry starred one_star since refl refl
      starred_once

right_counts : StarCounts registry
unfolding count_where
right_counts = (refl, tt)

serve_all-StarCounts_example :
    StarCounts (serve_all host ((bob, first_star) ∷ (bob, take_back) ∷ []) registry)
serve_all-StarCounts_example =
    serve_all-StarCounts host ((bob, first_star) ∷ (bob, take_back) ∷ []) registry right_counts

abbrev changed : Tables
changed = record registry {
  resources = record review { star_count = 1 } ∷ [];
  resource_stars = record { user_id = lit "bob"; resource_id = lit "review-id" } ∷ [];
}

-- The owner has made the starred skill private.
abbrev withdrawn : Tables
withdrawn = record changed {
  resources = record review { star_count = 1; visibility = lit "private" } ∷ [];
}

is_withdrawn : any (is_available (lit "review-id")) withdrawn.resources ≡ false
unfolding any ◌==◌ text_discrete ℕ_discrete
is_withdrawn = refl

serve-unavailable_example : (serve host bob take_back withdrawn).0 ≡ withdrawn
serve-unavailable_example =
    serve-unavailable host bob StarMutationKind.unstar
      (record {
        operation_id = lit "op-000p2";
        resource_id = lit "review-id";
        request_hash =
            hash_of (star_request StarMutationKind.unstar (lit "op-000p2") (lit "review-id"));
      })
      (lit "review-id") withdrawn refl is_withdrawn

abbrev given : List Text
given = lit " Rust " ∷ lit "agents" ∷ lit "rust" ∷ []

abbrev kept : List Text
kept = lit "agents" ∷ lit "rust" ∷ []

normalized : normalize_topics host given ≡ ok kept
unfolding normalize_topics dedup is_bad_topic ascii_lowercase trim trim_start trim_end sort_by
    insert_by list_cmp topic_bytes any ends_with_char last has_double_hyphen starts_with ◌==◌
    text_discrete ℕ_discrete
normalized = refl

normalize_topics-IsAscending_example : IsAscending kept × (any is_bad_topic kept ≡ false)
normalize_topics-IsAscending_example = normalize_topics-IsAscending host given kept normalized

normalize_topics-Perm_example :
    normalize_topics host (lit "b" ∷ lit "a" ∷ []) ≡ normalize_topics host (lit "a" ∷ lit "b" ∷ [])
normalize_topics-Perm_example =
    normalize_topics-Perm host (lit "b" ∷ lit "a" ∷ []) (lit "a" ∷ lit "b" ∷ [])
      (Perm.swap (lit "a") (lit "b") [])
