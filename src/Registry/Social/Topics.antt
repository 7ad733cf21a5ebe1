-- ===== src/Registry/Social/Topics.antt =====
-- `normalize_topics` (crates/denju-registry/src/social.rs).
use denju.Base.{ℕ, ◌+◌, Bool, true, not, ◌&&◌, ◌||◌, List, [], ◌∷◌, map, any}
use denju.Base.{if◌then◌else◌, ltb, leb, nat_eq, ◌==◌, text_Eq, length, sort_by, text_cmp}
use denju.Base.{Text, lit, ends_with_char, Result, ok, ◌>>◌, reject}
use denju.Core.Skill.{hyphen, is_word_char, has_double_hyphen}
use denju.Registry.Api.{ApiError, api_error, invalid_request, Host, trim}

-- `u8::to_ascii_lowercase`
unfoldable pub ascii_lowercase : ℕ → ℕ
ascii_lowercase c = if leb b'A' c && leb c b'Z' then c + 32 else c

unfoldable pub dedup : List Text → List Text
dedup [] = []
dedup (x ∷ []) = x ∷ []
dedup (x ∷ y ∷ rest) = let tail = dedup (y ∷ rest) in if x == y then tail else x ∷ tail

-- The bytes of a topic with their index: a hyphen may not be the first.
unfoldable pub topic_bytes : ℕ → Text → Bool
topic_bytes index [] = true
topic_bytes index (c ∷ s) =
    (is_word_char c || nat_eq c hyphen && ltb 0 index) && topic_bytes (index + 1) s

-- The source counts and tests bytes. A character of several bytes fails the test of the bytes.
unfoldable pub is_bad_topic : Text → Bool
unfolding topic_bytes
is_bad_topic topic =
    topic == []
    || ltb 32 (length topic)
    || not (topic_bytes 0 topic)
    || ends_with_char hyphen topic
    || has_double_hyphen topic

unfoldable pub normalize_topics : Host → List Text → Result ApiError (List Text)
unfolding ascii_lowercase dedup is_bad_topic
normalize_topics h input = do
  reject (ltb 12 (length input))
      (api_error invalid_request (lit "a resource may have at most 12 discovery topics"))
  let topics = dedup (sort_by text_cmp (map (λ topic. map ascii_lowercase (trim h topic)) input))
  reject (any is_bad_topic topics) (
      api_error invalid_request (
        lit
          "discovery topics must be lowercase letters/numbers with single internal hyphens and at most 32 bytes"))
  ok topics
