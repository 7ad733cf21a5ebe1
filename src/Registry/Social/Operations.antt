-- ===== src/Registry/Social/Operations.antt =====
-- What every social operation does besides its own change (crates/denju-registry/src/social.rs): it
-- checks the hash of the request, locks the user, returns the outcome of an operation that was
-- done before, and records its outcome.
use denju.Base.{not, Option, none, some, [], ◌∷◌, ◌++◌, any}
use denju.Base.{Text, Bytes, lit, Result, ok, err, ◌>>=◌, ◌>>◌, map_err, reject}
use denju.Base.{◌==◌, text_Eq, ◌||◌}
use denju.Wire.Json.{Json}
use denju.Wire.Hash.{RequestHash, HashInput, hash_payload}
use denju.Registry.Api.{
  ApiError, api_error, invalid_request_hash, operation_conflict, internal, Host,
  request_hash_error_text, internal_api_error, invalid_credentials, duplicate_key,
}
use denju.Registry.Tables.{Tables, OperationRow, first, is_live_user, is_operation}
use denju.Registry.Social.Responses.{SocialResponse, to_value}

-- `ensure_hash` of the supplied hash and that of the request, over `hash_error`.
unfoldable pub ensure_hash : Host → RequestHash → HashInput → Result ApiError Unit
unfolding request_hash_error_text
ensure_hash h supplied input = do
  expected ←
      map_err (λ e. api_error invalid_request_hash (request_hash_error_text e))
        (hash_payload h.crates input)
  reject (not (supplied.bytes == expected.bytes)) (
      api_error invalid_request_hash
        (lit "request_hash does not match the canonical social mutation payload"))

unfoldable pub lock_live_social_user : Bytes → Tables → Result ApiError Unit
lock_live_social_user user_id t = elim (first (is_live_user user_id) t.users) [
  | none ↦ err invalid_credentials
  | some user ↦ ok tt
]

-- An operation: who does it, its identity, the hash of its request and its kind.
pub record Operation : Type 0 where
  pub user_id : Bytes
  pub operation_id : Bytes
  pub request_hash : RequestHash
  pub kind : Text

-- `from_value` is `serde_json::from_value` at the type of the response.
unfoldable pub replay_social_operation :
    Host
    → (Json → Result Json SocialResponse)
    → Operation
    → Tables
    → Result ApiError (Option SocialResponse)
replay_social_operation h from_value o t =
    elim (first (is_operation o.user_id o.operation_id) t.social_operations) [
      | none ↦ ok none
      | some row ↦ do
        reject
            (not (row.request_hash == o.request_hash.bytes) || not (row.operation_kind == o.kind))
            (api_error operation_conflict
              (lit "operation_id was already used with different social mutation content"))
        outcome ← map_err (λ j. api_error internal (h.serde_error j)) (from_value row.outcome_json)
        ok (some outcome)
    ]

abbrev pub row_of : Operation → SocialResponse → OperationRow
row_of o outcome = record {
  user_id = o.user_id;
  operation_id = o.operation_id;
  request_hash = o.request_hash.bytes;
  operation_kind = o.kind;
  outcome_json = to_value outcome;
}

unfoldable pub record_social_operation :
    Host → Operation → SocialResponse → Tables → Result ApiError Tables
record_social_operation h o outcome t = do
  reject (any (is_operation o.user_id o.operation_id) t.social_operations)
      (internal_api_error h duplicate_key)
  ok (record t { social_operations = t.social_operations ++ row_of o outcome ∷ [] })

-- The outcome of a replay, or the change and its record.
unfoldable pub unless_replayed :
    Host
    → Operation
    → (Tables → Result ApiError (Tables × SocialResponse))
    → Tables
    → Option SocialResponse
    → Result ApiError (Tables × SocialResponse)
unfolding record_social_operation
unless_replayed h o change t (some outcome) = ok (t, outcome)
unless_replayed h o change t none = do
  (changed, outcome) ← change t
  done ← record_social_operation h o outcome changed
  ok (done, outcome)

-- The transaction that each handler writes out around its own statements.
unfoldable pub in_operation :
    Host
    → (Json → Result Json SocialResponse)
    → Operation
    → (Tables → Result ApiError (Tables × SocialResponse))
    → Tables
    → Result ApiError (Tables × SocialResponse)
unfolding lock_live_social_user replay_social_operation unless_replayed
in_operation h from_value o change t = do
  lock_live_social_user o.user_id t
  replayed ← replay_social_operation h from_value o t
  unless_replayed h o change t replayed

-- A transaction that fails is rolled back.
unfoldable pub commit :
    {A : Type 0} → Tables → Result ApiError (Tables × A) → Tables × Result ApiError A
commit t (ok (done, outcome)) = (done, ok outcome)
commit t (err e) = (t, err e)
