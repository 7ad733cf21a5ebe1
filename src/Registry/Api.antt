-- ===== src/Registry/Api.antt =====
-- `ApiError` (crates/denju-wire/src/api.rs), the texts of the errors that it carries, and what the
-- registry takes from other crates.
use denju.Base.{ℕ, Bool, Option, none, some, [], ◌∷◌, ◌++◌}
use denju.Base.{Text, Bytes, lit, Result, ok, err, map_err, if◌then◌else◌, ltb, ◌+◌, ◌^◌}
use denju.Core.Ids.{IdError, invalid_uuid, not_uuid_v7, Id7, id_from_str}
use denju.Core.Unicode.{Unicode}
use denju.Wire.Json.{Json}
use denju.Wire.Hash.{
  Crates, RequestHash, RequestHashError, invalid_length, invalid_hex, canonicalization,
  request_hash_from_str,
}

pub data ApiErrorCode : Type 0 where
  invalid_request invalid_request_hash operation_conflict generation_conflict unauthorized not_found
        quota_exceeded internal unavailable :
      ApiErrorCode

pub record ApiError : Type 0 where
  pub code : ApiErrorCode
  pub message : Text

-- `ApiError::new`
abbrev pub api_error : ApiErrorCode → Text → ApiError
api_error code message = record { code = code; message = message }

-- How a statement fails that the schema or a function of it refuses.
pub data DatabaseError : Type 0 where
  duplicate_key row_not_found : DatabaseError
  raised : Text → DatabaseError

-- The crates of the wire, the tables of Unicode, and `uuid`: `Uuid::parse_str`, the error of a text
-- that it refuses, and `Display`; the whitespace of `str::trim`; and the texts of `sqlx::Error` and
-- of the error of `serde_json` on a value that has not the shape asked for.
pub record Host : Type 0 where
  pub crates : Crates
  pub unicode : Unicode
  pub parse_str : Text → Option Bytes
  pub uuid_error : Text → Text
  pub uuid_text : Bytes → Text
  pub is_whitespace : ℕ → Bool
  pub database_error : DatabaseError → Text
  pub serde_error : Json → Text

unfoldable pub request_hash_error_text : RequestHashError → Text
request_hash_error_text invalid_length = lit "request hash must be 32 bytes"
request_hash_error_text (invalid_hex message) = lit "invalid request hash hex: " ++ message
request_hash_error_text (canonicalization message) =
    lit "failed to canonicalize request payload: " ++ message

-- `trim_start` and `trim_end`
unfoldable pub trim_start : (ℕ → Bool) → Text → Text
trim_start space [] = []
trim_start space (c ∷ s) = let rest = trim_start space s in if space c then rest else c ∷ s

unfoldable pub trim_end : (ℕ → Bool) → Text → Text
trim_end space [] = []
trim_end space (c ∷ s) =
    let rest = trim_end space s in
    elim rest [ [] ↦ if space c then [] else c ∷ [] | d ∷ ds ↦ c ∷ d ∷ ds ]

module _ (h : Host) where
  -- `internal_api_error`
  unfoldable pub internal_api_error : DatabaseError → ApiError
  internal_api_error error =
      api_error internal (lit "registry database error: " ++ h.database_error error)

  unfoldable pub id_error_text : Text → IdError → Text
  id_error_text value invalid_uuid = lit "invalid UUID: " ++ h.uuid_error value
  id_error_text value not_uuid_v7 = lit "Denju mutable IDs must be UUIDv7"

  unfoldable pub trim : Text → Text
  unfolding trim_start trim_end
  trim s = trim_end h.is_whitespace (trim_start h.is_whitespace s)

  unfoldable pub parse_operation : Text → Result ApiError Id7
  unfolding id_error_text
  parse_operation value =
      map_err (λ e. api_error invalid_request (id_error_text value e))
        (id_from_str h.parse_str value)

  unfoldable pub parse_hash : Text → Result ApiError RequestHash
  unfolding request_hash_error_text
  parse_hash value =
      map_err (λ e. api_error invalid_request_hash (request_hash_error_text e))
        (request_hash_from_str h.crates value)

  unfoldable pub parse_uuid : Text → Text → Result ApiError Bytes
  parse_uuid value what = elim (h.parse_str value) [
    | none ↦ err (api_error invalid_request (what ++ (lit ": " ++ h.uuid_error value)))
    | some uuid ↦ ok uuid
  ]

-- `next_generation`: a generation is a positive `BIGINT`.
unfoldable pub next_generation : ℕ → Result ApiError ℕ
next_generation value =
    if ltb (value + 1) (2 ^ 63)
    then ok (value + 1)
    else err (api_error internal (lit "resource generation overflow"))

-- `invalid_credentials`
unfoldable pub invalid_credentials : ApiError
invalid_credentials = api_error unauthorized (lit "invalid identity credential")
