-- ===== src/Wire/Hash.antt =====
-- `RequestHash` and `hash_payload` (crates/denju-wire/src/mutation.rs). The crates
-- `serde_json_canonicalizer`, `sha2` and `hex` are parameters.
use denju.Base.{◌≡◌, true, not, ◌++◌}
use denju.Base.{nat_eq, Text, Bytes, length, Result, ok, ◌>>=◌, ◌>>◌, map_err, reject}
use denju.Wire.Json.{Json, normal, is_exact}

-- `serde_json_canonicalizer::to_vec`, `Sha256::digest`, `hex::encode` and `hex::decode`; an error is
-- its message.
pub record Crates : Type 0 where
  pub to_vec : Json → Result Text Bytes
  pub digest : Bytes → Bytes
  pub encode : Bytes → Text
  pub decode : Text → Result Text Bytes

-- The contract of `to_vec`: of values with exact numbers, only those that differ in the order of
-- members share a canonical form.
pub record IsCanonical (to_vec : Json → Result Text Bytes) : Type 0 where
  pub injective :
      (a b : Json) (bytes : Bytes)
      → is_exact a ≡ true
      → is_exact b ≡ true
      → to_vec a ≡ ok bytes
      → to_vec b ≡ ok bytes
      → normal a ≡ normal b

pub record RequestHash : Type 0 where
  pub bytes : Bytes

pub data RequestHashError : Type 0 where
  invalid_length : RequestHashError
  invalid_hex : Text → RequestHashError
  canonicalization : Text → RequestHashError

-- What a function of the source feeds to the hash: a domain, and the value to be serialized.
pub record HashInput : Type 0 where
  pub domain : Bytes
  pub payload : Json

module _ (c : Crates) where
  -- `Display`
  unfoldable pub display_hash : RequestHash → Text
  display_hash hash = c.encode hash.bytes

  -- `FromStr`
  unfoldable pub request_hash_from_str : Text → Result RequestHashError RequestHash
  request_hash_from_str value = do
    bytes ← map_err invalid_hex (c.decode value)
    reject (not (nat_eq (length bytes) 32)) invalid_length
    ok (record { bytes = bytes })

  -- `hash_payload`, and the same steps where a function writes them out.
  unfoldable pub hash_payload : HashInput → Result RequestHashError RequestHash
  hash_payload input = do
    canonical ← map_err canonicalization (c.to_vec input.payload)
    ok (record { bytes = c.digest (input.domain ++ canonical) })
