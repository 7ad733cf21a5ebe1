-- ===== src/Wire/Mutation/Domain.antt =====
-- The domains of request hashes (the constants of crates/denju-wire/src/mutation.rs), each of which
-- ends with a zero byte.
use denju.Base.{ℕ, ◌∷◌, [], ◌++◌, Text, Bytes, lit}
use denju.Wire.Json.{number, string, struct}
use denju.Wire.Hash.{HashInput}

abbrev pub http_domain : Text → Bytes
http_domain name = lit "denju:http:v1:" ++ (name ++ 0 ∷ [])

-- `lifecycle_resource_hash`
unfoldable pub lifecycle_resource_request : Bytes → Text → Text → ℕ → HashInput
lifecycle_resource_request domain operation_id resource_id expected_generation = record {
  domain = domain;
  payload = struct (
      (lit "operation_id", string operation_id)
      ∷ (lit "resource_id", string resource_id)
      ∷ (lit "expected_generation", number expected_generation)
      ∷ []);
}
