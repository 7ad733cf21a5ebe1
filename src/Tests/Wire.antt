-- ===== src/Tests/Wire.antt =====
-- Request hashes at concrete requests.

use denju.Base.{true, ◌≡◌, ◌⊎◌, refl, lit, ok, [], ◌∷◌, ◌++◌, list_cmp}
use denju.Wire.Json.{Json, boolean, number, struct, members_of, normal, insert_member, is_exact}
use denju.Wire.Hash.{RequestHash, hash_payload}
use denju.Wire.Mutation.Account.{IdentityMutationDomain}
use denju.Wire.Mutation.Request.{Request, hash_input, bound, request_hash}
use denju.Wire.Mutation.Account
use denju.Wire.Mutation.Binding.{Collision, request_hash-binds}
use denju.Tests.Canonical.{plain, plain-IsCanonical, encode}

abbrev login : Json → Request
login payload = Request.identity_mutation IdentityMutationDomain.login (lit "op") payload

abbrev size_first : Json
size_first = struct ((lit "size", number 7) ∷ (lit "fresh", boolean true) ∷ [])

abbrev size_last : Json
size_last = struct ((lit "fresh", boolean true) ∷ (lit "size", number 7) ∷ [])

abbrev login_hash : RequestHash
login_hash = record {
  bytes = plain.digest (
      (hash_input plain (login size_first)).domain
      ++ encode (normal (hash_input plain (login size_first)).payload));
}

same_hash :
    (request_hash plain (login size_first) ≡ ok login_hash)
    × (request_hash plain (login size_last) ≡ ok login_hash)
unfolding request_hash hash_payload hash_input Account.identity_mutation_request struct members_of
    normal insert_member list_cmp encode
same_hash = (refl, refl)

exact :
    (is_exact (hash_input plain (login size_first)).payload ≡ true)
    × (is_exact (hash_input plain (login size_last)).payload ≡ true)
unfolding is_exact hash_input Account.identity_mutation_request struct members_of
exact = (refl, refl)

request_hash-binds_example :
    (bound plain (login size_first) ≡ bound plain (login size_last)) ⊎ Collision plain.digest
request_hash-binds_example =
    request_hash-binds plain plain-IsCanonical (login size_first) (login size_last) login_hash
      exact.0 exact.1 same_hash.0 same_hash.1
