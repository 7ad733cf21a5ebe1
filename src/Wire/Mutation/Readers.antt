-- ===== src/Wire/Mutation/Readers.antt =====
-- The request that a domain and a canonical payload were made of
-- (crates/denju-wire/src/mutation.rs).
use native.Mathlib.Decide.{ℕ_discrete}
use denju.Base.{◌≡◌, true, Option, none, some, ◌++◌, Bytes, ◌==◌, text_discrete, list_cmp}
use denju.Wire.Json.{struct, members_of, insert_member, field, find}
use denju.Wire.Mutation.Domain.{lifecycle_resource_request}
use denju.Base.Strings.Map
use denju.Wire.Json.{Json, normal}
use denju.Wire.Hash.{Crates}
use denju.Wire.Mutation.Request.{Request, hash_input, bound}
use denju.Wire.Mutation.Read.Terminated.{is_terminated}
mod Account
mod Skill
mod Pack
mod Team
unfoldable pub use Account.*
unfoldable pub use Skill.*
unfoldable pub use Pack.*
unfoldable pub use Team.*

unfoldable pub apply : Option (Json → Request) → Json → Option Request
apply none j = none
apply (some f) j = some (f j)

unfoldable pub read : Bytes → Json → Option Request
read domain j =
    apply (Map.get domain (account_readers ++ (skill_readers ++ (pack_readers ++ team_readers)))) j

-- What is hashed of a request ends its domain with the only zero byte of the domain, and is read
-- back as what the hash binds.
unfoldable pub IsRead : Crates → Request → Type 0
unfolding read apply account_readers skill_readers pack_readers team_readers Map.get hash_input
    bound is_terminated normal struct members_of insert_member list_cmp field find ◌==◌
    text_discrete ℕ_discrete lifecycle_resource_request
IsRead c r =
    (is_terminated (hash_input c r).domain ≡ true)
    × (read (hash_input c r).domain (normal (hash_input c r).payload) ≡ some (bound c r))
