-- ===== src/Core/Ids.antt =====
-- crates/denju-core/src/ids.rs: mutable identities (UUIDv7) and generations. A UUID is its sixteen
-- bytes; the parser of the crate `uuid` is a parameter.
use denju.Base.{ℕ, ◌+◌, ◌/◌, ◌^◌, Option, none, some, ◌∷◌}
use denju.Base.{if◌then◌else◌, nat_eq, ltb, Text, Bytes, Result, ok, err, ◌>>=◌, ok_or}

pub data IdError : Type 0 where
  invalid_uuid not_uuid_v7 : IdError

-- `Uuid::get_version_num`: the high half of the seventh byte.
unfoldable pub version_num : Bytes → ℕ
version_num (a ∷ b ∷ c ∷ d ∷ e ∷ f ∷ g ∷ rest) = g / 16
version_num _ = 0

-- `ResourceId`, `NamespaceId`, `AuthorPrincipalId` and `OperationId` are four copies of one type.
pub record Id7 : Type 0 where
  pub bytes : Bytes

unfoldable pub from_uuid : Bytes → Result IdError Id7
from_uuid value =
    if nat_eq (version_num value) 7 then ok (record { bytes = value }) else err not_uuid_v7

-- `FromStr`, over `Uuid::parse_str`.
unfoldable pub id_from_str : (Text → Option Bytes) → Text → Result IdError Id7
id_from_str parse_str value = do uuid ← ok_or (parse_str value) invalid_uuid; from_uuid uuid

-- `Generation(u64)`
pub record Generation : Type 0 where
  pub value : ℕ

unfoldable pub checked_next : Generation → Option Generation
checked_next g = if ltb (g.value + 1) (2 ^ 64) then some (record { value = g.value + 1 }) else none
