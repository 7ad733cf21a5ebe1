-- ===== src/Core/Object/Tree.antt =====
-- Tree entries, their transcript and the identity of a tree (crates/denju-core/src/object.rs).

use denju.Base.{ℕ, ◌/◌, ◌%◌, ◌^◌, Bool, true, false, not, Option, List, [], ◌∷◌, ◌++◌}
use denju.Base.{if◌then◌else◌, ltb, nat_eq, ◌==◌, text_Eq, Text, Bytes, lit, length, to_utf8}
use denju.Base.{Ordering, text_cmp, sort_by, Result, ok, err, ◌>>=◌, ◌>>◌, map_err, reject, ok_or}
use denju.Core.Unicode.{Unicode}
use denju.Core.PortablePath.{PortablePathError, parse, component_count}

-- `Sha256::digest`
abbrev pub Digest : Type 0
Digest = Bytes → Bytes

-- `BlobId`, `TreeId` and `RevisionId` are their 32 bytes.
pub record ObjectId : Type 0 where
  pub bytes : Bytes

pub data ObjectIdError : Type 0 where
  invalid_hex : ObjectIdError
  invalid_length : ℕ → ObjectIdError

-- `FromStr`, over `hex::decode`.
unfoldable pub object_id_from_str : (Text → Option Bytes) → Text → Result ObjectIdError ObjectId
object_id_from_str decode value = do
  bytes ← ok_or (decode value) invalid_hex
  reject (not (nat_eq (length bytes) 32)) (invalid_length (length bytes))
  ok (record { bytes = bytes })

-- `BlobId::hash`
unfoldable pub blob_id : Digest → Bytes → ObjectId
blob_id digest bytes = record { bytes = digest bytes }

pub data TreeEntryKind : Type 0 where
  file : ObjectId → Bool → TreeEntryKind
  directory : ObjectId → TreeEntryKind
  symlink : Text → TreeEntryKind

pub record TreeEntry : Type 0 where
  pub name : Text
  pub kind : TreeEntryKind

pub data TreeError : Type 0 where
  invalid_name : PortablePathError → TreeError
  nested_name too_many_entries entry_too_large name_too_large symlink_target_too_large : TreeError
  duplicate_name : Text → TreeError

-- `TreeEntry::new`
unfoldable pub tree_entry : Unicode → Text → TreeEntryKind → Result TreeError TreeEntry
tree_entry u name kind = do
  path ← map_err invalid_name (parse u name)
  reject (not (nat_eq (component_count path) 1)) nested_name
  ok (record { name = name; kind = kind })

abbrev pub u32_bound : ℕ
u32_bound = 2 ^ 32

-- `u32::to_be_bytes`
unfoldable pub be32 : ℕ → Bytes
be32 n = (n / 2 ^ 24) ∷ (n / 2 ^ 16 % 256) ∷ (n / 2 ^ 8 % 256) ∷ (n % 256) ∷ []

-- `u32::try_from(len)` and its big-endian bytes.
unfoldable pub length_field : ℕ → TreeError → Result TreeError Bytes
length_field n e = if ltb n u32_bound then ok (be32 n) else err e

abbrev pub flag : Bool → ℕ
flag true = 1
flag false = 0

unfoldable pub encode_kind : TreeEntryKind → Result TreeError Bytes
encode_kind (file blob executable) = ok (1 ∷ flag executable ∷ blob.bytes)
encode_kind (directory tree) = ok (2 ∷ tree.bytes)
encode_kind (symlink target) = do
  target_len ← length_field (length (to_utf8 target)) symlink_target_too_large
  ok (3 ∷ target_len ++ to_utf8 target)

unfoldable pub encode_tree_entry : TreeEntry → Result TreeError Bytes
encode_tree_entry entry = do
  name_len ← length_field (length (to_utf8 entry.name)) name_too_large
  kind ← encode_kind entry.kind
  ok (name_len ++ (to_utf8 entry.name ++ kind))

-- The loop over `entries.windows(2)`.
unfoldable pub check_names : List TreeEntry → Result TreeError Unit
check_names [] = ok tt
check_names (a ∷ []) = ok tt
check_names (a ∷ b ∷ rest) =
    let later = check_names (b ∷ rest) in
    if a.name == b.name then err (duplicate_name a.name) else later

unfoldable pub encode_entries : List TreeEntry → Result TreeError Bytes
encode_entries [] = ok []
encode_entries (entry ∷ rest) = do
  payload ← encode_tree_entry entry
  payload_len ← length_field (length payload) entry_too_large
  later ← encode_entries rest
  ok (payload_len ++ (payload ++ later))

abbrev pub tree_domain : Bytes
tree_domain = lit "denju:tree:v1" ++ 0 ∷ []

abbrev pub name_cmp : TreeEntry → TreeEntry → Ordering
name_cmp left right = text_cmp left.name right.name

-- All that `TreeId::from_entries` feeds to the hash.
unfoldable pub tree_transcript : List TreeEntry → Result TreeError Bytes
tree_transcript unsorted = do
  let entries = sort_by name_cmp unsorted
  check_names entries
  entry_count ← length_field (length entries) too_many_entries
  payloads ← encode_entries entries
  ok (tree_domain ++ (entry_count ++ payloads))

-- `TreeId::from_entries`
unfoldable pub tree_id : Digest → List TreeEntry → Result TreeError ObjectId
tree_id digest entries = do
  transcript ← tree_transcript entries
  ok (record { bytes = digest transcript })
