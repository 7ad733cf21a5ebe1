-- ===== src/Core/Object/Revisions.antt =====
-- Revisions with at most two parents (crates/denju-core/src/object.rs).
use denju.Base.{Bool, false, ◌||◌, List, [], ◌∷◌, ◌++◌, ltb, ◌==◌, text_Eq}
use denju.Base.{Bytes, lit, length, Ordering, text_cmp, sort_by, Result, ok, ◌>>◌, reject}
use denju.Core.Ids.{Id7}
use denju.Core.Object.Tree.{Digest, ObjectId, be32}

pub data RevisionError : Type 0 where
  too_many_parents duplicate_parent : RevisionError

pub record Revision : Type 0 where
  pub root : ObjectId
  pub parents : List ObjectId
  pub author : Id7
  pub operation : Id7

abbrev pub parent_cmp : ObjectId → ObjectId → Ordering
parent_cmp a b = text_cmp a.bytes b.bytes

-- `windows(2).any(|pair| pair[0] == pair[1])`
unfoldable pub has_repeat : List ObjectId → Bool
has_repeat [] = false
has_repeat (a ∷ []) = false
has_repeat (a ∷ b ∷ rest) = a.bytes == b.bytes || has_repeat (b ∷ rest)

-- `Revision::new`
unfoldable pub new_revision : ObjectId → List ObjectId → Id7 → Id7 → Result RevisionError Revision
new_revision root parents author operation = do
  reject (ltb 2 (length parents)) too_many_parents
  let sorted = sort_by parent_cmp parents
  reject (has_repeat sorted) duplicate_parent
  ok (record { root = root; parents = sorted; author = author; operation = operation })

abbrev pub revision_domain : Bytes
revision_domain = lit "denju:revision:v1" ++ 0 ∷ []

unfoldable pub concat_ids : List ObjectId → Bytes
concat_ids [] = []
concat_ids (id ∷ rest) = id.bytes ++ concat_ids rest

-- All that `Revision::id` feeds to the hash.
unfoldable pub revision_transcript : Revision → Bytes
revision_transcript r =
    revision_domain
    ++ (r.root.bytes
        ++ (be32 (length r.parents)
            ++ (concat_ids r.parents ++ (r.author.bytes ++ r.operation.bytes))))

-- `Revision::id`
unfoldable pub revision_id : Digest → Revision → ObjectId
revision_id digest r = record { bytes = digest (revision_transcript r) }
