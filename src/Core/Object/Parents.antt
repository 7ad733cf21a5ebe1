-- ===== src/Core/Object/Parents.antt =====
-- The parents of a revision (crates/denju-core/src/object.rs).

use mathlib.Core.List.{Perm}
use denju.Base.{◌≡◌, refl, sym, ap, ◌∙◌, arith, List, [], ◌∷◌}
use denju.Base.{
  length, length-sort_by, sort_by, sort_by-Perm, by_key-IsLawful, text_cmp-IsLawful,
  text_cmp-Separates, text_discrete, IsLawful, Separates,
}
use denju.Base.{
  Bytes, ok, contains, IsDistinct, IsSorted, IsSorted-sort_by, Perm-sort_by, ◌≤◌, false, eq-cases,
  text_Eq,
}
use denju.Core.Ids.{Id7}
use denju.Core.Object.Tree.{ObjectId}
use denju.Core.Object.Revisions.{has_repeat, Revision, new_revision, parent_cmp}

parent_cmp-IsLawful : IsLawful parent_cmp
parent_cmp-IsLawful = by_key-IsLawful (λ (i : ObjectId). i.bytes) text_cmp-IsLawful

parent_cmp-Separates : Separates parent_cmp
parent_cmp-Separates a b h =
    ap (λ bytes. record { bytes = bytes }) (text_cmp-Separates a.bytes b.bytes h)

ObjectId-discrete : Discrete ObjectId
ObjectId-discrete = hlevel text_discrete

-- Whether a revision is made, the error otherwise, and the revision do not depend on the order in
-- which its parents are given.
pub new_revision-Perm :
    (root : ObjectId) (ps qs : List ObjectId) (author operation : Id7)
    → Perm ps qs
    → new_revision root ps author operation ≡ new_revision root qs author operation
unfolding new_revision
new_revision-Perm root ps qs author operation p =
    let e = sort_by-Perm parent_cmp-IsLawful parent_cmp-Separates ObjectId-discrete p in
    let l : length ps ≡ length qs =
      sym (length-sort_by parent_cmp ps) ∙ ap length e ∙ length-sort_by parent_cmp qs in
    rw (e, l) refl

abbrev pub parent_bytes : List ObjectId → List Bytes
parent_bytes [] = []
parent_bytes (i ∷ is) = i.bytes ∷ parent_bytes is

has_repeat-IsDistinct :
    (ps : List ObjectId) → length ps ≤ 2 → has_repeat ps ≡ false → IsDistinct (parent_bytes ps)
unfolding has_repeat contains
has_repeat-IsDistinct [] h r = tt
has_repeat-IsDistinct (a ∷ []) h r = (refl, tt)
has_repeat-IsDistinct (a ∷ b ∷ []) h r =
    (ground (arith, eq-cases a.bytes b.bytes, eq-cases b.bytes a.bytes), (refl, tt))
has_repeat-IsDistinct (a ∷ b ∷ c ∷ ps) h r = absurd (omega arith)

new_revision-parts :
    (root : ObjectId) (ps : List ObjectId) (author operation : Id7) (r : Revision)
    → new_revision root ps author operation ≡ ok r
    → (length ps ≤ 2)
      × (has_repeat (sort_by parent_cmp ps) ≡ false)
      × (sort_by parent_cmp ps ≡ r.parents)
unfolding new_revision
new_revision-parts root ps author operation r h = (ground arith, ground arith, ground arith)

-- A revision that is made has the given parents in ascending order, at most two, and not the same
-- parent twice.
pub new_revision-IsSorted :
    (root : ObjectId) (ps : List ObjectId) (author operation : Id7) (r : Revision)
    → new_revision root ps author operation ≡ ok r
    → Perm r.parents ps
      × IsSorted parent_cmp r.parents
      × (length r.parents ≤ 2)
      × IsDistinct (parent_bytes r.parents)
new_revision-IsSorted root ps author operation r h =
    let (few, apart, same) = new_revision-parts root ps author operation r h in
    let short : length (sort_by parent_cmp ps) ≤ 2 = omega (arith, length-sort_by parent_cmp ps) in
    rw (sym same) (
      Perm-sort_by parent_cmp ps,
      IsSorted-sort_by parent_cmp-IsLawful ps,
      short,
      has_repeat-IsDistinct (sort_by parent_cmp ps) short apart,
    )
