-- ===== src/Registry/Social/Stars.antt =====
-- The star count of a resource is the number of its star rows, and what a star call makes of them.
use denju.Base.{ℕ, ◌+◌, ◌≡◌, refl, ap, Bool, false, List, [], ◌∷◌, ◌++◌}
use denju.Base.{Bytes, any, All, arith, inl, inr}
use denju.Base.{◌==◌, text_Eq, eq-cases, if◌then◌else◌}
use denju.Wire.Mutation.Account.{StarMutationKind}
use denju.Registry.Tables.{
  Tables, ResourceRow, StarRow, count_where, delete_where, update_where, is_star, is_star_of,
  has_id,
}
use denju.Registry.Social.Statements.{change_star, insert_star, set_star_count}

-- The number of star rows of a resource.
abbrev pub star_rows : List StarRow → Bytes → ℕ
star_rows rows resource_id = count_where (is_star_of resource_id) rows

abbrev pub IsCounted : List StarRow → List ResourceRow → Type 0
IsCounted rows resources = All (λ r. r.star_count ≡ star_rows rows r.id) resources

abbrev pub StarCounts : Tables → Type 0
StarCounts t = IsCounted t.resource_stars t.resources

count_where-append :
    {A : Type 0} (p : A → Bool) (xs : List A) (x : A)
    → count_where p (xs ++ x ∷ []) ≡ (if p x then count_where p xs + 1 else count_where p xs)
unfolding count_where
count_where-append p [] x = ground arith
count_where-append p (y ∷ ys) x = ground (arith, count_where-append p ys x)

delete_other :
    (user resource other : Bytes) (rows : List StarRow)
    → (other == resource) ≡ false
    → star_rows (delete_where (is_star user resource) rows) other ≡ star_rows rows other
unfolding count_where delete_where
delete_other user resource other [] h = refl
delete_other user resource other (row ∷ rows) h = ground (
  arith,
  delete_other user resource other rows h,
  eq-cases row.resource_id resource,
  eq-cases row.resource_id other,
  eq-cases other resource,
)

delete_none :
    (user resource : Bytes) (rows : List StarRow)
    → any (is_star user resource) rows ≡ false
    → delete_where (is_star user resource) rows ≡ rows
unfolding any delete_where
delete_none user resource [] h = refl
delete_none user resource (row ∷ rows) h = ground (arith, delete_none user resource rows)

-- The rows of other resources are not touched.
pub change_other :
    (kind : StarMutationKind) (user resource other : Bytes) (rows : List StarRow)
    → (other == resource) ≡ false
    → star_rows (change_star kind user resource rows).0 other ≡ star_rows rows other
unfolding change_star insert_star
change_other StarMutationKind.star user resource other rows h = ground (
  arith,
  count_where-append (is_star_of other) rows (record { user_id = user; resource_id = resource }),
  eq-cases other resource,
  eq-cases resource other,
)
change_other StarMutationKind.unstar user resource other rows h =
    delete_other user resource other rows h

-- A statement that touched no row leaves the rows as they were.
pub unchanged_rows :
    (kind : StarMutationKind) (user resource : Bytes) (rows : List StarRow)
    → (change_star kind user resource rows).1 ≡ false
    → (change_star kind user resource rows).0 ≡ rows
unfolding change_star insert_star
unchanged_rows StarMutationKind.star user resource rows h = ground arith
unchanged_rows StarMutationKind.unstar user resource rows h = delete_none user resource rows h

-- Counting again after a change.
pub recount :
    (resource : Bytes) (before after : List StarRow) (resources : List ResourceRow)
    → ((other : Bytes)
        → (other == resource) ≡ false
        → star_rows after other ≡ star_rows before other)
    → IsCounted before resources
    → IsCounted after
        (update_where (has_id resource) (set_star_count (star_rows after resource)) resources)
unfolding update_where
recount resource before after [] others counted = tt
recount resource before after (r ∷ rs) others counted = (
  elim (eq-cases r.id resource) [
    | inl c ↦ ground (arith, ap (star_rows after) (c.1))
    | inr c ↦ ground (arith, others r.id (c.0))
  ],
  recount resource before after rs others counted.1,
)
