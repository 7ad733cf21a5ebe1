-- ===== src/Registry/Social/Later.antt =====
-- What later calls leave of a recorded operation: its row, and the user who may ask for it again.
use mathlib.Core.Path.{subst}
use denju.Base.{◌≡◌, refl, sym, ap, ◌∙◌, Bool, List, [], ◌∷◌, ◌++◌, some, Result}
use denju.Base.{ok, err, >>=-eq-ok, inl, inr, arith}
use denju.Wire.Json.{Json}
use denju.Registry.Api.{ApiError, Host}
use denju.Registry.Tables.{Tables, OperationRow, first, is_operation}
use denju.Registry.Access.{UserAuthority}
use denju.Registry.Social.Responses.{SocialResponse}
use denju.Registry.Social.Operations.{
  Operation, row_of, commit, lock_live_social_user, replay_social_operation, in_operation,
  unless_replayed,
}
use denju.Registry.Social.Calls.{SocialCall, handle, serve, serve_all}
use denju.Registry.Social.Prepared.{Body, reader, change, prepare, transact, handle-prepare}
use denju.Registry.Social.Kept.{change-social_operations, change-lock}
use denju.Registry.Social.Replay.{in_operation-cases, lock-users}

first_keeps :
    {A : Type 0} (p : A → Bool) (xs ys : List A) (x : A)
    → first p xs ≡ some x
    → first p (xs ++ ys) ≡ some x
unfolding first
first_keeps p [] ys x e = cc e
first_keeps p (y ∷ xs) ys x e = ground (arith, first_keeps p xs ys x)

-- The tables have the row for an operation of a user, and the user is live.
abbrev pub HasRow : Operation → OperationRow → Tables → Type 0
HasRow o row t =
    (first (is_operation o.user_id o.operation_id) t.social_operations ≡ some row)
    × (lock_live_social_user o.user_id t ≡ ok tt)

module _ (h : Host) (o : Operation) (row : OperationRow) where
  transact-HasRow :
      (authority : UserAuthority) (other : Operation) (b : Body) (t done : Tables)
      (r : SocialResponse)
      → transact h authority (other, b) t ≡ ok (done, r)
      → HasRow o row t
      → HasRow o row done
  transact-HasRow authority other b t done r e (found, live) =
      elim (in_operation-cases h (reader b) other (change h authority b) t done r e) [
        | inl same ↦ subst (HasRow o row) (sym same) (found, live)
        | inr (changed, made, same) ↦
            let rows : changed.social_operations ≡ t.social_operations =
              change-social_operations h authority b t changed r made in
            let found_again : first (is_operation o.user_id o.operation_id)
                  changed.social_operations
                ≡ some row =
              rw rows found in
            let live_again : lock_live_social_user o.user_id changed ≡ ok tt =
              change-lock h authority o.user_id b t changed r made ∙ live in
            let appended : done.social_operations
                ≡ changed.social_operations ++ row_of other r ∷ [] =
              ap (λ u. u.social_operations) same in
            let same_users : done.users ≡ changed.users = ap (λ u. u.users) same in
            (
              rw appended (
                  first_keeps (is_operation o.user_id o.operation_id) changed.social_operations
                    (row_of other r ∷ []) row found_again),
              lock-users o.user_id changed done same_users live_again,
            )
      ]

  serve-HasRow :
      (authority : UserAuthority) (call : SocialCall) (t : Tables)
      → HasRow o row t
      → HasRow o row (serve h authority call t).0
  unfolding serve commit
  serve-HasRow authority call t before = split (handle h authority call t) refl
    where
      split :
          (result : Result ApiError (Tables × SocialResponse))
          → handle h authority call t ≡ result
          → HasRow o row (commit t result).0
      split (err e) ran = before
      split (ok (done, r)) ran =
          let ((other, b), prepared, transacted) =
            >>=-eq-ok (prepare h authority call) _
              (sym (handle-prepare h authority call t) ∙ ran) in
          transact-HasRow authority other b t done r transacted before

  pub serve_all-HasRow :
      (calls : List (UserAuthority × SocialCall)) (t : Tables)
      → HasRow o row t
      → HasRow o row (serve_all h calls t)
  unfolding serve_all
  serve_all-HasRow [] t before = before
  serve_all-HasRow ((authority, call) ∷ rest) t before =
      serve_all-HasRow rest (serve h authority call t).0 (serve-HasRow authority call t before)

-- Where the row of the operation is the same, so is the answer to it.
pub in_operation_later :
    (h : Host) (read : Json → Result Json SocialResponse) (o : Operation) (row : OperationRow)
    (change : Tables → Result ApiError (Tables × SocialResponse)) (t later : Tables)
    (r : SocialResponse)
    → HasRow o row t
    → HasRow o row later
    → in_operation h read o change t ≡ ok (t, r)
    → in_operation h read o change later ≡ ok (later, r)
unfolding in_operation replay_social_operation unless_replayed
in_operation_later h read o row change t later r (found, live) (found_later, live_later) e =
    ground arith
