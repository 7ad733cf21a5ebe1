-- ===== src/Registry/Social/Replay.antt =====
-- A recorded operation: what is found of it later, and that nothing is done twice under its identity.
use mathlib.Core.Path.{subst}
use denju.Base.{◌≡◌, sym, ap, ◌∙◌, Bool, true, List, [], ◌∷◌, ◌++◌}
use denju.Base.{Option, none, some, Bytes, Result, ok, >>=-eq-ok, Result-cases}
use denju.Base.{arith, Option-cases, inl, inr, ◌⊎◌, eq_refl, text_Eq}
use denju.Wire.Json.{Json}
use denju.Registry.Api.{ApiError, Host}
use denju.Registry.Tables.{Tables, OperationRow, first, is_operation}
use denju.Registry.Access.{UserAuthority}
use denju.Registry.Social.Responses.{SocialResponse, to_value}
use denju.Registry.Social.Operations.{
  Operation, row_of, lock_live_social_user, replay_social_operation, record_social_operation,
  in_operation, unless_replayed,
}
use denju.Registry.Social.Prepared.{Body, reader, change}
use denju.Registry.Social.Kept.{change-social_operations, change-read, change-lock}

first-append :
    {A : Type 0} (p : A → Bool) (xs : List A) (x : A)
    → first p xs ≡ none
    → p x ≡ true
    → first p (xs ++ x ∷ []) ≡ some x
unfolding first
first-append p [] x h e = ground arith
first-append p (y ∷ ys) x h e = ground (arith, first-append p ys x)

-- The operation is recorded in the tables.
abbrev pub IsDone : Operation → Tables → Type 0
IsDone o t =
    (row : OperationRow) × (first (is_operation o.user_id o.operation_id) t.social_operations
      ≡ some row)

record-users :
    (h : Host) (o : Operation) (t done : Tables) (outcome : SocialResponse)
    → record_social_operation h o outcome t ≡ ok done
    → done.users ≡ t.users
unfolding record_social_operation
record-users h o t done outcome e = ground arith

pub lock-users :
    (user : Bytes) (t done : Tables)
    → done.users ≡ t.users
    → lock_live_social_user user t ≡ ok tt
    → lock_live_social_user user done ≡ ok tt
unfolding lock_live_social_user
lock-users user t done e locked = rw e locked

module _ (h : Host) (read : Json → Result Json SocialResponse) (o : Operation) where
  replay_new :
      (t : Tables)
      → replay_social_operation h read o t ≡ ok none
      → first (is_operation o.user_id o.operation_id) t.social_operations ≡ none
  unfolding replay_social_operation
  replay_new t e =
      ground
        (arith, Option-cases (first (is_operation o.user_id o.operation_id) t.social_operations))

  replay-IsDone :
      (t : Tables) (outcome : SocialResponse)
      → replay_social_operation h read o t ≡ ok (some outcome)
      → IsDone o t
  unfolding replay_social_operation
  replay-IsDone t outcome e =
      elim (Option-cases (first (is_operation o.user_id o.operation_id) t.social_operations)) [
        | inl none_found ↦ absurd (ground arith)
        | inr found ↦ found
      ]

  -- The record of a new operation is what a later lookup finds.
  record-first :
      (t done : Tables) (outcome : SocialResponse)
      → first (is_operation o.user_id o.operation_id) t.social_operations ≡ none
      → record_social_operation h o outcome t ≡ ok done
      → first (is_operation o.user_id o.operation_id) done.social_operations
        ≡ some (row_of o outcome)
  unfolding record_social_operation
  record-first t done outcome new e =
      let appended : done.social_operations ≡ t.social_operations ++ row_of o outcome ∷ [] =
        ground arith in
      rw appended (
        first-append (is_operation o.user_id o.operation_id) t.social_operations (row_of o outcome)
          new (ground (arith, eq_refl o.user_id, eq_refl o.operation_id)))

  replay_recorded :
      (t : Tables) (outcome : SocialResponse)
      → first (is_operation o.user_id o.operation_id) t.social_operations ≡ some (row_of o outcome)
      → read (to_value outcome) ≡ ok outcome
      → replay_social_operation h read o t ≡ ok (some outcome)
  unfolding replay_social_operation
  replay_recorded t outcome found back =
      ground (arith, back, eq_refl o.request_hash.bytes, eq_refl o.kind)

-- A transaction that succeeds finds its outcome recorded, or makes its change and records it.
pub in_operation-cases :
    (h : Host) (read : Json → Result Json SocialResponse) (o : Operation)
    (change : Tables → Result ApiError (Tables × SocialResponse)) (t done : Tables)
    (r : SocialResponse)
    → in_operation h read o change t ≡ ok (done, r)
    → (done ≡ t)
      ⊎ ((changed : Tables) × (change t ≡ ok (changed, r))
          × (done ≡ record changed {
            social_operations = changed.social_operations ++ row_of o r ∷ [];
          }))
unfolding in_operation unless_replayed record_social_operation
in_operation-cases h read o change t done r e = elim (Result-cases (change t)) [
  | inl ((changed, outcome), made) ↦ elim (Result-cases (replay_social_operation h read o t)) [
    | inl (some found, was) ↦ inl (ground arith)
    | inl (none, was) ↦
        let same : outcome ≡ r = ground arith in
        inr (changed, made ∙ ap (λ x. ok (changed, x)) same, ground arith)
    | inr (failure, failed) ↦ absurd (ground arith)
  ]
  | inr (failure, failed) ↦ inl (ground arith)
]

module _ (h : Host) (authority : UserAuthority) where
  replayed_result :
      (o : Operation) (b : Body) (t : Tables) (r : SocialResponse)
      → lock_live_social_user o.user_id t ≡ ok tt
      → replay_social_operation h (reader b) o t ≡ ok (some r)
      → in_operation h (reader b) o (change h authority b) t ≡ ok (t, r)
  unfolding in_operation unless_replayed
  replayed_result o b t r locked was = rw (locked, was)

  -- Whatever is asked under the identity of a recorded operation, the tables stay.
  pub done-keeps :
      (o other : Operation) (b : Body) (t done : Tables) (r : SocialResponse)
      → IsDone o t
      → other.user_id ≡ o.user_id
      → other.operation_id ≡ o.operation_id
      → in_operation h (reader b) other (change h authority b) t ≡ ok (done, r)
      → done ≡ t
  unfolding in_operation replay_social_operation unless_replayed
  done-keeps o other b t done r (row, found) u i e =
      let found_again : first (is_operation other.user_id other.operation_id) t.social_operations
          ≡ some row =
        rw (u, i) found in
      ground arith

  -- After a success its operation is recorded, and the same operation has the same response.
  pub transact-again :
      (o : Operation) (b again : Body) (t done : Tables) (r : SocialResponse)
      → reader b ≡ reader again
      → in_operation h (reader b) o (change h authority b) t ≡ ok (done, r)
      → IsDone o done
        × (in_operation h (reader again) o (change h authority again) done ≡ ok (done, r))
  unfolding in_operation unless_replayed
  transact-again o b again t done r same e =
      let (_, locked, e1) = >>=-eq-ok (lock_live_social_user o.user_id t) _ e in
      let (replayed, was, e2) = >>=-eq-ok (replay_social_operation h (reader b) o t) _ e1 in
      split locked replayed was e2
    where
      split :
          lock_live_social_user o.user_id t ≡ ok tt
          → (replayed : Option SocialResponse)
          → replay_social_operation h (reader b) o t ≡ ok replayed
          → unless_replayed h o (change h authority b) t replayed ≡ ok (done, r)
          → IsDone o done
            × (in_operation h (reader again) o (change h authority again) done ≡ ok (done, r))
      split locked (some outcome) was e2 =
          let same_tables : t ≡ done = cc e2 in
          let same_outcome : outcome ≡ r = cc e2 in
          (
            subst (IsDone o) same_tables (replay-IsDone h (reader b) o t outcome was),
            replayed_result o again done r (rw (sym same_tables) locked)
                (rw (sym same_tables, sym same_outcome, sym same) was),
          )
      split locked none was e2 =
          let ((changed, outcome), made, e3) = >>=-eq-ok (change h authority b t) _ e2 in
          let (written, noted, e4) = >>=-eq-ok (record_social_operation h o outcome changed) _ e3 in
          let new : first (is_operation o.user_id o.operation_id) changed.social_operations ≡ none =
            rw (change-social_operations h authority b t changed outcome made)
              (replay_new h (reader b) o t was) in
          let found = record-first h (reader b) o changed written outcome new noted in
          let same_tables : written ≡ done = cc e4 in
          let same_outcome : outcome ≡ r = cc e4 in
          let same_users : written.users ≡ changed.users =
            record-users h o changed written outcome noted in
          let locked_again : lock_live_social_user o.user_id written ≡ ok tt =
            lock-users o.user_id changed written same_users
              (change-lock h authority o.user_id b t changed outcome made ∙ locked) in
          let back = change-read h authority b t changed outcome made in
          let replays = replay_recorded h (reader b) o written outcome found back in
          (
            subst (IsDone o) same_tables (row_of o outcome, found),
            replayed_result o again done r (rw (sym same_tables) locked_again)
                (rw (sym same_tables, sym same_outcome, sym same) replays),
          )
