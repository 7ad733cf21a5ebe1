-- ===== src/Registry/Social/Counts.antt =====
-- Every call keeps the star counts, and the response to a star call reports the count.
use mathlib.Core.Path.{subst}
use denju.Base.{ℕ, ◌≡◌, All, eq→≡, refl, sym, ap, ◌∙◌, Bool, true, false, not, ◌&&◌, List, [], ◌∷◌}
use denju.Base.{
  Bytes, Text, Result, ok, err, ok_or, >>=-eq-ok, Result-cases, arith, Option, none, some, inl, inr,
  Option-cases,
}
use denju.Base.{◌==◌, text_Eq, Bool-cases}
use denju.Registry.Api.{ApiError, Host, row_not_found, internal_api_error, next_generation}
use denju.Wire.Mutation.Account.{StarMutationKind}
use denju.Registry.Tables.{Tables, ResourceRow, StarRow, update_where, has_id, first}
use denju.Registry.Access.{UserAuthority}
use denju.Registry.Outbox.{enqueue_resource_wake, enqueue_wake_payload}
use denju.Registry.Social.Responses.{SocialResponse}
use denju.Registry.Social.Statements.{
  is_starring, change_star, refresh_resource_star_count, set_star_count,
}
use denju.Registry.Social.Operations.{Operation, commit}
use denju.Registry.Social.Handlers.{
  profile_change, follow_change, star_change, topics_change, report_change, count_stars,
}
use denju.Registry.Social.Calls.{SocialCall, handle, serve, serve_all}
use denju.Registry.Social.Prepared.{Body, reader, change, prepare, transact, handle-prepare}
use denju.Registry.Social.Replay.{in_operation-cases}
use denju.Registry.Social.Stars.{
  StarCounts, IsCounted, star_rows, recount, change_other, unchanged_rows,
}

IsCounted-after_topics :
    (rows : List StarRow) (resource_id : Bytes) (chosen : List Text) (next : ℕ)
    (resources : List ResourceRow)
    → IsCounted rows resources
    → IsCounted rows (
        update_where
          (has_id resource_id)
          (λ r. record r { discovery_topics = chosen; generation = next })
          resources)
unfolding update_where
IsCounted-after_topics rows resource_id chosen next [] counted = tt
IsCounted-after_topics rows resource_id chosen next (r ∷ rs) counted =
    (ground arith, IsCounted-after_topics rows resource_id chosen next rs counted.1)

-- Whether the resource is starred and how often, as a star response says it.
abbrev pub reported : SocialResponse → Option (Bool × ℕ)
reported (SocialResponse.stars r) = some (r.starred, r.star_count)
reported r = none

first-All :
    {A : Type 0} (p : A → Bool) (P : A → Type 0) (xs : List A) (x : A)
    → All P xs
    → first p xs ≡ some x
    → P x × (p x ≡ true)
unfolding first
first-All p P [] x a e = cc e
first-All p P (y ∷ ys) x a e = elim (Bool-cases (p y)) [
  | inl c ↦ let same : y ≡ x = ground arith in (subst P same a.0, rw (sym same) c)
  | inr c ↦ first-All p P ys x a.1 (ground arith)
]

module _ (h : Host) (authority : UserAuthority) where
  -- What `count_stars` makes of rows that differ from the counted ones only in one resource.
  count_stars-IsCounted :
      (changed : Bool) (resource_id : Bytes) (t counted : Tables) (after : List StarRow) (count : ℕ)
      → StarCounts t
      → ((other : Bytes)
          → (other == resource_id) ≡ false
          → star_rows after other ≡ star_rows t.resource_stars other)
      → (changed ≡ false → after ≡ t.resource_stars)
      → count_stars h authority changed resource_id (record t { resource_stars = after })
        ≡ ok (counted, count)
      → StarCounts counted
        × (counted.resource_stars ≡ after)
        × (count ≡ star_rows after resource_id)
  unfolding count_stars refresh_resource_star_count
  count_stars-IsCounted true resource_id t counted after count before others same e =
      let rows : counted.resource_stars ≡ after = ground arith in
      let resources : counted.resources
          ≡ update_where (has_id resource_id) (set_star_count (star_rows after resource_id))
              t.resources =
        ground arith in
      (
        rw (rows, resources) (recount resource_id t.resource_stars after t.resources others before),
        rows,
        ground arith,
      )
  count_stars-IsCounted false resource_id t counted after count before others same e =
      let (r, found, e2) =
        >>=-eq-ok
          (ok_or (first (has_id resource_id) t.resources) (internal_api_error h row_not_found)) _
          e in
      let row : first (has_id resource_id) t.resources ≡ some r = ground arith in
      let here = first-All (has_id resource_id) _ t.resources r before row in
      let rows : counted.resource_stars ≡ after = ground arith in
      let resources : counted.resources ≡ t.resources = ground arith in
      let stars_same : after ≡ t.resource_stars = same refl in
      (
        rw (rows, resources, stars_same) before,
        rows,
        rw stars_same (
            let count_same : count ≡ r.star_count = ground arith in
            count_same ∙ here.0 ∙ ap (star_rows t.resource_stars) (eq→≡ r.id resource_id here.1)),
      )

  -- A star call counts the rows that it leaves.
  pub star_change-counted :
      (kind : StarMutationKind) (resource_id : Bytes) (t done : Tables) (r : SocialResponse)
      → StarCounts t
      → star_change h authority kind resource_id t ≡ ok (done, r)
      → StarCounts done
        × (done.resource_stars
            ≡ (change_star kind authority.user_id resource_id t.resource_stars).0)
        × (reported r ≡ some (is_starring kind, star_rows done.resource_stars resource_id))
  unfolding star_change
  star_change-counted kind resource_id t done r before e =
      let user = authority.user_id in
      let after = (change_star kind user resource_id t.resource_stars).0 in
      elim (Result-cases (
        count_stars h authority (change_star kind user resource_id t.resource_stars).1 resource_id
          (record t { resource_stars = after }))) [
            | inl ((counted, count), made) ↦
                let (kept, rows, counts) =
                  count_stars-IsCounted (change_star kind user resource_id t.resource_stars).1
                    resource_id t counted after count before
                    (λ other different.
                      change_other kind user resource_id other t.resource_stars different)
                    (unchanged_rows kind user resource_id t.resource_stars) made in
                let same : counted ≡ done = ground arith in
                let said : reported r ≡ some (is_starring kind, count) = ground arith in
                (
                  subst StarCounts same kept,
                  rw (sym same) rows,
                  rw (sym same, rows) (said ∙ rw counts),
                )
            | inr (failure, failed) ↦ absurd (ground arith)
          ]

  change-StarCounts :
      (b : Body) (t done : Tables) (r : SocialResponse)
      → change h authority b t ≡ ok (done, r)
      → StarCounts t
      → StarCounts done
  unfolding profile_change follow_change topics_change report_change enqueue_resource_wake
      enqueue_wake_payload
  change-StarCounts (Body.profile request) t done r e before =
      let rows : done.resource_stars ≡ t.resource_stars = ground arith in
      let resources : done.resources ≡ t.resources = ground arith in rw (rows, resources) before
  change-StarCounts (Body.follow kind target) t done r e before =
      let rows : done.resource_stars ≡ t.resource_stars = ground arith in
      let resources : done.resources ≡ t.resources = ground arith in rw (rows, resources) before
  change-StarCounts (Body.star kind resource_id) t done r e before =
      (star_change-counted kind resource_id t done r before e).0
  change-StarCounts (Body.topics request resource_id chosen) t done r e before =
      elim (Option-cases (first (λ r. has_id resource_id r && not r.deleted) t.resources)) [
        | inl no_row ↦ absurd (ground arith)
        | inr (row, found) ↦ elim (Result-cases (next_generation row.generation)) [
          | inl (next, advanced) ↦
              let rows : done.resource_stars ≡ t.resource_stars = ground arith in
              let resources : done.resources
                  ≡ update_where (has_id resource_id)
                      (λ r. record r { discovery_topics = chosen; generation = next }) t.resources =
                ground arith in
              rw (rows, resources)
                (IsCounted-after_topics t.resource_stars resource_id chosen next t.resources before)
          | inr (failure, failed) ↦ absurd (ground arith)
        ]
      ]
  change-StarCounts (Body.report report_id reason resource_id) t done r e before =
      let rows : done.resource_stars ≡ t.resource_stars = ground arith in
      let resources : done.resources ≡ t.resources = ground arith in rw (rows, resources) before

  transact-StarCounts :
      (p : Operation × Body) (t done : Tables) (r : SocialResponse)
      → transact h authority p t ≡ ok (done, r)
      → StarCounts t
      → StarCounts done
  transact-StarCounts (o, b) t done r e before =
      elim (in_operation-cases h (reader b) o (change h authority b) t done r e) [
        | inl same ↦ subst StarCounts (sym same) before
        | inr (changed, made, same) ↦
            subst StarCounts (sym same) (change-StarCounts b t changed r made before)
      ]

  serve-StarCounts :
      (call : SocialCall) (t : Tables) → StarCounts t → StarCounts (serve h authority call t).0
  unfolding serve commit
  serve-StarCounts call t before = split (handle h authority call t) refl
    where
      split :
          (result : Result ApiError (Tables × SocialResponse))
          → handle h authority call t ≡ result
          → StarCounts (commit t result).0
      split (err e) ran = before
      split (ok (done, r)) ran =
          let (p, prepared, transacted) =
            >>=-eq-ok (prepare h authority call) _
              (sym (handle-prepare h authority call t) ∙ ran) in
          transact-StarCounts p t done r transacted before

-- From tables where every star count is the number of star rows, whatever calls the users send, in
-- whatever order, lead to such tables.
pub serve_all-StarCounts :
    (h : Host) (calls : List (UserAuthority × SocialCall)) (t : Tables)
    → StarCounts t
    → StarCounts (serve_all h calls t)
unfolding serve_all
serve_all-StarCounts h [] t before = before
serve_all-StarCounts h ((authority, call) ∷ rest) t before =
    serve_all-StarCounts h rest (serve h authority call t).0
      (serve-StarCounts h authority call t before)
