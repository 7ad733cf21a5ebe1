-- ===== src/Registry/Social/Starred.antt =====
-- What a star call reports, and where it fails.
use mathlib.Core.Bool.{false≢true}
use denju.Base.{◌≡◌, refl, sym, ap, ◌∙◌, Bool, true, false, not, ◌&&◌, ◌||◌, List, [], ◌∷◌}
use denju.Base.{Bytes, Result, ok, err, >>=-eq-ok, any, arith}
use denju.Base.{some, inl, inr, Option-cases, lit, is_ok}
use denju.Base.{◌==◌, text_Eq, Bool-cases, eq_refl, eq→≡}
use denju.Registry.Api.{ApiError, Host, parse_uuid}
use denju.Wire.Mutation.Account.{StarMutationKind}
use denju.Registry.Tables.{Tables, ResourceRow, has_id, is_star, first}
use denju.Registry.Access.{UserAuthority}
use denju.Registry.Social.Responses.{SocialResponse, StarMutationRequest}
use denju.Registry.Social.Statements.{
  lock_social_resource, is_visible_to, change_star, refresh_resource_star_count, is_available,
}
use denju.Registry.Social.Operations.{Operation, commit}
use denju.Registry.Social.Handlers.{star_change, count_stars}
use denju.Registry.Social.Calls.{SocialCall, handle, serve}
use denju.Registry.Social.Prepared.{Body, reader, change, prepare, handle-prepare}
use denju.Registry.Social.Replay.{in_operation-cases}

none-first :
    {A : Type 0} (p q : A → Bool) (xs : List A) (x : A)
    → any q xs ≡ false
    → first p xs ≡ some x
    → (p x ≡ true) × (q x ≡ false)
unfolding any first
none-first p q [] x h e = cc e
none-first p q (y ∷ ys) x h e = elim (Bool-cases (p y)) [
  | inl c ↦ let same : y ≡ x = ground arith in (rw (sym same) c, rw (sym same) (ground arith))
  | inr c ↦ none-first p q ys x (ground arith) (ground arith)
]

module _ (h : Host) (authority : UserAuthority) where
  prepare-star :
      (kind : StarMutationKind) (request : StarMutationRequest) (resource_id : Bytes)
      (o : Operation) (b : Body)
      → h.parse_str request.resource_id ≡ some resource_id
      → prepare h authority (SocialCall.star kind request) ≡ ok (o, b)
      → b ≡ Body.star kind resource_id
  unfolding prepare parse_uuid
  prepare-star kind request resource_id o b parsed e = ground arith

  star_change-unavailable :
      (kind : StarMutationKind) (resource_id : Bytes) (t : Tables)
      → any (is_available resource_id) t.resources ≡ false
      → is_ok (star_change h authority kind resource_id t) ≡ false
  unfolding star_change lock_social_resource count_stars refresh_resource_star_count change_star
  star_change-unavailable kind resource_id t unavailable =
      let visible : ResourceRow → Bool =
        λ r. has_id resource_id r && is_visible_to authority.user_id t r in
      elim (Option-cases (first visible t.resources)) [
        | inl none_found ↦ ground arith
        | inr (r, found) ↦
            let (seen, gone) =
              none-first visible (is_available resource_id) t.resources r unavailable found in
            let here : r.id ≡ resource_id = eq→≡ r.id resource_id (ground arith) in
            let starred : any (is_star authority.user_id resource_id) t.resource_stars ≡ true =
              rw (sym here) (ground (arith, eq_refl r.id)) in
            fails kind r found (ground arith) starred
      ]
    where
      fails :
          (kind : StarMutationKind) (r : ResourceRow)
          → first (λ r. has_id resource_id r && is_visible_to authority.user_id t r) t.resources
            ≡ some r
          → (r.deleted || not (r.visibility == lit "public")) ≡ true
          → any (is_star authority.user_id resource_id) t.resource_stars ≡ true
          → is_ok (star_change h authority kind resource_id t) ≡ false
      fails StarMutationKind.star r found gone starred = ground arith
      fails StarMutationKind.unstar r found gone starred = ground arith

-- A star call on a resource that is private or deleted changes nothing. This holds for taking a star
-- back as well, so that the star of such a resource stays.
pub serve-unavailable :
    (h : Host) (authority : UserAuthority) (kind : StarMutationKind) (request : StarMutationRequest)
    (resource_id : Bytes) (t : Tables)
    → h.parse_str request.resource_id ≡ some resource_id
    → any (is_available resource_id) t.resources ≡ false
    → (serve h authority (SocialCall.star kind request) t).0 ≡ t
unfolding serve commit
serve-unavailable h authority kind request resource_id t parsed unavailable =
    split (handle h authority (SocialCall.star kind request) t) refl
  where
    split :
        (result : Result ApiError (Tables × SocialResponse))
        → handle h authority (SocialCall.star kind request) t ≡ result
        → (commit t result).0 ≡ t
    split (err e) ran = refl
    split (ok (done, r)) ran =
        let ((o, b), prepared, transacted) =
          >>=-eq-ok (prepare h authority (SocialCall.star kind request)) _
            (sym (handle-prepare h authority (SocialCall.star kind request) t) ∙ ran) in
        let star_body = prepare-star h authority kind request resource_id o b parsed prepared in
        elim (in_operation-cases h (reader b) o (change h authority b) t done r transacted) [
          | inl same ↦ same
          | inr (changed, made, same) ↦
              let made_star : star_change h authority kind resource_id t ≡ ok (changed, r) =
                rw star_body at made in
              absurd (
                false≢true (
                  sym (star_change-unavailable h authority kind resource_id t unavailable)
                  ∙ ap is_ok made_star))
        ]
