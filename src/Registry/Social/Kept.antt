-- ===== src/Registry/Social/Kept.antt =====
-- What a change of a handler leaves as it was, and that its response is read back as it was written.
use denju.Base.{◌≡◌, refl, ap, Bool, true, false, List, Bytes, Text, ok, arith}
use denju.Base.{[], ◌∷◌, Option, none, some, text_Eq}
use denju.Registry.Api.{Host}
use denju.Registry.Tables.{Tables, UserRow, first, update_where, is_live_user}
use denju.Registry.Access.{UserAuthority}
use denju.Registry.Outbox.{enqueue_resource_wake, enqueue_wake_payload}
use denju.Registry.Social.Responses.{SocialResponse, to_value, from_value-to_value, from_value_like}
use denju.Registry.Social.Operations.{lock_live_social_user}
use denju.Registry.Social.Statements.{refresh_resource_star_count, trimmed_bio}
use denju.Registry.Social.Handlers.{
  profile_change, follow_change, star_change, topics_change, report_change, count_stars,
}
use denju.Registry.Social.Prepared.{Body, reader, change}

unfoldable is_some {ℓ} : {A : Type ℓ} → Option A → Bool
is_some none = false
is_some (some a) = true

-- A profile update neither adds nor ends a user.
alive_after_update :
    (user authority_user : Bytes) (bio : Option Text) (followers following : Bool)
    (rows : List UserRow)
    → is_some (
        first (is_live_user user) (
          update_where
            (is_live_user authority_user)
            (λ u. record u {
              bio = bio;
              followers_visible = followers;
              following_visible = following;
            })
            rows))
      ≡ is_some (first (is_live_user user) rows)
unfolding first update_where is_some
alive_after_update user authority_user bio followers following [] = refl
alive_after_update user authority_user bio followers following (row ∷ rows) =
    ground (arith, alive_after_update user authority_user bio followers following rows)

lock-is_some :
    (user : Bytes) (s t : Tables)
    → is_some (first (is_live_user user) s.users) ≡ is_some (first (is_live_user user) t.users)
    → lock_live_social_user user s ≡ lock_live_social_user user t
unfolding lock_live_social_user is_some
lock-is_some user s t e = ground arith

module _ (h : Host) (authority : UserAuthority) where
  pub change-social_operations :
      (b : Body) (t done : Tables) (r : SocialResponse)
      → change h authority b t ≡ ok (done, r)
      → done.social_operations ≡ t.social_operations
  unfolding profile_change follow_change star_change topics_change report_change count_stars
      refresh_resource_star_count enqueue_resource_wake enqueue_wake_payload
  change-social_operations (Body.profile request) t done r e = ground arith
  change-social_operations (Body.follow kind target) t done r e = ground arith
  change-social_operations (Body.star kind resource_id) t done r e = ground arith
  change-social_operations (Body.topics request resource_id chosen) t done r e = ground arith
  change-social_operations (Body.report report_id reason resource_id) t done r e = ground arith

  change-reader :
      (b : Body) (t done : Tables) (r : SocialResponse)
      → change h authority b t ≡ ok (done, r)
      → reader b ≡ from_value_like r
  unfolding profile_change follow_change star_change topics_change report_change from_value_like
  change-reader (Body.profile request) t done r e = ground arith
  change-reader (Body.follow kind target) t done r e = ground arith
  change-reader (Body.star kind resource_id) t done r e = ground arith
  change-reader (Body.topics request resource_id chosen) t done r e = ground arith
  change-reader (Body.report report_id reason resource_id) t done r e = ground arith

  pub change-read :
      (b : Body) (t done : Tables) (r : SocialResponse)
      → change h authority b t ≡ ok (done, r)
      → reader b (to_value r) ≡ ok r
  change-read b t done r e = rw (change-reader b t done r e) (from_value-to_value r)

  change-users :
      (user : Bytes) (b : Body) (t done : Tables) (r : SocialResponse)
      → change h authority b t ≡ ok (done, r)
      → is_some (first (is_live_user user) done.users) ≡ is_some (first (is_live_user user) t.users)
  unfolding profile_change follow_change star_change topics_change report_change count_stars
      refresh_resource_star_count enqueue_resource_wake enqueue_wake_payload
  change-users user (Body.profile request) t done r e =
      let same : done.users
          ≡ update_where (is_live_user authority.user_id)
              (λ u. record u {
                bio = trimmed_bio h request.bio;
                followers_visible = request.followers_visible;
                following_visible = request.following_visible;
              })
              t.users =
        cc e in
      rw same (
        alive_after_update user authority.user_id (trimmed_bio h request.bio)
          request.followers_visible request.following_visible t.users)
  change-users user (Body.follow kind target) t done r e =
      ap (λ rows. is_some (first (is_live_user user) rows)) (ground arith)
  change-users user (Body.star kind resource_id) t done r e =
      ap (λ rows. is_some (first (is_live_user user) rows)) (ground arith)
  change-users user (Body.topics request resource_id chosen) t done r e =
      ap (λ rows. is_some (first (is_live_user user) rows)) (ground arith)
  change-users user (Body.report report_id reason resource_id) t done r e =
      ap (λ rows. is_some (first (is_live_user user) rows)) (ground arith)

  -- A change neither locks out a user nor lets one in.
  pub change-lock :
      (user : Bytes) (b : Body) (t done : Tables) (r : SocialResponse)
      → change h authority b t ≡ ok (done, r)
      → lock_live_social_user user done ≡ lock_live_social_user user t
  change-lock user b t done r e = lock-is_some user done t (change-users user b t done r e)
