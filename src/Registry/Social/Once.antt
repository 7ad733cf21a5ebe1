-- ===== src/Registry/Social/Once.antt =====
-- A call that is sent again, and another call under the same operation id.

use denju.Base.{◌≡◌, refl, sym, ap, ◌∙◌, List, [], Text, Bytes, Result, ok, err, >>=-eq-ok}
use denju.Base.{arith}
use denju.Core.Ids.{Id7}
use denju.Registry.Api.{ApiError, Host, parse_operation}
use denju.Registry.Tables.{Tables, OperationRow}
use denju.Registry.Access.{UserAuthority}
use denju.Registry.Social.Responses.{SocialResponse}
use denju.Registry.Social.Operations.{Operation, commit, in_operation, lock_live_social_user}
use denju.Registry.Social.Calls.{SocialCall, handle, serve, serve_all}
use denju.Registry.Social.Prepared.{Body, reader, change, prepare, transact, handle-prepare}
use denju.Registry.Social.Later.{HasRow, serve_all-HasRow, in_operation_later}
use denju.Registry.Social.Replay.{IsDone, done-keeps, transact-again}

-- The operation id of the request.
abbrev pub operation_text : SocialCall → Text
operation_text (SocialCall.profile request) = request.operation_id
operation_text (SocialCall.follow kind request) = request.operation_id
operation_text (SocialCall.star kind request) = request.operation_id
operation_text (SocialCall.topics request) = request.operation_id
operation_text (SocialCall.report report_id request) = request.operation_id

-- The same request at a later time: the registry draws a new identity for the report.
abbrev pub sent_again : Bytes → SocialCall → SocialCall
sent_again new (SocialCall.profile request) = SocialCall.profile request
sent_again new (SocialCall.follow kind request) = SocialCall.follow kind request
sent_again new (SocialCall.star kind request) = SocialCall.star kind request
sent_again new (SocialCall.topics request) = SocialCall.topics request
sent_again new (SocialCall.report report_id request) = SocialCall.report new request

abbrev body_again : Bytes → Body → Body
body_again new (Body.profile request) = Body.profile request
body_again new (Body.follow kind target) = Body.follow kind target
body_again new (Body.star kind resource_id) = Body.star kind resource_id
body_again new (Body.topics request resource_id chosen) = Body.topics request resource_id chosen
body_again new (Body.report report_id reason resource_id) = Body.report new reason resource_id

abbrev id_bytes : Result ApiError Id7 → Bytes
id_bytes (ok id) = id.bytes
id_bytes (err e) = []

reader-body_again : (new : Bytes) (b : Body) → reader b ≡ reader (body_again new b)
reader-body_again new (Body.profile request) = refl
reader-body_again new (Body.follow kind target) = refl
reader-body_again new (Body.star kind resource_id) = refl
reader-body_again new (Body.topics request resource_id chosen) = refl
reader-body_again new (Body.report report_id reason resource_id) = refl

commit_ok :
    (t done : Tables) (r : SocialResponse) (result : Result ApiError (Tables × SocialResponse))
    → commit t result ≡ (done, ok r)
    → result ≡ ok (done, r)
unfolding commit
commit_ok t done r (ok x) c = cc c
commit_ok t done r (err x) c = cc c

module _ (h : Host) (authority : UserAuthority) where
  prepare-sent_again :
      (new : Bytes) (call : SocialCall) (o : Operation) (b : Body)
      → prepare h authority call ≡ ok (o, b)
      → prepare h authority (sent_again new call) ≡ ok (o, body_again new b)
  unfolding prepare
  prepare-sent_again new (SocialCall.profile request) o b e = ground arith
  prepare-sent_again new (SocialCall.follow kind request) o b e = ground arith
  prepare-sent_again new (SocialCall.star kind request) o b e = ground arith
  prepare-sent_again new (SocialCall.topics request) o b e = ground arith
  prepare-sent_again new (SocialCall.report report_id request) o b e = ground arith

  prepare-operation :
      (call : SocialCall) (o : Operation) (b : Body)
      → prepare h authority call ≡ ok (o, b)
      → (o.operation_id ≡ id_bytes (parse_operation h (operation_text call)))
        × (o.user_id ≡ authority.user_id)
  unfolding prepare
  prepare-operation (SocialCall.profile request) o b e = (ground arith, ground arith)
  prepare-operation (SocialCall.follow kind request) o b e = (ground arith, ground arith)
  prepare-operation (SocialCall.star kind request) o b e = (ground arith, ground arith)
  prepare-operation (SocialCall.topics request) o b e = (ground arith, ground arith)
  prepare-operation (SocialCall.report report_id request) o b e = (ground arith, ground arith)

  handled :
      (call : SocialCall) (t done : Tables) (r : SocialResponse)
      → handle h authority call t ≡ ok (done, r)
      → (p : Operation × Body) × (prepare h authority call ≡ ok p)
        × (transact h authority p t ≡ ok (done, r))
  handled call t done r e =
      >>=-eq-ok (prepare h authority call) _ (sym (handle-prepare h authority call t) ∙ e)

  -- A call that succeeded leaves the row of its operation, which answers the same request.
  served :
      (call : SocialCall) (new : Bytes) (t done : Tables) (r : SocialResponse)
      → serve h authority call t ≡ (done, ok r)
      → (p : Operation × Body) × (row : OperationRow) × (prepare h authority call ≡ ok p)
        × HasRow p.0 row done
        × (in_operation h
              (reader (body_again new p.1))
              p.0
              (change h authority (body_again new p.1))
              done
            ≡ ok (done, r))
  unfolding serve in_operation
  served call new t done r e =
      let ((o, b), prepared, ran) =
        handled call t done r (commit_ok t done r (handle h authority call t) e) in
      let ((row, found), again) =
        transact-again h authority o b (body_again new b) t done r (reader-body_again new b) ran in
      let (_, live, _) = >>=-eq-ok (lock_live_social_user o.user_id done) _ again in
      ((o, b), row, prepared, (found, live), again)

  -- A call that succeeded, sent again by its user, has the same response and changes nothing, whatever
  -- calls of any users came in between. A report sent again makes no second report.
  pub serve-sent_again :
      (call : SocialCall) (new : Bytes) (t done : Tables) (r : SocialResponse)
      (between : List (UserAuthority × SocialCall))
      → serve h authority call t ≡ (done, ok r)
      → serve h authority (sent_again new call) (serve_all h between done)
        ≡ (serve_all h between done, ok r)
  unfolding serve commit
  serve-sent_again call new t done r between e =
      let ((o, b), row, prepared, here, again) = served call new t done r e in
      let later = serve_all h between done in
      let answered =
        in_operation_later h (reader (body_again new b)) o row
          (change h authority (body_again new b)) done later r here
          (serve_all-HasRow h o row between done here) again in
      rw (
        handle-prepare h authority (sent_again new call) later,
        prepare-sent_again new call o b prepared,
        answered,
      )

-- After a call that succeeded, and whatever calls of any users came since, no call of its user under
-- the same operation id changes the tables, whatever it asks for.
pub serve-used_operation :
    (h : Host) (authority later : UserAuthority) (call other : SocialCall) (t done : Tables)
    (r : SocialResponse) (between : List (UserAuthority × SocialCall))
    → later.user_id ≡ authority.user_id
    → operation_text other ≡ operation_text call
    → serve h authority call t ≡ (done, ok r)
    → (serve h later other (serve_all h between done)).0 ≡ serve_all h between done
unfolding serve commit
serve-used_operation h authority later call other t done r between same_user same_text e =
    let ((o, b), row, prepared, here, _) = served h authority call [] t done r e in
    let kept = serve_all-HasRow h o row between done here in
    split o (row, kept.0) (prepare-operation h authority call o b prepared)
      (handle h later other (serve_all h between done)) refl
  where
    split :
        (o : Operation)
        → IsDone o (serve_all h between done)
        → (o.operation_id ≡ id_bytes (parse_operation h (operation_text call)))
          × (o.user_id ≡ authority.user_id)
        → (result : Result ApiError (Tables × SocialResponse))
        → handle h later other (serve_all h between done) ≡ result
        → (commit (serve_all h between done) result).0 ≡ serve_all h between done
    split o is_done ids (err x) run = refl
    split o is_done ids (ok (after, s)) run =
        let ((o2, b2), prepared, ran) =
          handled h later other (serve_all h between done) after s run in
        let ids2 = prepare-operation h later other o2 b2 prepared in
        done-keeps h later o o2 b2 (serve_all h between done) after s is_done
          (ids2.1 ∙ same_user ∙ sym ids.1)
          (ids2.0 ∙ ap (λ text. id_bytes (parse_operation h text)) same_text ∙ sym ids.0) ran
