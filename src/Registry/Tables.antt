-- ===== src/Registry/Tables.antt =====
-- The tables of the registry that its social operations read and write
-- (crates/denju-registry/migrations), and the rows that their queries look up. Columns that only
-- hold times are left out. The constraints of the schema keep generations and star counts from
-- being negative, so that the conversion `generation_u64` of the source succeeds.
use denju.Base.{ℕ, ◌+◌, Bool, not, ◌&&◌, Option, none, some, List, [], ◌∷◌}
use denju.Base.{Text, Bytes, if◌then◌else◌, ◌==◌, text_Eq}
use denju.Wire.Json.{Json}

pub record UserRow : Type 0 where
  pub id : Bytes
  pub namespace_id : Option Bytes
  pub deleted : Bool
  pub author_principal_id : Bytes
  pub bio : Option Text
  pub followers_visible : Bool
  pub following_visible : Bool

pub record NamespaceRow : Type 0 where
  pub id : Bytes
  pub slug : Text
  pub kind : Text

pub record TeamRow : Type 0 where
  pub namespace_id : Bytes
  pub members_can_publish : Bool

pub record MembershipRow : Type 0 where
  pub team_namespace_id : Bytes
  pub user_id : Bytes
  pub role : Text

-- `released` and `quarantined` stand for the tables of releases and quarantines: the latest release
-- exists and no quarantine in force bars it; a quarantine in force bars the whole resource.
pub record ResourceRow : Type 0 where
  pub id : Bytes
  pub owner_namespace_id : Option Bytes
  pub deleted_owner_slug : Option Text
  pub slug : Text
  pub kind : Text
  pub visibility : Text
  pub deleted : Bool
  pub released : Bool
  pub quarantined : Bool
  pub star_count : ℕ
  pub generation : ℕ
  pub discovery_topics : List Text

pub record FollowRow : Type 0 where
  pub follower_user_id : Bytes
  pub followed_user_id : Bytes

pub record StarRow : Type 0 where
  pub user_id : Bytes
  pub resource_id : Bytes

pub record OperationRow : Type 0 where
  pub user_id : Bytes
  pub operation_id : Bytes
  pub request_hash : Bytes
  pub operation_kind : Text
  pub outcome_json : Json

pub record ReportRow : Type 0 where
  pub id : Bytes
  pub reporter_user_id : Bytes
  pub resource_id : Bytes
  pub reason : Text

pub record AuthorityEventRow : Type 0 where
  pub id : ℕ
  pub event_kind : Text
  pub resource_id : Bytes
  pub resource_generation : ℕ
  pub payload_json : Json

pub record OutboxRow : Type 0 where
  pub event_id : ℕ
  pub event_kind : Text
  pub payload_json : Json
  pub dispatched : Bool

-- `next_event` is the sequence of `authority_events`.
pub record Tables : Type 0 where
  pub users : List UserRow
  pub namespaces : List NamespaceRow
  pub teams : List TeamRow
  pub team_memberships : List MembershipRow
  pub resources : List ResourceRow
  pub user_follows : List FollowRow
  pub resource_stars : List StarRow
  pub social_operations : List OperationRow
  pub resource_reports : List ReportRow
  pub authority_events : List AuthorityEventRow
  pub outbox_events : List OutboxRow
  pub next_event : ℕ

-- The row that a query on a key returns.
unfoldable pub first {ℓ} : {A : Type ℓ} → (A → Bool) → List A → Option A
first p [] = none
first p (x ∷ xs) = let rest = first p xs in if p x then some x else rest

-- `DELETE … WHERE`
unfoldable pub delete_where {ℓ} : {A : Type ℓ} → (A → Bool) → List A → List A
delete_where p [] = []
delete_where p (x ∷ xs) = let rest = delete_where p xs in if p x then rest else x ∷ rest

-- `UPDATE … SET … WHERE`
unfoldable pub update_where {ℓ} : {A : Type ℓ} → (A → Bool) → (A → A) → List A → List A
update_where p f [] = []
update_where p f (x ∷ xs) = (if p x then f x else x) ∷ update_where p f xs

-- `count(*) … WHERE`
unfoldable pub count_where {ℓ} : {A : Type ℓ} → (A → Bool) → List A → ℕ
count_where p [] = 0
count_where p (x ∷ xs) = let rest = count_where p xs in if p x then rest + 1 else rest

abbrev pub has_id : Bytes → ResourceRow → Bool
has_id id r = r.id == id

abbrev pub is_live_user : Bytes → UserRow → Bool
is_live_user id u = u.id == id && not u.deleted

abbrev pub is_star : Bytes → Bytes → StarRow → Bool
is_star user resource s = s.user_id == user && s.resource_id == resource

abbrev pub is_star_of : Bytes → StarRow → Bool
is_star_of resource s = s.resource_id == resource

abbrev pub is_follow : Bytes → Bytes → FollowRow → Bool
is_follow follower followed f = f.follower_user_id == follower && f.followed_user_id == followed

abbrev pub is_operation : Bytes → Bytes → OperationRow → Bool
is_operation user operation o = o.user_id == user && o.operation_id == operation

unfoldable pub find_namespace : Option Bytes → List NamespaceRow → Option NamespaceRow
find_namespace none rows = none
find_namespace (some id) rows = first (λ n. n.id == id) rows
