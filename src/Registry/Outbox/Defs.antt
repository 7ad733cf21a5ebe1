-- ===== src/Registry/Outbox/Defs.antt =====
-- Writing wakes into the outbox and draining it (crates/denju-registry/src/outbox.rs). A statement
-- that the schema allows does not fail.
use denju.Base.{ℕ, ◌+◌, ◌^◌, true, false, not, List, [], ◌∷◌, ◌++◌, none, some}
use denju.Base.{Text, Bytes, lit, Result, ok, err, ◌>>◌, reject, ltb, nat_eq, take, length}
use denju.Base.{if◌then◌else◌, ◌==◌, text_Eq, nat_Eq, sort_by}
use Prim.Native.Nat.{compare}
use denju.Wire.Json.{Json, string, number, struct, field}
use denju.Registry.Api.{ApiError, api_error, internal, Host}
use denju.Registry.Tables.{Tables, OutboxRow, update_where}

-- `ResourceWakePayload`
unfoldable pub wake_payload : Host → Bytes → ℕ → Json
wake_payload h resource_id generation = struct (
    (lit "resource_id", string (h.uuid_text resource_id))
    ∷ (lit "generation", number generation)
    ∷ [])

unfoldable pub enqueue_wake_payload : Bytes → ℕ → Text → Json → Tables → Result ApiError Tables
enqueue_wake_payload resource_id generation authority_event_kind payload t = do
  reject (not (ltb generation (2 ^ 63)))
      (api_error internal (lit "generation exceeds database range"))
  ok (record t {
    authority_events =
        t.authority_events
        ++ record {
          id = t.next_event;
          event_kind = authority_event_kind;
          resource_id = resource_id;
          resource_generation = generation;
          payload_json = payload;
        }
          ∷ [];
    outbox_events =
        t.outbox_events
        ++ record {
          event_id = t.next_event;
          event_kind = lit "resource_dirty";
          payload_json = payload;
          dispatched = false;
        }
          ∷ [];
    next_event = t.next_event + 1;
  })

unfoldable pub enqueue_resource_wake : Host → Bytes → ℕ → Tables → Result ApiError Tables
unfolding wake_payload enqueue_wake_payload
enqueue_resource_wake h resource_id generation =
    enqueue_wake_payload resource_id generation (lit "resource_changed")
      (wake_payload h resource_id generation)

-- `RegistryWake` (crates/denju-registry/src/realtime.rs)
pub data RegistryWake : Type 0 where
  resource : Bytes → ℕ → RegistryWake
  resync_all : RegistryWake

-- `u32::clamp(1, 256)`
unfoldable pub clamp_limit : ℕ → ℕ
clamp_limit limit = if ltb limit 1 then 1 else if ltb 256 limit then 256 else limit

unfoldable pub pending : List OutboxRow → List OutboxRow
pending [] = []
pending (row ∷ rows) = let rest = pending rows in if row.dispatched then rest else row ∷ rest

-- `ORDER BY event_id … LIMIT`
unfoldable pub selected : ℕ → List OutboxRow → List OutboxRow
unfolding pending clamp_limit
selected limit rows =
    take (clamp_limit limit) (sort_by (λ a b. compare a.event_id b.event_id) (pending rows))

abbrev pub mark : OutboxRow → OutboxRow
mark row = record row { dispatched = true }

-- `serde_json::from_value::<ResourceWakePayload>`
unfoldable pub read_wake : Host → Json → Result ApiError RegistryWake
read_wake h payload =
    read_fields (field (lit "resource_id") payload) (field (lit "generation") payload)
  where
    read_fields : Json → Json → Result ApiError RegistryWake
    read_fields (string id) (number generation) = elim (h.parse_str id) [
      | none ↦ err (api_error internal (h.uuid_error id))
      | some uuid ↦ ok (resource uuid generation)
    ]
    read_fields _ _ = err (api_error internal (h.serde_error payload))

unfoldable pub settle :
    List OutboxRow
    → ℕ
    → List RegistryWake × Result ApiError (List OutboxRow)
    → List OutboxRow × List RegistryWake × Result ApiError ℕ
settle rows count (sent, err e) = (rows, sent, err e)
settle rows count (sent, ok left) = (left, sent, ok count)

module _ (h : Host) where
  unfoldable pub wake_of : OutboxRow → Result ApiError RegistryWake
  unfolding read_wake
  wake_of row =
      if row.event_kind == lit "resource_dirty" then read_wake h row.payload_json else ok resync_all

  -- The loop of `drain_outbox`: the wakes that it sent, and the rows of the outbox that it leaves
  -- or the error that ends it. What is sent inside of the process is not taken back.
  unfoldable pub dispatch :
      List OutboxRow → List OutboxRow → List RegistryWake × Result ApiError (List OutboxRow)
  dispatch [] rows = ([], ok rows)
  dispatch (row ∷ rest) rows =
      let (sent, after) =
        dispatch rest (update_where (λ other. nat_eq other.event_id row.event_id) mark rows) in
      elim (wake_of row) [ err e ↦ ([], err e) | ok wake ↦ (wake ∷ sent, after) ]

  -- `drain_outbox`: a failed transaction leaves the outbox as it was.
  unfoldable pub drain_outbox :
      ℕ → List OutboxRow → List OutboxRow × List RegistryWake × Result ApiError ℕ
  drain_outbox limit rows =
      settle rows (length (selected limit rows)) (dispatch (selected limit rows) rows)
