-- ===== src/Registry/Outbox/Enqueue.antt =====
-- What writing a wake makes of the outbox.
use denju.Base.{ℕ, ◌+◌, ◌<◌, ◌≡◌, refl, false, List, [], ◌∷◌, ◌++◌}
use denju.Base.{Bytes, lit, ok, arith, All, ◌==◌, text_Eq}
use denju.Base.{some, text_discrete}
use native.Mathlib.Decide.{ℕ_discrete}
use denju.Wire.Json.{struct, members_of, field, find}
use denju.Registry.Api.{Host}
use denju.Registry.Tables.{Tables, OutboxRow}
use denju.Registry.Outbox.Defs.{
  resource, pending, wake_of, read_wake, wake_payload, enqueue_wake_payload, enqueue_resource_wake,
}
use denju.Registry.Outbox.Order.{IsOrdered}

-- The outbox is in order, and the sequence is past all of its events.
abbrev pub IsSequenced : Tables → Type 0
IsSequenced t = IsOrdered t.outbox_events × All (λ row. row.event_id < t.next_event) t.outbox_events

pending-append :
    (rows : List OutboxRow) (row : OutboxRow)
    → row.dispatched ≡ false
    → pending (rows ++ row ∷ []) ≡ pending rows ++ row ∷ []
unfolding pending
pending-append [] row e = ground (arith, e)
pending-append (first ∷ rows) row e = ground (arith, pending-append rows row e)

All-append :
    (P : OutboxRow → Type 0) (rows : List OutboxRow) (row : OutboxRow)
    → All P rows
    → P row
    → All P (rows ++ row ∷ [])
All-append P [] row a p = (p, tt)
All-append P (first ∷ rows) row a p = (a.0, All-append P rows row a.1 p)

append-IsOrdered :
    (rows : List OutboxRow) (row : OutboxRow)
    → IsOrdered rows
    → All (λ earlier. earlier.event_id < row.event_id) rows
    → IsOrdered (rows ++ row ∷ [])
append-IsOrdered [] row o a = (tt, tt)
append-IsOrdered (first ∷ rows) row o a =
    (All-append _ rows row o.0 a.0, append-IsOrdered rows row o.1 a.1)

below_next :
    (n : ℕ) (rows : List OutboxRow)
    → All (λ row. row.event_id < n) rows
    → All (λ row. row.event_id < n + 1) rows
below_next n [] a = tt
below_next n (row ∷ rows) a = (omega (arith, a.0), below_next n rows a.1)

module _ (h : Host) where
  -- The row that a resource wake adds.
  abbrev pub wake_row : ℕ → Bytes → ℕ → OutboxRow
  wake_row id resource_id generation = record {
    event_id = id;
    event_kind = lit "resource_dirty";
    payload_json = wake_payload h resource_id generation;
    dispatched = false;
  }

  wake_of-wake_row :
      (id : ℕ) (resource_id : Bytes) (generation : ℕ)
      → h.parse_str (h.uuid_text resource_id) ≡ some resource_id
      → wake_of h (wake_row id resource_id generation) ≡ ok (resource resource_id generation)
  unfolding wake_of read_wake wake_payload struct members_of field find ◌==◌ text_discrete
      ℕ_discrete
  wake_of-wake_row id resource_id generation back = ground (arith, back)

  -- Where the text of an identity is read back as the identity, a resource wake that is written in an
  -- outbox in order keeps it in order, is pending after all others, and is read as that wake.
  pub enqueue_resource_wake-pending :
      (resource_id : Bytes) (generation : ℕ) (t done : Tables)
      → h.parse_str (h.uuid_text resource_id) ≡ some resource_id
      → IsSequenced t
      → enqueue_resource_wake h resource_id generation t ≡ ok done
      → IsSequenced done
        × (row : OutboxRow) × (pending done.outbox_events ≡ pending t.outbox_events ++ row ∷ [])
        × (wake_of h row ≡ ok (resource resource_id generation))
  unfolding enqueue_resource_wake enqueue_wake_payload
  enqueue_resource_wake-pending resource_id generation t done back (ordered, below) e =
      let row = wake_row t.next_event resource_id generation in
      let rows : done.outbox_events ≡ t.outbox_events ++ row ∷ [] = ground arith in
      let next : done.next_event ≡ t.next_event + 1 = ground arith in
      let below_now : t.next_event < t.next_event + 1 = omega arith in
      (
        rw (rows, next)
            (
              append-IsOrdered t.outbox_events row ordered below,
              All-append (λ r. r.event_id < t.next_event + 1) t.outbox_events row
                  (below_next t.next_event t.outbox_events below) below_now,
            ),
        row,
        rw rows (pending-append t.outbox_events row refl),
        wake_of-wake_row t.next_event resource_id generation back,
      )
