-- ===== src/Tests/Outbox.antt =====
-- An outbox with two wakes, of which one drain with the limit one sends the older.
use native.Mathlib.Decide.{ℕ_discrete}
use denju.Base.{◌^◌, ◌≡◌, refl, arith, ok, List, [], ◌∷◌, ◌++◌, map, take, drop, length, lit}
use denju.Base.{◌≤◌, ◌==◌, text_discrete}
use denju.Wire.Json.{struct, members_of, field, find}
use denju.Registry.Tables.{Tables, OutboxRow}
use denju.Registry.Outbox.{
  pending, clamp_limit, drain_outbox, wake_of, read_wake, wake_payload, resource,
  enqueue_resource_wake, enqueue_wake_payload,
}
use denju.Registry.Outbox.Order.{IsOrdered}
use denju.Registry.Outbox.Drain.{IsReadable, drains, drain_outbox-oldest, drains-all}
use denju.Registry.Outbox.Enqueue.{IsSequenced, wake_row, enqueue_resource_wake-pending}
use denju.Registry.Outbox.Queue.{Represents}
use denju.Registry.Outbox.Fifo.{Command, write, drain, run, accepted, Completes, run-accepted}
use denju.Tests.Registry.{host, registry}

abbrev rows : List OutboxRow
rows = wake_row host 1 (lit "review-id") 2 ∷ wake_row host 4 (lit "review-id") 3 ∷ []

rows-IsOrdered : IsOrdered rows
rows-IsOrdered = ((omega arith, tt), (tt, tt))

rows-IsReadable : IsReadable host rows
unfolding pending wake_of read_wake wake_payload struct members_of field find ◌==◌ text_discrete
    ℕ_discrete
rows-IsReadable = (refl, (refl, tt))

drain_outbox-oldest_example :
    (pending (drain_outbox host 1 rows).0 ≡ drop (clamp_limit 1) (pending rows))
    × (map ok (drain_outbox host 1 rows).1
        ≡ map (wake_of host) (take (clamp_limit 1) (pending rows)))
    × ((drain_outbox host 1 rows).2 ≡ ok (length (take (clamp_limit 1) (pending rows))))
    × IsOrdered (drain_outbox host 1 rows).0
drain_outbox-oldest_example = drain_outbox-oldest host 1 rows rows-IsOrdered rows-IsReadable

few : length (pending rows) ≤ 2
unfolding pending
few = omega arith

drains-all_example :
    (pending (drains host 2 1 rows).0 ≡ [])
    × (map ok (drains host 2 1 rows).1 ≡ map (wake_of host) (pending rows))
drains-all_example = drains-all host 2 1 rows rows-IsOrdered rows-IsReadable few

unfoldable woken : Tables
woken = record registry {
  authority_events =
      record {
        id = 1;
        event_kind = lit "resource_changed";
        resource_id = lit "review-id";
        resource_generation = 2;
        payload_json = wake_payload host (lit "review-id") 2;
      }
      ∷ [];
  outbox_events = wake_row host 1 (lit "review-id") 2 ∷ [];
  next_event = 2;
}

is_woken : enqueue_resource_wake host (lit "review-id") 2 registry ≡ ok woken
unfolding woken enqueue_resource_wake enqueue_wake_payload
is_woken = refl

enqueue_resource_wake-pending_example :
    IsSequenced woken
    × (row : OutboxRow) × (pending woken.outbox_events ≡ pending registry.outbox_events ++ row ∷ [])
    × (wake_of host row ≡ ok (resource (lit "review-id") 2))
enqueue_resource_wake-pending_example =
    enqueue_resource_wake-pending host (lit "review-id") 2 registry woken refl (tt, tt) is_woken

nothing-Represents : Represents host registry.outbox_events []
unfolding pending
nothing-Represents = (tt, refl)

abbrev commands : List Command
commands =
    write (lit "review-id") 2
    ∷ write (lit "other-id") 5
    ∷ drain 1
    ∷ write (lit "review-id") (2 ^ 63)
    ∷ write (lit "review-id") 3
    ∷ drain 300
    ∷ []

run-accepted_example : Completes host (run host commands registry) (accepted commands)
run-accepted_example =
    run-accepted host commands registry [] (λ resource_id. refl) (tt, tt) nothing-Represents
