-- ===== src/Tests/Local.antt =====
-- A watcher with a channel of 64 hints, whose last callback was an error.
use denju.Base.{◌≡◌, refl, Bool, true, false, Option, none, some, List, [], ◌∷◌, ◌++◌, length}
use denju.Base.{arith, ltb, if◌then◌else◌}
use denju.Local.Watch.{
  Event, IsChannel, started, run, step, on_event, on_changed, on_drain, on_drain-owed,
}

unfoldable try_send : Bool → List Bool → Option (List Bool)
try_send hint queue = if ltb (length queue) 64 then some (queue ++ hint ∷ []) else none

try_send-IsChannel : IsChannel try_send
unfolding try_send
try_send-IsChannel hint queue after e = ground arith

abbrev events : List Event
events = Event.callback false ∷ Event.changed ∷ Event.callback true ∷ []

events_owe : (run try_send events started).owed ≡ true
unfolding run step on_event on_changed
events_owe = refl

on_drain-owed_example : (on_drain false (run try_send events started).watcher).0 ≡ true
on_drain-owed_example = on_drain-owed try_send events try_send-IsChannel events_owe
