-- ===== src/Registry/Outbox/Fifo.antt =====
-- The outbox as the registry uses it: wakes are written and drains are made in any order.
use mathlib.Core.Path.{subst}
use denju.Base.{ℕ, ◌^◌, ◌<◌, ◌≡◌, sym, ap, ap₂, ◌∙◌, true, false, List, [], ◌∷◌, ◌++◌, some, Bytes}
use denju.Base.{
  All, Result, ok, err, take, drop, ltb, if◌then◌else◌, arith, Result-cases, inl, inr,
  take-append-drop, Bool-cases,
}
use mathlib.Core.List.{append_assoc, append-nil}
use denju.Registry.Api.{ApiError, Host}
use denju.Registry.Tables.{Tables, OutboxRow, update_where}
use denju.Registry.Outbox.Defs.{
  RegistryWake, resource, selected, mark, settle, clamp_limit, wake_of, dispatch, drain_outbox,
  enqueue_wake_payload, enqueue_resource_wake,
}
use denju.Registry.Outbox.Order.{has_event}
use denju.Registry.Outbox.Enqueue.{IsSequenced, enqueue_resource_wake-pending}
use denju.Registry.Outbox.Queue.{
  Represents, drain_outbox-Represents, enqueue_resource_wake-Represents,
}

-- What is asked of the outbox: to write the wake of a resource, or to be drained up to a limit.
pub data Command : Type 0 where
  write : Bytes → ℕ → Command
  drain : ℕ → Command

-- The wakes that the commands write: a generation past the range of the database is refused.
unfoldable pub accepted : List Command → List RegistryWake
accepted [] = []
accepted (write resource_id generation ∷ commands) =
    let rest = accepted commands in
    if ltb generation (2 ^ 63) then resource resource_id generation ∷ rest else rest
accepted (drain limit ∷ commands) = accepted commands

-- A write that fails leaves the tables as they were.
unfoldable pub or_before : Tables → Result ApiError Tables → Tables
or_before t (ok done) = done
or_before t (err e) = t

below_mark :
    (n id : ℕ) (rows : List OutboxRow)
    → All (λ row. row.event_id < n) rows
    → All (λ row. row.event_id < n) (update_where (has_event id) mark rows)
unfolding update_where
below_mark n id [] a = tt
below_mark n id (row ∷ rows) a = (ground (arith, a.0), below_mark n id rows a.1)

module _ (h : Host) where
  -- The tables after the commands, and the wakes that were sent, the oldest first.
  unfoldable pub run : List Command → Tables → Tables × List RegistryWake
  unfolding or_before
  run [] t = (t, [])
  run (write resource_id generation ∷ commands) t =
      run commands (or_before t (enqueue_resource_wake h resource_id generation t))
  run (drain limit ∷ commands) t =
      let (left, sent, _) = drain_outbox h limit t.outbox_events in
      let (last, more) = run commands (record t { outbox_events = left }) in (last, sent ++ more)

  below_dispatch :
      (n : ℕ) (chosen rows left : List OutboxRow)
      → All (λ row. row.event_id < n) rows
      → (dispatch h chosen rows).1 ≡ ok left
      → All (λ row. row.event_id < n) left
  unfolding dispatch
  below_dispatch n [] rows left a e = let same : rows ≡ left = cc e in rw (sym same) a
  below_dispatch n (row ∷ chosen) rows left a e = elim (Result-cases (wake_of h row)) [
    | inl (wake, read) ↦
        below_dispatch n chosen (update_where (has_event row.event_id) mark rows) left
          (below_mark n row.event_id rows a) (ground arith)
    | inr (failure, failed) ↦ absurd (ground arith)
  ]

  below_drain :
      (n limit : ℕ) (rows : List OutboxRow)
      → All (λ row. row.event_id < n) rows
      → All (λ row. row.event_id < n) (drain_outbox h limit rows).0
  unfolding drain_outbox settle
  below_drain n limit rows a = elim (Result-cases (dispatch h (selected limit rows) rows).1) [
    | inl (left, ended) ↦
        let same : (drain_outbox h limit rows).0 ≡ left = ground arith in
        rw same (below_dispatch n (selected limit rows) rows left a ended)
    | inr (failure, failed) ↦
        let same : (drain_outbox h limit rows).0 ≡ rows = ground arith in rw same a
  ]

  enqueue_in_range :
      (resource_id : Bytes) (generation : ℕ) (t : Tables)
      → ltb generation (2 ^ 63) ≡ true
      → (done : Tables) × (enqueue_resource_wake h resource_id generation t ≡ ok done)
  unfolding enqueue_resource_wake enqueue_wake_payload
  enqueue_in_range resource_id generation t fits =
      elim (Result-cases (enqueue_resource_wake h resource_id generation t)) [
        | inl (done, written) ↦ (done, written)
        | inr (failure, failed) ↦ absurd (ground arith)
      ]

  enqueue_past_range :
      (resource_id : Bytes) (generation : ℕ) (t : Tables)
      → ltb generation (2 ^ 63) ≡ false
      → or_before t (enqueue_resource_wake h resource_id generation t) ≡ t
  unfolding enqueue_resource_wake enqueue_wake_payload or_before
  enqueue_past_range resource_id generation t fits = ground arith

  written-done :
      (t done : Tables) (outcome : Result ApiError Tables)
      → outcome ≡ ok done
      → or_before t outcome ≡ done
  unfolding or_before
  written-done t done outcome e = rw e

  -- The outbox after a run represents a queue that the wakes sent before complete to the given ones.
  abbrev pub Completes : Tables × List RegistryWake → List RegistryWake → Type 0
  Completes done wakes =
      (left : List RegistryWake) × Represents h done.0.outbox_events left × (done.1 ++ left ≡ wakes)

  run-write :
      (resource_id : Bytes) (generation : ℕ) (commands : List Command) (t after : Tables)
      (wakes : List RegistryWake)
      → or_before t (enqueue_resource_wake h resource_id generation t) ≡ after
      → Completes (run commands after) wakes
      → Completes (run (write resource_id generation ∷ commands) t) wakes
  unfolding run
  run-write resource_id generation commands t after wakes same completes =
      subst (λ u. Completes (run commands u) wakes) (sym same) completes

  -- Where the text of every identity is read back as the identity, and the outbox in the beginning is in
  -- order and represents a queue: however writes and drains follow each other, and whatever the limits of
  -- the drains are, the outbox in the end represents a queue. The wakes that were sent, followed by those of
  -- that queue, are the wakes of the first queue followed by the ones that were written in the range of the
  -- database, in their order. So no wake is lost, sent twice, or sent before an older one.
  pub run-accepted :
      (commands : List Command) (t : Tables) (queue : List RegistryWake)
      → ((resource_id : Bytes) → h.parse_str (h.uuid_text resource_id) ≡ some resource_id)
      → IsSequenced t
      → Represents h t.outbox_events queue
      → Completes (run commands t) (queue ++ accepted commands)
  unfolding run accepted
  run-accepted [] t queue back sequenced represents = (queue, represents, sym (append-nil queue))
  run-accepted (write resource_id generation ∷ commands) t queue back sequenced represents =
      elim (Bool-cases (ltb generation (2 ^ 63))) [
        | inl fits ↦
            let (done, written) = enqueue_in_range resource_id generation t fits in
            let (after, _, _, _) =
              enqueue_resource_wake-pending h resource_id generation t done (back resource_id)
                sequenced written in
            let (left, rest, same) =
              run-accepted commands done (queue ++ resource resource_id generation ∷ []) back after
                (enqueue_resource_wake-Represents h resource_id generation t done queue
                  (back resource_id) sequenced represents written) in
            run-write resource_id generation commands t done
              (queue ++ accepted (write resource_id generation ∷ commands))
              (written-done t done (enqueue_resource_wake h resource_id generation t) written)
              (
                left,
                rest,
                same
                    ∙ append_assoc queue (resource resource_id generation ∷ []) (accepted commands)
                    ∙ ap (λ xs. queue ++ xs) (ground (arith, fits)),
              )
        | inr past ↦
            run-write resource_id generation commands t t
              (queue ++ accepted (write resource_id generation ∷ commands))
              (enqueue_past_range resource_id generation t past)
              (rw past (run-accepted commands t queue back sequenced represents))
      ]
  run-accepted (drain limit ∷ commands) t queue back (ordered, below) represents =
      let (after, sent, _) = drain_outbox-Represents h limit t.outbox_events queue represents in
      let (left, rest, same) =
        run-accepted commands
          (record t { outbox_events = (drain_outbox h limit t.outbox_events).0 })
          (drop (clamp_limit limit) queue) back
          (after.0, below_drain t.next_event limit t.outbox_events below) after in
      (
        left,
        rest,
        append_assoc (drain_outbox h limit t.outbox_events).1 _ left
            ∙ ap₂ (λ xs ys. xs ++ ys) sent same
            ∙ sym (
                append_assoc (take (clamp_limit limit) queue) (drop (clamp_limit limit) queue)
                  (accepted commands))
            ∙ ap (λ xs. xs ++ accepted commands) (take-append-drop (clamp_limit limit) queue),
      )
