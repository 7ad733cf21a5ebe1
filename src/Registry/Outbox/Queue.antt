-- ===== src/Registry/Outbox/Queue.antt =====
-- The outbox implements a queue of wakes: writing a wake puts it last, and a drain takes the first ones.
use mathlib.Core.List.{map-append}
use denju.Base.{
  ℕ, zero, suc, ◌≡◌, refl, sym, ap, ap₂, ◌∙◌, true, List, [], ◌∷◌, ◌++◌, map, some, Bytes,
}
use denju.Base.{All, Result, ok, is_ok, take, drop, length}
use denju.Registry.Api.{ApiError, Host}
use denju.Registry.Tables.{Tables, OutboxRow}
use denju.Registry.Outbox.Defs.{
  RegistryWake, resource, pending, clamp_limit, wake_of, drain_outbox, enqueue_resource_wake,
}
use denju.Registry.Outbox.Order.{IsOrdered}
use denju.Registry.Outbox.Drain.{drain_outbox-oldest}
use denju.Registry.Outbox.Enqueue.{IsSequenced, enqueue_resource_wake-pending}

abbrev results : List RegistryWake → List (Result ApiError RegistryWake)
results queue = map ok queue

results_injective : (xs ys : List RegistryWake) → results xs ≡ results ys → xs ≡ ys
results_injective [] [] e = refl
results_injective [] (y ∷ ys) e = cc e
results_injective (x ∷ xs) [] e = cc e
results_injective (x ∷ xs) (y ∷ ys) e = ap₂ (λ w ws. w ∷ ws) (cc e) (results_injective xs ys (cc e))

map-take : {A B : Type 0} (f : A → B) (n : ℕ) (xs : List A) → map f (take n xs) ≡ take n (map f xs)
map-take f zero xs = refl
map-take f (suc n) [] = refl
map-take f (suc n) (x ∷ xs) = ap (λ ys. f x ∷ ys) (map-take f n xs)

map-drop : {A B : Type 0} (f : A → B) (n : ℕ) (xs : List A) → map f (drop n xs) ≡ drop n (map f xs)
map-drop f zero xs = refl
map-drop f (suc n) [] = refl
map-drop f (suc n) (x ∷ xs) = map-drop f n xs

length-map : {A B : Type 0} (f : A → B) (xs : List A) → length (map f xs) ≡ length xs
length-map f [] = refl
length-map f (x ∷ xs) = ap suc (length-map f xs)

module _ (h : Host) where
  -- The pending rows of an outbox in order are read as the wakes of the queue.
  abbrev pub Represents : List OutboxRow → List RegistryWake → Type 0
  Represents rows queue = IsOrdered rows × (map (wake_of h) (pending rows) ≡ results queue)

  All-read :
      (rows : List OutboxRow) (queue : List RegistryWake)
      → map (wake_of h) rows ≡ results queue
      → All (λ row. is_ok (wake_of h row) ≡ true) rows
  All-read [] queue e = tt
  All-read (row ∷ rows) [] e = cc e
  All-read (row ∷ rows) (wake ∷ queue) e =
      let head : wake_of h row ≡ ok wake = cc e in (ap is_ok head, All-read rows queue (cc e))

  -- A drain of an outbox that represents a queue sends the first wakes of the queue, as many as the limit
  -- allows, reports their number, and leaves an outbox that represents the rest of the queue.
  pub drain_outbox-Represents :
      (limit : ℕ) (rows : List OutboxRow) (queue : List RegistryWake)
      → Represents rows queue
      → Represents (drain_outbox h limit rows).0 (drop (clamp_limit limit) queue)
        × ((drain_outbox h limit rows).1 ≡ take (clamp_limit limit) queue)
        × ((drain_outbox h limit rows).2 ≡ ok (length (take (clamp_limit limit) queue)))
  drain_outbox-Represents limit rows queue (ordered, same) =
      let n = clamp_limit limit in
      let (rest, sent, count, after) =
        drain_outbox-oldest h limit rows ordered (All-read (pending rows) queue same) in
      let front : map (wake_of h) (take n (pending rows)) ≡ results (take n queue) =
        map-take (wake_of h) n (pending rows) ∙ ap (take n) same ∙ sym (map-take ok n queue) in
      (
        (
          after,
          ap (map (wake_of h)) rest
              ∙ map-drop (wake_of h) n (pending rows)
              ∙ ap (drop n) same
              ∙ sym (map-drop ok n queue),
        ),
        results_injective (drain_outbox h limit rows).1 (take n queue) (sent ∙ front),
        count
            ∙ ap ok (
                sym (length-map (wake_of h) (take n (pending rows)))
                ∙ ap length front
                ∙ length-map ok (take n queue)),
      )

  -- Where the text of an identity is read back as the identity, writing a resource wake in an outbox that
  -- represents a queue gives an outbox that represents the queue with that wake at its end.
  pub enqueue_resource_wake-Represents :
      (resource_id : Bytes) (generation : ℕ) (t done : Tables) (queue : List RegistryWake)
      → h.parse_str (h.uuid_text resource_id) ≡ some resource_id
      → IsSequenced t
      → Represents t.outbox_events queue
      → enqueue_resource_wake h resource_id generation t ≡ ok done
      → Represents done.outbox_events (queue ++ resource resource_id generation ∷ [])
  enqueue_resource_wake-Represents resource_id generation t done queue back sequenced (_, same) e =
      let (after, row, last, read) =
        enqueue_resource_wake-pending h resource_id generation t done back sequenced e in
      (
        after.0,
        ap (map (wake_of h)) last
            ∙ map-append (wake_of h) (pending t.outbox_events) (row ∷ [])
            ∙ ap₂ (λ xs x. xs ++ x ∷ []) same read
            ∙ sym (map-append ok queue (resource resource_id generation ∷ [])),
      )
