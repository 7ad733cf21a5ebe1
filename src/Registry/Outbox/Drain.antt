-- ===== src/Registry/Outbox/Drain.antt =====
-- What draining the outbox sends and leaves.

use denju.Base.{ℕ, zero, suc, ◌≤◌, ◌≡◌, refl, sym, ap, ◌∙◌, true, List, [], ◌∷◌, map}
use denju.Base.{Result, ok, take, drop, length, is_ok, arith, All}
use denju.Base.{◌++◌, ◌-◌, ap₂, take-append-drop}
use mathlib.Core.List.{map-append}
use denju.Base.{inl, inr, Result-cases}
use denju.Registry.Api.{ApiError, Host}
use denju.Registry.Tables.{OutboxRow, update_where}
use denju.Registry.Outbox.Defs.{
  RegistryWake, clamp_limit, pending, selected, mark, wake_of, dispatch, settle, drain_outbox,
}
use denju.Registry.Outbox.Order.{
  IsOrdered, has_event, pending-IsOrdered, sort_ordered, mark-IsOrdered, pending-mark,
}

length_zero : {A : Type 0} (xs : List A) → length xs ≤ 0 → xs ≡ []
length_zero [] e = refl
length_zero (x ∷ xs) e = absurd (omega arith)

length-drop : {A : Type 0} (n : ℕ) (xs : List A) → length (drop n xs) ≡ length xs - n
length-drop zero xs = omega arith
length-drop (suc n) [] = omega arith
length-drop (suc n) (x ∷ xs) = omega (arith, length-drop n xs)

All-drop : (P : OutboxRow → Type 0) (n : ℕ) (xs : List OutboxRow) → All P xs → All P (drop n xs)
All-drop P zero xs a = a
All-drop P (suc n) [] a = tt
All-drop P (suc n) (x ∷ xs) a = All-drop P n xs a.1

clamp_limit_positive : (limit : ℕ) → 1 ≤ clamp_limit limit
unfolding clamp_limit
clamp_limit_positive limit = ground arith

settled :
    (rows left : List OutboxRow) (count : ℕ)
    (run : List RegistryWake × Result ApiError (List OutboxRow))
    → run.1 ≡ ok left
    → settle rows count run ≡ (left, run.0, ok count)
unfolding settle
settled rows left count run e = ground (arith, Result-cases run.1)

module _ (h : Host) where
  -- Rows whose payload is one that the registry writes.
  abbrev pub IsReadable : List OutboxRow → Type 0
  IsReadable rows = All (λ row. is_ok (wake_of h row) ≡ true) (pending rows)

  abbrev wakes_of : List OutboxRow → List (Result ApiError RegistryWake)
  wakes_of rows = map (wake_of h) rows

  dispatch_step :
      (p : OutboxRow) (rest rows : List OutboxRow) (wake : RegistryWake)
      → wake_of h p ≡ ok wake
      → (dispatch h (p ∷ rest) rows).0
        ≡ wake ∷ (dispatch h rest (update_where (has_event p.event_id) mark rows)).0
  unfolding dispatch
  dispatch_step p rest rows wake read = ground arith

  cons_ok :
      (p : OutboxRow) {wake : RegistryWake} {ws vs : List (Result ApiError RegistryWake)}
      → wake_of h p ≡ ok wake
      → ws ≡ vs
      → ◌≡◌ {A = List (Result ApiError RegistryWake)} (ok wake ∷ ws) (wake_of h p ∷ vs)
  cons_ok p read same = cc (read, same)

  selected-take :
      (limit : ℕ) (rows : List OutboxRow)
      → IsOrdered rows
      → selected limit rows ≡ take (clamp_limit limit) (pending rows)
  unfolding selected
  selected-take limit rows o =
      ap (take (clamp_limit limit)) (sort_ordered (pending rows) (pending-IsOrdered rows o))

  dispatch-first :
      (n : ℕ) (rows : List OutboxRow)
      → IsOrdered rows
      → IsReadable rows
      → (left : List OutboxRow) × ((dispatch h (take n (pending rows)) rows).1 ≡ ok left)
        × (pending left ≡ drop n (pending rows))
        × IsOrdered left
        × (map ok (dispatch h (take n (pending rows)) rows).0 ≡ wakes_of (take n (pending rows)))
  unfolding dispatch
  dispatch-first n rows o readable = go n (pending rows) rows o refl readable
    where
      go :
          (n : ℕ) (ps rows : List OutboxRow)
          → IsOrdered rows
          → pending rows ≡ ps
          → All (λ row. is_ok (wake_of h row) ≡ true) ps
          → (left : List OutboxRow) × ((dispatch h (take n ps) rows).1 ≡ ok left)
            × (pending left ≡ drop n ps)
            × IsOrdered left
            × (map ok (dispatch h (take n ps) rows).0 ≡ wakes_of (take n ps))
      go zero ps rows o e readable = (rows, refl, e, o, refl)
      go (suc n) [] rows o e readable = (rows, refl, e, o, refl)
      go (suc n) (p ∷ ps) rows o e readable =
          let (left, ended, rest, ordered, sent) =
            go n ps (update_where (has_event p.event_id) mark rows)
              (mark-IsOrdered p.event_id rows o) (pending-mark rows ps p o e) readable.1 in
          elim (Result-cases (wake_of h p)) [
            | inl (wake, read) ↦
                let sent_first : map ok (dispatch h (p ∷ take n ps) rows).0
                    ≡ wakes_of (p ∷ take n ps) =
                  ap (map ok) (dispatch_step p (take n ps) rows wake read) ∙ cons_ok p read sent in
                (left, ground arith, rest, ordered, sent_first)
            | inr (failure, failed) ↦ absurd (ground arith)
          ]

  drain_outbox_lem :
      (limit : ℕ) (rows chosen left : List OutboxRow)
      → selected limit rows ≡ chosen
      → (dispatch h chosen rows).1 ≡ ok left
      → drain_outbox h limit rows ≡ (left, (dispatch h chosen rows).0, ok (length chosen))
  unfolding drain_outbox
  drain_outbox_lem limit rows chosen left same ended =
      ap (λ xs. settle rows (length xs) (dispatch h xs rows)) same
      ∙ settled rows left (length chosen) (dispatch h chosen rows) ended

  -- One drain of an outbox in order whose pending events can be read: it sends the wakes of the oldest ones, as
  -- many as the limit allows, in their order, counts them, and leaves the others pending.
  pub drain_outbox-oldest :
      (limit : ℕ) (rows : List OutboxRow)
      → IsOrdered rows
      → IsReadable rows
      → (pending (drain_outbox h limit rows).0 ≡ drop (clamp_limit limit) (pending rows))
        × (map ok (drain_outbox h limit rows).1
            ≡ map (wake_of h) (take (clamp_limit limit) (pending rows)))
        × ((drain_outbox h limit rows).2 ≡ ok (length (take (clamp_limit limit) (pending rows))))
        × IsOrdered (drain_outbox h limit rows).0
  drain_outbox-oldest limit rows o readable =
      let (left, ended, rest, ordered, sent) = dispatch-first (clamp_limit limit) rows o readable in
      rw
        (drain_outbox_lem limit rows (take (clamp_limit limit) (pending rows)) left
          (selected-take limit rows o) ended)
        (rest, sent, refl, ordered)

  -- Drains one after the other: the outbox in the end, and all that was sent.
  unfoldable pub drains : ℕ → ℕ → List OutboxRow → List OutboxRow × List RegistryWake
  drains zero limit rows = (rows, [])
  drains (suc n) limit rows =
      let (left, sent, _) = drain_outbox h limit rows in
      let (last, more) = drains n limit left in (last, sent ++ more)

  -- In an outbox in order whose pending events can be read, as many drains as there are pending events,
  -- with any limit, dispatch every one of them, each once and in the order of their identities.
  pub drains-all :
      (rounds limit : ℕ) (rows : List OutboxRow)
      → IsOrdered rows
      → IsReadable rows
      → length (pending rows) ≤ rounds
      → (pending (drains rounds limit rows).0 ≡ [])
        × (map ok (drains rounds limit rows).1 ≡ map (wake_of h) (pending rows))
  unfolding drains
  drains-all zero limit rows o readable enough =
      let none_left : pending rows ≡ [] = length_zero (pending rows) enough in
      (none_left, rw none_left)
  drains-all (suc n) limit rows o readable enough =
      let (rest, sent, _, ordered) = drain_outbox-oldest limit rows o readable in
      let (empty, later) =
        drains-all n limit (drain_outbox h limit rows).0 ordered
          (rw rest (All-drop _ (clamp_limit limit) (pending rows) readable))
          (rw rest (
            omega (
              arith,
              length-drop (clamp_limit limit) (pending rows),
              clamp_limit_positive limit,
            ))) in
      (
        empty,
        map-append ok (drain_outbox h limit rows).1 _
            ∙ ap₂ (λ xs ys. xs ++ ys) sent (later ∙ ap (map (wake_of h)) rest)
            ∙ sym (map-append (wake_of h) (take (clamp_limit limit) (pending rows)) _)
            ∙ ap (map (wake_of h)) (take-append-drop (clamp_limit limit) (pending rows)),
      )
