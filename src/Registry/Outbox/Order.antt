-- ===== src/Registry/Outbox/Order.antt =====
-- The order of the outbox, and what marking an event as dispatched makes of it.
use Prim.Native.Nat.{compare}
use denju.Base.{ℕ, ◌<◌, ◌≡◌, refl, Bool, true, false, List, [], ◌∷◌}
use denju.Base.{arith, All, sort_by, insert_by, nat_eq}
use denju.Base.{if◌then◌else◌, Bool-cases, inl, inr}
use denju.Registry.Tables.{OutboxRow, update_where}
use denju.Registry.Outbox.Defs.{pending, mark}

-- The identities of events ascend, as their sequence gives them.
abbrev pub IsOrdered : List OutboxRow → Type 0
IsOrdered [] = Unit
IsOrdered (row ∷ rows) = All (λ later. row.event_id < later.event_id) rows × IsOrdered rows

abbrev pub has_event : ℕ → OutboxRow → Bool
has_event id row = nat_eq row.event_id id

All-if :
    (P : OutboxRow → Type 0) (b : Bool) (xs ys : List OutboxRow)
    → All P xs
    → All P ys
    → All P (if b then xs else ys)
All-if P true xs ys p q = p
All-if P false xs ys p q = q

pub All-pending :
    (P : OutboxRow → Type 0) (rows : List OutboxRow) → All P rows → All P (pending rows)
unfolding pending
All-pending P [] a = tt
All-pending P (row ∷ rows) a =
    All-if P row.dispatched (pending rows) (row ∷ pending rows) (All-pending P rows a.1)
      (a.0, All-pending P rows a.1)

pub pending-IsOrdered : (rows : List OutboxRow) → IsOrdered rows → IsOrdered (pending rows)
unfolding pending
pending-IsOrdered [] o = tt
pending-IsOrdered (row ∷ rows) o = elim (Bool-cases row.dispatched) [
  | inl c ↦ rw c (pending-IsOrdered rows o.1)
  | inr c ↦
      rw c
        (All-pending (λ later. row.event_id < later.event_id) rows o.0, pending-IsOrdered rows o.1)
]

pub sort_ordered :
    (rows : List OutboxRow)
    → IsOrdered rows
    → sort_by (λ a b. compare a.event_id b.event_id) rows ≡ rows
unfolding sort_by insert_by
sort_ordered [] o = refl
sort_ordered (row ∷ []) o = refl
sort_ordered (row ∷ next ∷ rows) o = rw (sort_ordered (next ∷ rows) o.1) (ground (arith, o.0.0))

-- Marking an event does not touch later ones.
mark_later :
    (id : ℕ) (rows : List OutboxRow)
    → All (λ later. id < later.event_id) rows
    → update_where (has_event id) mark rows ≡ rows
unfolding update_where
mark_later id [] a = refl
mark_later id (row ∷ rows) a = ground (arith, a.0, mark_later id rows a.1)

All-mark :
    (n id : ℕ) (rows : List OutboxRow)
    → All (λ later. n < later.event_id) rows
    → All (λ later. n < later.event_id) (update_where (has_event id) mark rows)
unfolding update_where
All-mark n id [] a = tt
All-mark n id (row ∷ rows) a = (ground (arith, a.0), All-mark n id rows a.1)

pub mark-IsOrdered :
    (id : ℕ) (rows : List OutboxRow)
    → IsOrdered rows
    → IsOrdered (update_where (has_event id) mark rows)
unfolding update_where
mark-IsOrdered id [] o = tt
mark-IsOrdered id (row ∷ rows) o = (
  elim (Bool-cases (has_event id row)) [
    | inl c ↦ rw c (All-mark row.event_id id rows o.0)
    | inr c ↦ rw c (All-mark row.event_id id rows o.0)
  ],
  mark-IsOrdered id rows o.1,
)

-- Marking the first pending event leaves the others pending.
pub pending-mark :
    (rows ps : List OutboxRow) (p : OutboxRow)
    → IsOrdered rows
    → pending rows ≡ p ∷ ps
    → pending (update_where (has_event p.event_id) mark rows) ≡ ps
unfolding pending update_where
pending-mark [] ps p o e = cc e
pending-mark (row ∷ rows) ps p o e = elim (Bool-cases row.dispatched) [
  | inl c ↦ ground (arith, pending-mark rows ps p o.1)
  | inr c ↦
      let same : row ≡ p = ground arith in
      let later = mark_later p.event_id rows (rw same at o.0) in ground arith
]
