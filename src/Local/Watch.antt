-- ===== src/Local/Watch.antt =====
-- `WorkspaceWatcher` (crates/denju-local/src/workspace_watch.rs): a bounded channel of hints and a flag
-- that stands in for those that do not fit. The callback of `notify` and the calls of the receiver
-- are steps that do not overlap. The watcher keeps the sender of the channel alive. `try_send` of
-- the channel of tokio is a parameter: the hints waiting after a hint is sent, or none where it is refused.
use denju.Base.{◌≡◌, refl, ap, ◌∙◌, Bool, true, false, ◌&&◌, ◌||◌, Option, none, some, not}
use denju.Base.{List, [], ◌∷◌, ◌++◌, arith, if◌then◌else◌, any, Option-cases, inl, inr}

pub record WorkspaceWatcher : Type 0 where
  pub queue : List Bool
  pub force_full_scan : Bool

-- `start`
abbrev pub start : WorkspaceWatcher
start = record { queue = []; force_full_scan = false }

-- What happens: the callback, with whether its event is an error, or a call of the receiver.
pub data Event : Type 0 where
  callback : Bool → Event
  changed : Event
  drain_full_scan_hint : Bool → Event

-- `changed`: it waits for a hint, and takes the flag only if the hint is false.
unfoldable pub on_changed : WorkspaceWatcher → Option (Bool × WorkspaceWatcher)
on_changed w = elim w.queue [
  | [] ↦ none
  | true ∷ rest ↦ some (true, record w { queue = rest })
  | false ∷ rest ↦ some (w.force_full_scan, record { queue = rest; force_full_scan = false })
]

-- The loop of `drain_full_scan_hint`.
unfoldable pub collect_hints : Bool → List Bool → Bool
collect_hints full_scan [] = full_scan
collect_hints full_scan (hint ∷ rest) = collect_hints (full_scan || hint) rest

unfoldable pub on_drain : Bool → WorkspaceWatcher → Bool × WorkspaceWatcher
unfolding collect_hints
on_drain full_scan w =
    if collect_hints full_scan w.queue
    then (true, record w { queue = [] })
    else (w.force_full_scan, record { queue = []; force_full_scan = false })

-- Whether `try_send` fails
unfoldable is_refused : Option (List Bool) → Bool
is_refused none = true
is_refused (some queue) = false

-- A watcher, and whether its client is owed a full scan: an event was an error or was refused by the channel, and
-- no call has reported a full scan since.
pub record Watched : Type 0 where
  pub watcher : WorkspaceWatcher
  pub owed : Bool

-- The owed scan is still to be reported.
abbrev pub IsKept : Watched → Type 0
IsKept s = (not s.owed || (s.watcher.force_full_scan || any (λ hint. hint) s.watcher.queue)) ≡ true

any-append-hint :
    (queue : List Bool) (hint : Bool)
    → any (λ h. h) (queue ++ hint ∷ []) ≡ (any (λ h. h) queue || hint)
unfolding any
any-append-hint [] hint = ground arith
any-append-hint (h ∷ queue) hint = ground (arith, any-append-hint queue hint)

collect_hints-any :
    (full_scan : Bool) (queue : List Bool)
    → collect_hints full_scan queue ≡ (full_scan || any (λ h. h) queue)
unfolding collect_hints any
collect_hints-any full_scan [] = ground arith
collect_hints-any full_scan (hint ∷ rest) =
    ground (arith, collect_hints-any (full_scan || hint) rest)

abbrev watched : List Bool → Bool → Bool → Watched
watched queue flag owed = record {
  watcher = record { queue = queue; force_full_scan = flag };
  owed = owed;
}

abbrev pub started : Watched
started = record { watcher = start; owed = false }

started-IsKept : IsKept started
unfolding any
started-IsKept = refl

-- A channel that takes a hint puts it after the others.
abbrev pub IsChannel : (Bool → List Bool → Option (List Bool)) → Type 0
IsChannel try_send =
    (hint : Bool) (queue after : List Bool)
    → try_send hint queue ≡ some after
    → after ≡ queue ++ hint ∷ []

module _ (try_send : Bool → List Bool → Option (List Bool)) where
  -- The callback: a hint that the channel refuses forces a full scan.
  unfoldable pub on_event : Bool → WorkspaceWatcher → WorkspaceWatcher
  on_event full_scan w = elim (try_send full_scan w.queue) [
    | none ↦ record w { force_full_scan = true }
    | some queue ↦ record { queue = queue; force_full_scan = full_scan || w.force_full_scan }
  ]

  unfoldable pub step : Event → Watched → Watched
  unfolding on_event on_changed on_drain is_refused
  step (callback full_scan) s = record {
    watcher = on_event full_scan s.watcher;
    owed = full_scan || is_refused (try_send full_scan s.watcher.queue) || s.owed;
  }
  step changed s = elim (on_changed s.watcher) [
    | none ↦ s
    | some (full_scan, w) ↦ record { watcher = w; owed = not full_scan && s.owed }
  ]
  step (drain_full_scan_hint full_scan) s = record {
    watcher = (on_drain full_scan s.watcher).1;
    owed = not (on_drain full_scan s.watcher).0 && s.owed;
  }

  unfoldable pub run : List Event → Watched → Watched
  unfolding step
  run [] s = s
  run (event ∷ events) s = run events (step event s)

  callback-IsKept :
      (full_scan : Bool) (queue : List Bool) (flag owed : Bool)
      → IsChannel try_send
      → IsKept (watched queue flag owed)
      → IsKept (step (callback full_scan) (watched queue flag owed))
  unfolding step on_event is_refused
  callback-IsKept full_scan queue flag owed sends kept =
      elim (Option-cases (try_send full_scan queue)) [
        | inl refused ↦ ground (arith, refused, kept)
        | inr (after, sent) ↦
            let same : after ≡ queue ++ full_scan ∷ [] = sends full_scan queue after sent in
            ground (arith, sent, ap (any (λ h. h)) same ∙ any-append-hint queue full_scan, kept)
      ]

  changed-IsKept :
      (queue : List Bool) (flag owed : Bool)
      → IsKept (watched queue flag owed)
      → IsKept (step changed (watched queue flag owed))
  unfolding step on_changed any
  changed-IsKept [] flag owed kept = kept
  changed-IsKept (true ∷ rest) flag owed kept = ground arith
  changed-IsKept (false ∷ rest) flag owed kept = ground (arith, kept)

  drain-IsKept :
      (full_scan : Bool) (queue : List Bool) (flag owed : Bool)
      → IsKept (watched queue flag owed)
      → IsKept (step (drain_full_scan_hint full_scan) (watched queue flag owed))
  unfolding step on_drain any
  drain-IsKept full_scan queue flag owed kept =
      ground (arith, collect_hints-any full_scan queue, kept)

  step-IsKept :
      (event : Event) (s : Watched) → IsChannel try_send → IsKept s → IsKept (step event s)
  step-IsKept (callback full_scan) s sends kept =
      callback-IsKept full_scan s.watcher.queue s.watcher.force_full_scan s.owed sends kept
  step-IsKept changed s sends kept =
      changed-IsKept s.watcher.queue s.watcher.force_full_scan s.owed kept
  step-IsKept (drain_full_scan_hint full_scan) s sends kept =
      drain-IsKept full_scan s.watcher.queue s.watcher.force_full_scan s.owed kept

  run-IsKept :
      (events : List Event) (s : Watched) → IsChannel try_send → IsKept s → IsKept (run events s)
  unfolding run
  run-IsKept [] s sends kept = kept
  run-IsKept (event ∷ events) s sends kept =
      run-IsKept events (step event s) sends (step-IsKept event s sends kept)

  -- After an error of the file system or an event that the channel refused, and before a call has
  -- reported a full scan, the next drain reports one, in whatever order callbacks and calls came and
  -- however many hints the channel holds, where a hint that it takes goes to its end.
  pub on_drain-owed :
      (events : List Event)
      → IsChannel try_send
      → (run events started).owed ≡ true
      → (on_drain false (run events started).watcher).0 ≡ true
  unfolding on_drain
  on_drain-owed events sends owed =
      let kept = run-IsKept events started sends started-IsKept in
      ground (arith, collect_hints-any false (run events started).watcher.queue, kept, owed)
