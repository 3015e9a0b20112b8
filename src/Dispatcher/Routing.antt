-- ===== src/Dispatcher/Routing.antt =====
-- The fan-out of dispatcher.go: which queues get an event.
use tallyd.Base.{
  ◌≡◌, refl, ap, String, Bool, true, false, Option, none, some, List, [], ◌∷◌, ◌++◌, map, inl, inr,
  if◌then◌else◌, arith, Bool-cases,
}
use tallyd.Adapter.{Event}
use tallyd.Wal.Log.{Entry}
use tallyd.Dispatcher.{Enqueued, dispatch, replay_entry, replay_pending}

module _ (known : String → Bool) where
  abbrev pub AllKnown : List String → Type 0
  AllKnown [] = Unit {0}
  AllKnown (p ∷ ps) = (known p ≡ true) × AllKnown ps

  -- Every provider of `ps` gets the event once, in order.
  abbrev pub to_each : Event → List String → Enqueued
  to_each event ps = map (λ p. (p, event)) ps

  -- What Dispatch promises for each of its results.
  abbrev pub Dispatched : Event → List String → Enqueued × Option String → Type 0
  Dispatched event ps (queued, none) = AllKnown ps × (queued ≡ to_each event ps)
  Dispatched event ps (queued, some p) =
      (before : List String) × (after : List String) × (ps ≡ before ++ p ∷ after)
      × AllKnown before
      × (known p ≡ false)
      × (queued ≡ to_each event before)

  Dispatched-cons :
      (event : Event) (p : String) (ps : List String) (queued : Enqueued) (failure : Option String)
      → known p ≡ true
      → Dispatched event ps (queued, failure)
      → Dispatched event (p ∷ ps) ((p, event) ∷ queued, failure)
  Dispatched-cons event p ps queued none h (all, each) = ((h, all), ap (λ l. (p, event) ∷ l) each)
  Dispatched-cons event p ps queued (some q) h (before, after, shape, all, unknown, each) =
      (p ∷ before, after, ap (λ l. p ∷ l) shape, (h, all), unknown, ap (λ l. (p, event) ∷ l) each)

  -- Dispatch without an error has put the event on the queue of every provider it was given, once
  -- for each time it is named and in their order, and all of them are configured. With an error it
  -- has put the event on the queues of the providers before the first that is not configured, and
  -- on no queue behind it.
  pub dispatch_lem :
      (event : Event) (ps : List String) → Dispatched event ps (dispatch known event ps)
  unfolding dispatch
  dispatch_lem event [] = (tt, refl)
  dispatch_lem event (p ∷ ps) = elim (Bool-cases (known p)) [
    | inl h ↦ rw h (
        Dispatched-cons event p ps ((dispatch known event ps).0) ((dispatch known event ps).1) h
          (dispatch_lem event ps))
    | inr h ↦ rw h ([], ps, refl, tt, h, refl)
  ]

  -- The pairs an entry owes, a pair for each pending provider, configured or not.
  abbrev pub owed : List Entry → Enqueued
  owed [] = []
  owed (e ∷ es) = to_each e.event e.pending ++ owed es

  -- The pairs of configured providers.
  abbrev pub keep_known : Enqueued → Enqueued
  keep_known [] = []
  keep_known ((p, e) ∷ rest) = let kept = keep_known rest in if known p then (p, e) ∷ kept else kept

  keep_known-append : (xs ys : Enqueued) → keep_known (xs ++ ys) ≡ keep_known xs ++ keep_known ys
  keep_known-append [] ys = refl
  keep_known-append ((p, e) ∷ xs) ys = ground (arith, keep_known-append xs ys)

  replay_entry-keep :
      (event : Event) (ps : List String)
      → replay_entry known event ps ≡ keep_known (to_each event ps)
  unfolding replay_entry
  replay_entry-keep event [] = refl
  replay_entry-keep event (p ∷ ps) = ground (arith, replay_entry-keep event ps)

  -- ReplayPending puts every entry's event on the queue of each of its pending providers that is
  -- configured, in order, and leaves out exactly the providers that are not.
  pub replay_pending_lem : (es : List Entry) → replay_pending known es ≡ keep_known (owed es)
  unfolding replay_pending
  replay_pending_lem [] = refl
  replay_pending_lem (e ∷ es) =
      rw
        (
          keep_known-append (to_each e.event e.pending) (owed es),
          replay_entry-keep e.event e.pending,
          replay_pending_lem es,
        )
        refl
