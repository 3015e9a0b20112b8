-- ===== src/Pipeline/Delivery.antt =====
-- Ingest of receiver.go over walDispatchSink of pipeline.go: an accepted request is on its queues.
use tallyd.Base.{
  ℕ, ◌≡◌, refl, sym, ap, ◌∙◌, String, Bool, Option, none, some, List, [], ◌∷◌, ◌++◌, map,
  append_assoc, append-nil, arith,
}
use tallyd.Adapter.{Event}
use tallyd.Receiver.{Sink, IngestResult, accepted, validation_error, unavailable_error, ingest}
use tallyd.Receiver.Ingest.{
  Jobs, events_of, AllKnown, AllRoutable, AllRouted, Appended, Ingested, ingest_lem,
}
use tallyd.Dispatcher.{Enqueued, dispatch}
use tallyd.Pipeline.{after_append, dispatch_error, wal_dispatch_sink}

-- The pairs of a list of jobs, in order.
abbrev pub queued_by : Jobs → Enqueued
queued_by [] = []
queued_by ((e, ps) ∷ jobs) = map (λ p. (p, e)) ps ++ queued_by jobs

dispatch-known :
    (known : String → Bool) (e : Event) (ps : List String)
    → AllKnown known ps
    → dispatch known e ps ≡ (map (λ p. (p, e)) ps, none)
unfolding dispatch
dispatch-known known e [] h = refl
dispatch-known known e (p ∷ ps) h = rw (h.0, dispatch-known known e ps h.1) refl

pair : {A B : Type 0} {p : A × B} {a : A} {b : B} → a ≡ p.0 → p.1 ≡ b → p ≡ (a, b)
pair e f = cc

module _ {S : Type 0} (append : Sink S) (known : String → Bool) (describe : String → String) where
  -- One append of the log and the dispatch behind it.
  after_append-none :
      (e : Event) (ps : List String) (queue : Enqueued) (s : S) (failure : Option String)
      (t : S × Enqueued)
      → AllKnown known ps
      → after_append append known describe e ps queue s failure ≡ (t, none)
      → (failure ≡ none) × (t.0 ≡ s) × (t.1 ≡ queue ++ map (λ p. (p, e)) ps)
  unfolding after_append
  after_append-none e ps queue s (some cause) t h eq =
      let bad : some cause ≡ none = ap (λ x. x.1) eq in absurd (ground arith)
  after_append-none e ps queue s none t h eq = (
    refl,
    ap (λ x. x.0.0) (sym eq),
    ap (λ x. x.0.1) (sym eq) ∙ ap (λ d. queue ++ d.0) (dispatch-known known e ps h),
  )

  -- Dispatch never fails on providers that are known, so an error is the log's.
  after_append-some :
      (e : Event) (ps : List String) (queue : Enqueued) (s : S) (failure : Option String)
      (t : S × Enqueued) (cause : String)
      → AllKnown known ps
      → after_append append known describe e ps queue s failure ≡ (t, some cause)
      → (failure ≡ some cause) × (t.0 ≡ s) × (t.1 ≡ queue)
  unfolding after_append
  after_append-some e ps queue s (some why) t cause h eq =
      (ap (λ x. x.1) eq, ap (λ x. x.0.0) (sym eq), ap (λ x. x.0.1) (sym eq))
  after_append-some e ps queue s none t cause h eq =
      let bad : none ≡ some cause =
        ap (λ d. dispatch_error describe (d.1)) (sym (dispatch-known known e ps h))
        ∙ ap (λ x. x.1) eq in
      absurd (ground arith)

  -- The appends of the sink are appends of the log, and their jobs are on the queues.
  Appended-queued :
      (now : ℕ) (jobs : Jobs) (s t : S × Enqueued)
      → AllRoutable now known jobs
      → Appended (wal_dispatch_sink append known describe) jobs s t
      → Appended append jobs s.0 t.0 × (t.1 ≡ s.1 ++ queued_by jobs)
  unfolding wal_dispatch_sink
  Appended-queued now [] s t r a = (ap (λ x. x.0) a, ap (λ x. x.1) (sym a) ∙ sym (append-nil s.1))
  Appended-queued now ((e, ps) ∷ jobs) s t (good, some_route, known_ps, r) (u, step, a) =
      let v = append e ps s.0 in
      let (fine, log, queue) = after_append-none e ps s.1 v.0 v.1 u known_ps step in
      let (logged, queued) = Appended-queued now jobs u t r a in
      (
        (u.0, pair log fine, logged),
        queued
            ∙ ap (λ q. q ++ queued_by jobs) queue
            ∙ append_assoc s.1 (map (λ p. (p, e)) ps) (queued_by jobs),
      )

  AllRoutable-split :
      (now : ℕ) (before : Jobs) (e : Event) (ps : List String) (after : Jobs)
      → AllRoutable now known (before ++ (e, ps) ∷ after)
      → AllRoutable now known before × AllKnown known ps
  AllRoutable-split now [] e ps after (good, some_route, known_ps, r) = (tt, known_ps)
  AllRoutable-split now ((e', ps') ∷ before) e ps after (good, some_route, known_ps, r) =
      let (rest, last) = AllRoutable-split now before e ps after r in
      ((good, some_route, known_ps, rest), last)

  -- What an outcome of a request says of the queues.
  abbrev pub Delivered :
      (Event → List String) → ℕ → List Event → S × Enqueued → S × Enqueued → IngestResult → Type 0
  Delivered router now es s t accepted =
      (jobs : Jobs) × (events_of jobs ≡ es)
      × AllRouted router jobs
      × AllRoutable now known jobs
      × Appended append jobs s.0 t.0
      × (t.1 ≡ s.1 ++ queued_by jobs)
  Delivered router now es s t (validation_error problem) = t ≡ s
  Delivered router now es s t (unavailable_error cause) =
      (before : Jobs) × (e : Event) × (ps : List String) × (after : Jobs) × (events_of
          (before ++ (e, ps) ∷ after)
        ≡ es)
      × AllRouted router (before ++ (e, ps) ∷ after)
      × (t.1 ≡ s.1 ++ queued_by before)
      × ((u : S) × Appended append before s.0 u × (append e ps u ≡ (t.0, some cause)))

  Ingested-Delivered :
      (router : Event → List String) (now : ℕ) (es : List Event) (s t : S × Enqueued)
      (r : IngestResult)
      → Ingested (wal_dispatch_sink append known describe) router known now es s t r
      → Delivered router now es s t r
  unfolding wal_dispatch_sink
  Ingested-Delivered router now es s t accepted (jobs, events, routed, routable, some_event, a) =
      let (logged, queue) = Appended-queued now jobs s t routable a in
      (jobs, events, routed, routable, logged, queue)
  Ingested-Delivered router now es s t (validation_error problem) h = h
  Ingested-Delivered router now es s t (unavailable_error cause)
        (before, e, ps, after, events, routed, routable, (u, a, stopped)) =
      let (routable_before, known_ps) = AllRoutable-split now before e ps after routable in
      let (failure, log, queue) =
        after_append-some e ps u.1 ((append e ps u.0).0) ((append e ps u.0).1) t cause known_ps
          stopped in
      let (logged, queued) = Appended-queued now before s u routable_before a in
      (before, e, ps, after, events, routed, queue ∙ queued, (u.0, logged, pair log failure))

  -- A request to the daemon, whose receiver knows the providers that the dispatcher has queues for,
  -- over any log. The providers of an event are those that its client named, or else the router's.
  -- Accepted: the log took every event of the request, in order and without an error, for its
  -- providers, all of them known, and the queues have got each event once for each of its
  -- providers, in order, and nothing else. A validation error: log and queues are as before.
  -- Unavailable: the error is the log's, since Dispatch does not fail; the log took the events
  -- before the one it failed on, which are on the queues of their providers, and no other is.
  pub pipeline_lem :
      (router : Event → List String) (now : ℕ) (es : List Event) (s : S × Enqueued)
      → Delivered router now es s
          ((ingest (wal_dispatch_sink append known describe) router (some known) now es s).0)
          ((ingest (wal_dispatch_sink append known describe) router (some known) now es s).1)
  pipeline_lem router now es s =
      Ingested-Delivered router now es s
        ((ingest (wal_dispatch_sink append known describe) router (some known) now es s).0)
        ((ingest (wal_dispatch_sink append known describe) router (some known) now es s).1)
        (ingest_lem (wal_dispatch_sink append known describe) router known now es s)
