-- ===== src/Receiver/Ingest.antt =====
-- Ingest of receiver.go: all or nothing up to the first append, and what an acceptance promises.
use tallyd.Base.{
  ℕ, ◌+◌, ◌≤◌, ◌<◌, ◌≡◌, refl, sym, ap, ◌∙◌, subst, ◌≢◌, ◌⊎◌, inl, inr, String, Bool, true, Option,
  none, some, List, [], ◌∷◌, ◌++◌, map, eq_iff, arith, Option-cases,
}
use tallyd.Adapter.{Event}
use tallyd.Receiver.{
  Problem, IngestResult, accepted, validation_error, unavailable_error, max_future_timestamp,
  validate, first_unknown, check_known, Plan, planned, refused, check_route, add_job, or_else,
  route_or, plan, append_all, carry_out, ingest, Sink,
}

-- An event that may be stored: the required fields are there, and the timestamp is at most a day
-- ahead of the clock.
pub record IsAcceptable (now : ℕ) (e : Event) : Type 0 where
  pub has_id : e.id ≢ ""
  pub has_customer : e.customer_id ≢ ""
  pub has_name : e.event_name ≢ ""
  pub has_timestamp : 0 < e.timestamp
  pub near : e.timestamp ≤ now + max_future_timestamp

abbrev pub AllKnown : (String → Bool) → List String → Type 0
AllKnown known [] = Unit {0}
AllKnown known (p ∷ ps) = (known p ≡ true) × AllKnown known ps

-- A job has somewhere to go, and every provider of it exists.
abbrev pub AllRoutable : ℕ → (String → Bool) → List (Event × List String) → Type 0
AllRoutable now known [] = Unit {0}
AllRoutable now known ((e, ps) ∷ jobs) =
    IsAcceptable now e × (ps ≢ []) × AllKnown known ps × AllRoutable now known jobs

validate-none : (e : Event) (now : ℕ) → validate e now ≡ none → IsAcceptable now e
unfolding validate
validate-none e now h = record {
  has_id = λ p. ground (arith, (eq_iff e.id "").1 p);
  has_customer = λ p. ground (arith, (eq_iff e.customer_id "").1 p);
  has_name = λ p. ground (arith, (eq_iff e.event_name "").1 p);
  has_timestamp = ground arith;
  near = ground arith;
}

pub first_unknown-none :
    (known : String → Bool) (ps : List String) → first_unknown known ps ≡ none → AllKnown known ps
unfolding first_unknown
first_unknown-none known [] h = tt
first_unknown-none known (p ∷ ps) h = ground (arith, first_unknown-none known ps)

check_route-none :
    (known : String → Bool) (id : String) (ps : List String)
    → check_route (some known) id ps ≡ none
    → (ps ≢ []) × AllKnown known ps
unfolding check_route check_known
check_route-none known id [] h = absurd (ground arith)
check_route-none known id (p ∷ ps) h =
    (λ e. ground arith, first_unknown-none known (p ∷ ps) (ground arith))

add_job-planned :
    (problem : Option Problem) (e : Event) (ps : List String) (rest : Plan)
    (jobs : List (Event × List String))
    → add_job problem e ps rest ≡ planned jobs
    → (problem ≡ none)
      × ((more : List (Event × List String)) × (rest ≡ planned more) × (jobs ≡ (e, ps) ∷ more))
unfolding add_job
add_job-planned (some problem) e ps rest jobs h = absurd (ground arith)
add_job-planned none e ps (planned more) jobs h = (refl, (more, refl, ground arith))
add_job-planned none e ps (refused problem) jobs h = absurd (ground arith)

or_else-none : (a b : Option Problem) → or_else a b ≡ none → (a ≡ none) × (b ≡ none)
or_else-none (some problem) b h = absurd (ground arith)
or_else-none none b h = (refl, h)

abbrev pub Jobs : Type 0
Jobs = List (Event × List String)

abbrev pub events_of : Jobs → List Event
events_of jobs = map (λ j. j.0) jobs

-- The providers of an event: those that its client named, or else those that the router gives.
abbrev pub IsRouted : (Event → List String) → Event → List String → Type 0
IsRouted router e ps = ((e.route ≢ []) × (ps ≡ e.route)) ⊎ ((e.route ≡ []) × (ps ≡ router e))

abbrev pub AllRouted : (Event → List String) → Jobs → Type 0
AllRouted router [] = Unit {0}
AllRouted router ((e, ps) ∷ jobs) = IsRouted router e ps × AllRouted router jobs

route_or-IsRouted :
    (named routed : List String)
    → ((named ≢ []) × (route_or named routed ≡ named))
      ⊎ ((named ≡ []) × (route_or named routed ≡ routed))
route_or-IsRouted [] routed = inr (refl, refl)
route_or-IsRouted (p ∷ ps) routed = inl (λ e. ground arith, refl)

-- A plan keeps the events in order, and has the providers of each.
plan_sound :
    (router : Event → List String) (known : String → Bool) (now : ℕ) (es : List Event) (jobs : Jobs)
    → plan router (some known) now es ≡ planned jobs
    → (events_of jobs ≡ es) × AllRouted router jobs × AllRoutable now known jobs
unfolding plan
plan_sound router known now [] [] h = (refl, tt, tt)
plan_sound router known now [] (j ∷ jobs) h = absurd (ground arith)
plan_sound router known now (e ∷ es) jobs h =
    let ps = route_or e.route (router e) in
    let problem = or_else (validate e now) (check_route (some known) e.id ps) in
    let (clean, (more, planned_more, shape)) =
      add_job-planned problem e ps (plan router (some known) now es) jobs h in
    let (valid, routed) = or_else-none (validate e now) (check_route (some known) e.id ps) clean in
    let (events, routed_rest, routable) = plan_sound router known now es more planned_more in
    let (some_route, all_known) = check_route-none known e.id ps routed in
    rw shape (
      ap (λ l. e ∷ l) events,
      (route_or-IsRouted e.route (router e), routed_rest),
      (validate-none e now valid, some_route, all_known, routable),
    )

module _ {S : Type 0} (sink : Sink S) where
  -- Every append of a list of jobs succeeds, one after the other, and leads from `s` to `t`.
  abbrev pub Appended : Jobs → S → S → Type 0
  Appended [] s t = s ≡ t
  Appended ((e, ps) ∷ jobs) s t = (u : S) × (sink e ps s ≡ (u, none)) × Appended jobs u t

  -- What each outcome of Ingest says of the events and of the sink's state before and after.
  abbrev pub Ingested :
      (Event → List String) → (String → Bool) → ℕ → List Event → S → S → IngestResult → Type 0
  Ingested router known now es s t accepted =
      (jobs : Jobs) × (events_of jobs ≡ es)
      × AllRouted router jobs
      × AllRoutable now known jobs
      × (es ≢ [])
      × Appended jobs s t
  Ingested router known now es s t (validation_error problem) = t ≡ s
  Ingested router known now es s t (unavailable_error cause) =
      (before : Jobs) × (e : Event) × (ps : List String) × (after : Jobs) × (events_of
          (before ++ (e, ps) ∷ after)
        ≡ es)
      × AllRouted router (before ++ (e, ps) ∷ after)
      × AllRoutable now known (before ++ (e, ps) ∷ after)
      × ((u : S) × Appended before s u × (sink e ps u ≡ (t, some cause)))

  -- The second loop appends everything, or a part of the list up to the first failure.
  abbrev Carried : Jobs → S → S → IngestResult → Type 0
  Carried jobs s t accepted = Appended jobs s t
  Carried jobs s t (validation_error problem) = ⊥
  Carried jobs s t (unavailable_error cause) =
      (before : Jobs) × (e : Event) × (ps : List String) × (after : Jobs) × (jobs
        ≡ before ++ (e, ps) ∷ after)
      × ((u : S) × Appended before s u × (sink e ps u ≡ (t, some cause)))

  Carried-cons :
      (e : Event) (ps : List String) (jobs : Jobs) (s u t : S) (r : IngestResult)
      → sink e ps s ≡ (u, none)
      → Carried jobs u t r
      → Carried ((e, ps) ∷ jobs) s t r
  Carried-cons e ps jobs s u t accepted h c = (u, h, c)
  Carried-cons e ps jobs s u t (validation_error problem) h c = absurd c
  Carried-cons e ps jobs s u t (unavailable_error cause) h
        (before, x, xs, after, shape, (v, c, f)) =
      ((e, ps) ∷ before, x, xs, after, ap (λ l. (e, ps) ∷ l) shape, (v, (u, h, c), f))

  append_all-taken :
      (e : Event) (ps : List String) (jobs : Jobs) (s u : S)
      → sink e ps s ≡ (u, none)
      → append_all sink ((e, ps) ∷ jobs) s ≡ append_all sink jobs u
  unfolding append_all
  append_all-taken e ps jobs s u h =
      rw (ap (λ r. r.1) h, append_all) (ap (λ r. append_all sink jobs (r.0)) h)

  append_all-failed :
      (e : Event) (ps : List String) (jobs : Jobs) (s u : S) (cause : String)
      → sink e ps s ≡ (u, some cause)
      → append_all sink ((e, ps) ∷ jobs) s ≡ (u, unavailable_error cause)
  unfolding append_all
  append_all-failed e ps jobs s u cause h =
      rw (ap (λ r. r.1) h, append_all) (ap (λ r. (r.0, unavailable_error cause)) h)

  append_all-Carried :
      (jobs : Jobs) (s : S)
      → Carried jobs s ((append_all sink jobs s).0) ((append_all sink jobs s).1)
  unfolding append_all
  append_all-Carried [] s = refl
  append_all-Carried ((e, ps) ∷ jobs) s = elim (Option-cases ((sink e ps s).1)) [
    | inl h ↦
        let u = (sink e ps s).0 in
        let taken = ap (λ f. ((sink e ps s).0, f)) h in
        subst (λ r. Carried ((e, ps) ∷ jobs) s (r.0) (r.1))
          (sym (append_all-taken e ps jobs s u taken))
          (Carried-cons e ps jobs s u ((append_all sink jobs u).0) ((append_all sink jobs u).1)
            taken (append_all-Carried jobs u))
    | inr (cause, h) ↦
        let u = (sink e ps s).0 in
        let failed = ap (λ f. ((sink e ps s).0, f)) h in
        subst (λ r. Carried ((e, ps) ∷ jobs) s (r.0) (r.1))
          (sym (append_all-failed e ps jobs s u cause failed))
          ([], e, ps, jobs, refl, (s, refl, failed))
  ]

  -- A carried plan is the outcome of Ingest.
  Carried-Ingested :
      (router : Event → List String) (known : String → Bool) (now : ℕ) (es : List Event)
      (jobs : Jobs) (s t : S) (r : IngestResult)
      → es ≢ []
      → (events_of jobs ≡ es) × AllRouted router jobs × AllRoutable now known jobs
      → Carried jobs s t r
      → Ingested router known now es s t r
  Carried-Ingested router known now es jobs s t accepted some_event (events, routed, ok) c =
      (jobs, events, routed, ok, some_event, c)
  Carried-Ingested router known now es jobs s t (validation_error problem) some_event sound c =
      absurd c
  Carried-Ingested router known now es jobs s t (unavailable_error cause) some_event
        (events, routed, ok) (before, e, ps, after, shape, failed) =
      (
        before,
        e,
        ps,
        after,
        ap events_of (sym shape) ∙ events,
        subst (λ l. AllRouted router l) shape routed,
        subst (λ l. AllRoutable now known l) shape ok,
        failed,
      )

  carry_out-Ingested :
      (router : Event → List String) (known : String → Bool) (now : ℕ) (es : List Event) (s : S)
      (p : Plan)
      → es ≢ []
      → plan router (some known) now es ≡ p
      → Ingested router known now es s ((carry_out sink p s).0) ((carry_out sink p s).1)
  unfolding carry_out
  carry_out-Ingested router known now es s (refused problem) some_event h = refl
  carry_out-Ingested router known now es s (planned jobs) some_event h =
      Carried-Ingested router known now es jobs s ((append_all sink jobs s).0)
        ((append_all sink jobs s).1) some_event (plan_sound router known now es jobs h)
        (append_all-Carried jobs s)

  -- With a set of known providers, Ingest ends in one of three ways. Accepted: there was at least
  -- one event; the sink took every event of the request, in the order of the request and with no
  -- error, each acceptable by the clock and for the providers that its client named or else those of
  -- the router, at least one and all of them known. A validation error: the sink's state is as
  -- before. Unavailable: the whole request was acceptable and routable, the sink took the events
  -- before the one it failed on, each for its providers, and was not asked for the events behind it.
  pub ingest_lem :
      (router : Event → List String) (known : String → Bool) (now : ℕ) (es : List Event) (s : S)
      → Ingested router known now es s
          ((ingest sink router (some known) now es s).0)
          ((ingest sink router (some known) now es s).1)
  unfolding ingest
  ingest_lem router known now [] s = refl
  ingest_lem router known now (e ∷ es) s =
      carry_out-Ingested router known now (e ∷ es) s (plan router (some known) now (e ∷ es))
        (λ h. ground arith) refl
