-- ===== src/Receiver.antt =====
-- internal/receiver/receiver.go and router.go: the ingress of events. The Sink is a state of its own,
-- an argument of each definition; JSON decoding and the two transports are not part of it.
pub mod Ingest
pub mod Handler
use tallyd.Base.{
  ℕ, ◌+◌, String, Bool, true, false, Option, none, some, List, [], ◌∷◌, str_eq, ltb, ◌==◌,
  if◌then◌else◌,
}
use tallyd.Adapter.{Event}

-- 24h, in nanoseconds
abbrev pub max_future_timestamp : ℕ
max_future_timestamp = 86400000000000

-- The messages of a ValidationError.
pub data Problem : Type 0 where
  no_events : Problem
  id_required customer_id_required event_name_required timestamp_required : Problem
  timestamp_in_future : Problem
  no_route : String → Problem
  unknown_provider : String → String → Problem

pub data IngestResult : Type 0 where
  accepted : IngestResult
  validation_error : Problem → IngestResult
  unavailable_error : String → IngestResult

unfoldable pub validate : Event → ℕ → Option Problem
validate e now =
    if str_eq e.id ""
    then some id_required
    else if str_eq e.customer_id ""
    then some customer_id_required
    else if str_eq e.event_name ""
    then some event_name_required
    else if e.timestamp == 0
    then some timestamp_required
    else if ltb (now + max_future_timestamp) e.timestamp
    then some timestamp_in_future
    else none

-- A placeholder in the source.
abbrev pub enrich : Event → ℕ → Event
enrich e now = e

pub record Rule : Type 0 where
  pub event_name : String
  pub providers : List String

pub record StaticRouter : Type 0 where
  pub default : List String
  pub rules : List Rule

unfoldable pub route_rules : List Rule → List String → String → List String
route_rules [] default name = default
route_rules (r ∷ rs) default name =
    if str_eq r.event_name name then r.providers else route_rules rs default name

-- StaticRouter.Route
unfoldable pub route : StaticRouter → Event → List String
route router e = route_rules router.rules router.default e.event_name

-- KnownProviders: `none` is the nil map, which disables the check.
unfoldable pub first_unknown : (String → Bool) → List String → Option String
first_unknown known [] = none
first_unknown known (p ∷ ps) = if known p then first_unknown known ps else some p

unfoldable pub check_known : Option (String → Bool) → String → List String → Option Problem
check_known none id ps = none
check_known (some known) id ps = elim (first_unknown known ps) [
  | none ↦ none
  | some p ↦ some (unknown_provider id p)
]

pub data Plan : Type 0 where
  planned : List (Event × List String) → Plan
  refused : Problem → Plan

-- p := events[i].Route; if len(p) == 0 { p = r.Router.Route(events[i]) }
abbrev pub route_or : List String → List String → List String
route_or [] routed = routed
route_or (p ∷ ps) routed = p ∷ ps

unfoldable pub check_route : Option (String → Bool) → String → List String → Option Problem
check_route known id [] = some (no_route id)
check_route known id (p ∷ ps) = check_known known id (p ∷ ps)

unfoldable pub add_job : Option Problem → Event → List String → Plan → Plan
add_job (some problem) e ps rest = refused problem
add_job none e ps (planned jobs) = planned ((e, ps) ∷ jobs)
add_job none e ps (refused problem) = refused problem

abbrev pub or_else : Option Problem → Option Problem → Option Problem
or_else (some problem) later = some problem
or_else none later = later

-- The first loop of Ingest, which fixes the providers of every event before anything is stored.
unfoldable pub plan : (Event → List String) → Option (String → Bool) → ℕ → List Event → Plan
plan router known now [] = planned []
plan router known now (e ∷ es) =
    let e' = enrich e now in
    let ps = route_or e'.route (router e') in
    add_job (or_else (validate e now) (check_route known e'.id ps)) e' ps (plan router known now es)

-- `none` is a nil error of Sink.Append.
abbrev pub Sink : Type 0 → Type 0
Sink S = Event → List String → S → S × Option String

module _ {S : Type 0} where
  -- The second loop of Ingest: it stops at the first error.
  unfoldable pub append_all : Sink S → List (Event × List String) → S → S × IngestResult
  append_all sink [] s = (s, accepted)
  append_all sink ((e, ps) ∷ jobs) s =
      let (s', failure) = sink e ps s in
      elim failure [ none ↦ append_all sink jobs s' | some cause ↦ (s', unavailable_error cause) ]

  unfoldable pub carry_out : Sink S → Plan → S → S × IngestResult
  carry_out sink (refused problem) s = (s, validation_error problem)
  carry_out sink (planned jobs) s = append_all sink jobs s

  -- Ingest
  unfoldable pub ingest :
      Sink S
      → (Event → List String)
      → Option (String → Bool)
      → ℕ
      → List Event
      → S
      → S × IngestResult
  ingest sink router known now [] s = (s, validation_error no_events)
  ingest sink router known now (e ∷ es) s = carry_out sink (plan router known now (e ∷ es)) s

-- handleEvents: the HTTP status of an outcome of Ingest.
unfoldable pub http_status : IngestResult → ℕ
http_status accepted = 202
http_status (validation_error problem) = 400
http_status (unavailable_error cause) = 503
