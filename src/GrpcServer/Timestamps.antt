-- ===== src/GrpcServer/Timestamps.antt =====
-- The nil timestamp of grpcserver.go, up to the checks of receiver.go.
use tallyd.Base.{
  ℕ, ◌<◌, ◌≡◌, refl, subst, ◌⊎◌, inl, inr, String, Bool, none, some, List, [], ◌∷◌, arith,
}
use tallyd.Adapter.{Event}
use tallyd.Receiver.{Sink, IngestResult, accepted, validation_error, unavailable_error, ingest}
use tallyd.Receiver.Ingest.{Jobs, events_of, AllRoutable, Ingested, ingest_lem}
use tallyd.GrpcServer.{GrpcEvent, invalid_argument, to_event, to_events, code_of, grpc_ingest}

-- Some event of the message has no timestamp.
abbrev pub MissesTimestamp : List GrpcEvent → Type 0
MissesTimestamp [] = ⊥
MissesTimestamp (we ∷ wire) = (we.timestamp ≡ none) ⊎ MissesTimestamp wire

abbrev AllTimed : List Event → Type 0
AllTimed [] = Unit {0}
AllTimed (e ∷ es) = (0 < e.timestamp) × AllTimed es

AllRoutable-AllTimed :
    (now : ℕ) (known : String → Bool) (jobs : Jobs)
    → AllRoutable now known jobs
    → AllTimed (events_of jobs)
AllRoutable-AllTimed now known [] h = tt
AllRoutable-AllTimed now known ((e, ps) ∷ jobs) (good, some_route, known_ps, rest) =
    (good.has_timestamp, AllRoutable-AllTimed now known jobs rest)

untimed : (wire : List GrpcEvent) → MissesTimestamp wire → AllTimed (to_events wire) → ⊥
unfolding to_events to_event
untimed [] m h = m
untimed (we ∷ wire) (inl gone) h = absurd (ground (arith, h.0))
untimed (we ∷ wire) (inr later) h = untimed wire later h.1

module _ {S : Type 0} (sink : Sink S) (router : Event → List String) (known : String → Bool)
    (now : ℕ) where
  refused :
      (wire : List GrpcEvent) (s t : S) (r : IngestResult)
      → MissesTimestamp wire
      → Ingested sink router known now (to_events wire) s t r
      → (t ≡ s) × (code_of r ≡ invalid_argument)
  unfolding code_of
  refused wire s t accepted m (jobs, events, routed, routable, some_event, rest) =
      absurd (untimed wire m (subst AllTimed events (AllRoutable-AllTimed now known jobs routable)))
  refused wire s t (validation_error problem) m h = (h, refl)
  refused wire s t (unavailable_error cause) m
        (before, e, ps, after, events, routed, routable, stopped) =
      absurd (untimed wire m (subst AllTimed events (AllRoutable-AllTimed now known _ routable)))

  -- A gRPC request in which an event has no timestamp is refused with InvalidArgument, and the sink's
  -- state is as before: the conversion does not turn the missing field into a date.
  pub grpc_ingest_untimed :
      (wire : List GrpcEvent) (s : S)
      → MissesTimestamp wire
      → grpc_ingest sink router (some known) now wire s ≡ (s, invalid_argument)
  unfolding grpc_ingest
  grpc_ingest_untimed wire s m =
      let (same, code) =
        refused wire s ((ingest sink router (some known) now (to_events wire) s).0)
          ((ingest sink router (some known) now (to_events wire) s).1) m
          (ingest_lem sink router known now (to_events wire) s) in
      rw (same, code) refl
