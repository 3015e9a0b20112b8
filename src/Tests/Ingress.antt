-- ===== src/Tests/Ingress.antt =====
-- A request of two events, and the queues that the events go to.
use tallyd.Base.{String, Bool, none, some, [], ◌∷◌, ◌++◌, str_eq}
use tallyd.Receiver.{Sink, StaticRouter, route, ingest}
use tallyd.Receiver.Ingest.{Jobs, Ingested, ingest_lem}
use tallyd.Tests.Samples.{signup, purchase, to_metronome}

abbrev router : StaticRouter
router = record {
  default = "stdout" ∷ [];
  rules = record { event_name = "signup"; providers = to_metronome } ∷ [];
}

abbrev is_configured : String → Bool
is_configured p = str_eq p "metronome"

abbrev keep_jobs : Sink Jobs
keep_jobs event providers jobs = (jobs ++ (event, providers) ∷ [], none)

ingest_lem_example :
    Ingested keep_jobs
      (route router)
      is_configured
      100
      (signup ∷ purchase ∷ [])
      []
      (ingest keep_jobs (route router) (some is_configured) 100 (signup ∷ purchase ∷ []) []).0
      (ingest keep_jobs (route router) (some is_configured) 100 (signup ∷ purchase ∷ []) []).1
ingest_lem_example =
    ingest_lem keep_jobs (route router) is_configured 100 (signup ∷ purchase ∷ []) []
