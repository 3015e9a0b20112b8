-- ===== src/Tests/Daemon.antt =====
-- A configuration with one provider, and requests to the daemon that it describes.
use tallyd.Base.{◌≡◌, refl, String, none, some, true, false, [], ◌∷◌, ◌++◌, pos, negsuc, lookup}
use tallyd.Receiver.{Sink, ingest, route, first_unknown}
use tallyd.Receiver.Ingest.{Jobs}
use tallyd.Pipeline.{
  Config, ProviderConfig, check_config, configured, router_of, wal_dispatch_sink, validate_routing,
  validate_rules, default_error, rule_error,
}
use tallyd.Pipeline.Delivery.{Delivered, pipeline_lem}
use tallyd.Dlq.{Dlq, removed_fine, rewrite_failed}
use tallyd.DlqReplay.{StoreFaults, listed, serve}
use tallyd.DlqReplay.Safety.{Safe, serve-Safe}
use tallyd.GrpcServer.{GrpcEvent}
use tallyd.Tests.Samples.{signup, purchase, to_metronome}

abbrev pub metronome_config : ProviderConfig
metronome_config = record {
  kind = "metronome";
  endpoint = "";
  token_env = "METRONOME_TOKEN";
  max_events = negsuc 0;
  linger = pos 0;
  max_elapsed = pos 0;
  max_interval = pos 0;
}

abbrev pub config : Config
config = record {
  http = "";
  grpc = "";
  dir = "";
  max_bytes = pos 0;
  on_full = "reject";
  providers = ("metronome", metronome_config) ∷ [];
  default = to_metronome;
  rules = record { event_name = "signup"; route = to_metronome } ∷ [];
}

config_checked : check_config config ≡ none
unfolding check_config validate_routing validate_rules rule_error default_error first_unknown lookup
config_checked = refl

abbrev pub keep_jobs : Sink Jobs
keep_jobs event providers jobs = (jobs ++ (event, providers) ∷ [], none)

abbrev describe : String → String
describe p = p

pipeline_lem_example :
    Delivered keep_jobs
      (configured config.providers)
      describe
      (route (router_of config))
      100
      (signup ∷ purchase ∷ [])
      ([], [])
      (ingest
        (wal_dispatch_sink keep_jobs (configured config.providers) describe)
        (route (router_of config))
        (some (configured config.providers))
        100
        (signup ∷ purchase ∷ [])
        ([], [])).0
      (ingest
        (wal_dispatch_sink keep_jobs (configured config.providers) describe)
        (route (router_of config))
        (some (configured config.providers))
        100
        (signup ∷ purchase ∷ [])
        ([], [])).1
pipeline_lem_example =
    pipeline_lem keep_jobs (configured config.providers) describe (route (router_of config)) 100
      (signup ∷ purchase ∷ []) ([], [])

-- A dead letter of `signup`, and a store whose poison file cannot be rewritten.
abbrev pub parked : Dlq
parked = record {
  regular =
      (
        "metronome",
        record {
          provider = "metronome";
          event = signup;
          reason = "status 400";
          timestamp = 10;
          attempts = 1;
          poisoned = false;
        }
            ∷ [],
      )
      ∷ [];
  poison = [];
  depths = ("metronome", pos 1) ∷ [];
  attempts = [];
}

abbrev pub store_faults : StoreFaults
store_faults = record {
  list_fails = false;
  list_poison_fails = false;
  regular_fault = removed_fine;
  poison_fault = rewrite_failed;
}

serve-Safe_example :
    let after =
      (serve keep_jobs "metronome"
        (configured config.providers)
        store_faults
        true
        true
        []
        parked).0 in
    Safe keep_jobs "metronome" (listed "metronome" true parked) [] parked after.0 after.1
serve-Safe_example =
    serve-Safe keep_jobs "metronome" (configured config.providers) store_faults true true [] parked

abbrev undated : GrpcEvent
undated = record {
  id = "e3";
  customer_id = "c1";
  event_name = "signup";
  timestamp = none;
  properties = [];
  route = [];
}
