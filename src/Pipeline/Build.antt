-- ===== src/Pipeline/Build.antt =====
-- internal/pipeline/pipeline.go: buildAdapter and Build, which open the log and the dead-letter queue,
-- make an adapter for each provider and enqueue what is unresolved. The environment, the HTTP client
-- and the codecs are arguments, and so are the files that the two directories hold.
pub mod Ready
use tallyd.Base.{
  ℕ, zero, suc, ◌*◌, ◌^◌, String, Bool, true, false, ◌||◌, Option, none, some, List, [], ◌∷◌,
  str_eq, if◌then◌else◌, ℤ, pos, negsuc, Map, lookup,
}
use tallyd.Wal.Log.{Wal, pending_entries}
use tallyd.Wal.Commit.{Json}
use tallyd.Wal.Replay.{File, Replay, replayed, failed, panicked, open_wal}
use tallyd.Dlq.{DeadLetter, Dlq, open_dlq}
use tallyd.Batcher.{RetryPolicy, Adapter, max_batch}
use tallyd.Receiver.{StaticRouter}
use tallyd.Dispatcher.{Enqueued, replay_pending}
use tallyd.Metronome.{Formats, Http, metronome}
use tallyd.Stdout.{EventsJson, stdout}
use tallyd.Pipeline.{
  ProviderConfig, Config, or_text, apply_defaults, configured, ConfigError, check_config, router_of,
  retry_policy,
}

-- metronome.DefaultEndpoint
abbrev pub default_endpoint : String
default_endpoint = "https://api.metronome.com/v1/ingest"

-- What lies outside: the codecs, os.Getenv, and the HTTP client for an endpoint and a token.
pub record Outside : Type 0 where
  pub json : Json
  pub events_json : EventsJson
  pub formats : Formats
  pub getenv : String → String
  pub client : String → String → List ℕ → Http

-- MaxBatch of a new adapter, lowered if `pc.Batch.MaxEvents > 0`.
unfoldable pub with_max_events : ℤ → ℤ → ℤ
with_max_events initial (pos zero) = initial
with_max_events initial (pos (suc n)) = pos (suc n)
with_max_events initial (negsuc n) = initial

pub data AdapterError : Type 0 where
  token_missing : String → AdapterError
  unsupported_type : String → AdapterError

pub data Result {ℓ κ} (E : Type ℓ) (A : Type κ) : Type (ℓ ⊔ κ) where
  fine : A → Result E A
  error : E → Result E A

-- buildAdapter
unfoldable pub build_adapter : Outside → ProviderConfig → Result AdapterError Adapter
unfolding with_max_events
build_adapter out pc =
    if str_eq pc.kind "" || str_eq pc.kind "stdout"
    then fine (stdout out.events_json (with_max_events (pos 500) pc.max_events))
    else if str_eq pc.kind "metronome"
    then (let token = out.getenv pc.token_env in
        if str_eq token ""
        then error (token_missing pc.token_env)
        else fine (
            metronome out.formats (out.client (or_text pc.endpoint default_endpoint) token)
              (with_max_events (pos 0) pc.max_events)))
    else error (unsupported_type pc.kind)

-- A batcher as New starts it: its adapter, the limit of its run loop, its linger and its retries.
pub record Started : Type 0 where
  pub adapter : Adapter
  pub limit : ℕ
  pub linger : ℤ
  pub retry : RetryPolicy

unfoldable pub start_batcher : ProviderConfig → Adapter → Started
start_batcher pc adapter = record {
  adapter = adapter;
  limit = max_batch adapter.max_batch_size;
  linger = pc.linger;
  retry = retry_policy pc;
}

pub data BuildError : Type 0 where
  bad_config : ConfigError → BuildError
  wal_failed dlq_failed : BuildError
  bad_provider : String → AdapterError → BuildError

unfoldable pub add_batcher :
    String
    → ProviderConfig
    → Result AdapterError Adapter
    → Result BuildError (Map Started)
    → Result BuildError (Map Started)
add_batcher name pc (error e) rest = error (bad_provider name e)
add_batcher name pc (fine adapter) (error e) = error e
add_batcher name pc (fine adapter) (fine batchers) =
    fine ((name, start_batcher pc adapter) ∷ batchers)

-- The loop over the providers, in some order.
unfoldable pub build_batchers : Outside → Map ProviderConfig → Result BuildError (Map Started)
build_batchers out [] = fine []
build_batchers out ((name, pc) ∷ providers) =
    add_batcher name pc (build_adapter out pc) (build_batchers out providers)

-- The Pipeline. `enqueued` is what ReplayPending put on the queues; `has_grpc` stands for a GRPCServer
-- that is not nil. The four handlers share the router, the state and the names of the providers.
pub record Pipeline : Type 0 where
  pub config : Config
  pub wal : Wal
  pub dlq : Dlq
  pub batchers : Map Started
  pub enqueued : Enqueued
  pub router : StaticRouter
  pub has_grpc : Bool

abbrev pub assembled : Config → Wal → Dlq → Map Started → Pipeline
assembled cfg w d batchers = record {
  config = cfg;
  wal = w;
  dlq = d;
  batchers = batchers;
  enqueued = replay_pending (configured cfg.providers) (pending_entries w);
  router = router_of cfg;
  has_grpc = if str_eq cfg.grpc "" then false else true;
}

unfoldable pub assemble :
    Config → Wal → Dlq → Result BuildError (Map Started) → Result BuildError Pipeline
assemble cfg w d (error e) = error e
assemble cfg w d (fine batchers) = fine (assembled cfg w d batchers)

-- defaultMaxSegmentBytes, since Build passes no WithMaxSegmentBytes; and WithMaxBytes, where every
-- value <= 0 is 0.
abbrev pub default_max_segment_bytes : ℕ
default_max_segment_bytes = 64 * 2 ^ 20

abbrev pub with_max_bytes : ℤ → ℕ
with_max_bytes (pos n) = n
with_max_bytes (negsuc n) = 0

-- Build on a configuration with its defaults that passed the checks; `panicked` is a panic of Open.
unfoldable pub build_opened :
    Outside → Config → Option Dlq → Replay Wal → Replay (Result BuildError Pipeline)
build_opened out cfg dlq failed = replayed (error wal_failed)
build_opened out cfg dlq panicked = panicked
build_opened out cfg none (replayed w) = replayed (error dlq_failed)
build_opened out cfg (some d) (replayed w) =
    replayed (assemble cfg w d (build_batchers out cfg.providers))

unfoldable pub build_checked :
    Outside
    → Config
    → List File
    → Option Dlq
    → Option ConfigError
    → Replay (Result BuildError Pipeline)
build_checked out cfg files dlq (some e) = replayed (error (bad_config e))
build_checked out cfg files dlq none =
    build_opened out cfg dlq
      (open_wal out.json default_max_segment_bytes (with_max_bytes cfg.max_bytes) files)

-- The files of `buffer.dir` and of its directory `dlq`; `readable` is false where dlq.Open fails.
pub record Disk : Type 0 where
  pub wal_files : List File
  pub dlq_regular : Map (List DeadLetter)
  pub dlq_poison : Map (List DeadLetter)
  pub readable : Bool

-- Build
unfoldable pub build : Outside → Disk → Config → Replay (Result BuildError Pipeline)
unfolding build_checked build_opened
build out disk config =
    let cfg = apply_defaults config in
    let dlq = if disk.readable then some (open_dlq disk.dlq_regular disk.dlq_poison) else none in
    build_checked out cfg disk.wal_files dlq (check_config cfg)
