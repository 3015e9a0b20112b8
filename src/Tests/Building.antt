-- ===== src/Tests/Building.antt =====
-- Build on an empty directory, with one provider.
use tallyd.Base.{◌≡◌, refl, true, some, [], ◌∷◌, pos, lookup}
use tallyd.Batcher.{encoded}
use tallyd.Wal.Log.{gc}
use tallyd.Wal.Replay.{replayed, open_wal, replay_files, finish_open, next_after}
use tallyd.Dlq.{open_dlq}
use tallyd.Stdout.{EventsJson}
use tallyd.Metronome.{metronome}
use tallyd.Pipeline.{
  apply_defaults, all_defaults, provider_defaults, or_text, check_config, validate_routing,
  validate_rules, default_error, rule_error,
}
use tallyd.Receiver.{first_unknown}
use tallyd.Pipeline.Build.{
  Outside, Disk, Pipeline, assembled, assemble, fine, build, build_checked, build_opened,
  build_batchers, add_batcher, build_adapter, start_batcher, default_max_segment_bytes,
  with_max_events,
}
use tallyd.Pipeline.Build.Ready.{IsReady, build-IsReady}
use tallyd.Tests.Samples.{signup, one_event}
use tallyd.Tests.Adapters.{formats, overloaded}
use tallyd.Tests.Daemon.{config, metronome_config}

abbrev codec : EventsJson
codec = record {
  marshal = λ events. encoded [];
  unmarshal = λ body. some (signup ∷ []);
  failure = λ body. "unexpected end of JSON input";
}

abbrev outside : Outside
outside = record {
  json = one_event;
  events_json = codec;
  formats = formats;
  getenv = λ name. "secret";
  client = λ endpoint token. overloaded;
}

abbrev empty_disk : Disk
empty_disk = record { wal_files = []; dlq_regular = []; dlq_poison = []; readable = true }

abbrev built : Pipeline
built =
    assembled (apply_defaults config) (finish_open default_max_segment_bytes 0 [] 0 [])
      (open_dlq [] [])
      ((
        "metronome",
        start_batcher (provider_defaults metronome_config) (metronome formats overloaded (pos 500)),
      )
        ∷ [])

build_returns : build outside empty_disk config ≡ replayed (fine built)
unfolding build build_checked build_opened check_config validate_routing validate_rules
    default_error rule_error first_unknown lookup apply_defaults all_defaults provider_defaults
    or_text open_wal replay_files gc next_after assemble build_batchers add_batcher build_adapter
    with_max_events
build_returns = refl

build-IsReady_example : IsReady built
build-IsReady_example = build-IsReady outside empty_disk config built tt tt tt build_returns
