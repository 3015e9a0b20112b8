-- ===== src/Tests/Serving.antt =====
-- The daemon of one provider: its start, its admin endpoints, its metrics and its clients.
use tallyd.Base.{
  map, ℕ, ◌+◌, ◌≡◌, refl, inr, String, Bool, true, false, ◌&&◌, none, some, List, [], ◌∷◌, str_eq,
  if◌then◌else◌, ℤ, pos, length,
}
use tallyd.Adapter.{Event}
use tallyd.Wal.Log.{Wal, member}
use tallyd.DlqReplay.{serve}
use tallyd.Batcher.{flush}
use tallyd.Batcher.Workers.{retried}
use tallyd.Receiver.{route}
use tallyd.Receiver.Ingest.{Jobs}
use tallyd.Receiver.Handler.{BodyJson, handle_events}
use tallyd.GrpcServer.{grpc_ingest}
use tallyd.GrpcServer.Agreement.{Submission, in_proto, status_for, transports_agree}
use tallyd.Metrics.{Collectors, flush_metrics, must_register, new_series}
use tallyd.Metrics.Counts.{CounterLaws, terminal, sends, flush_metrics-counts}
use tallyd.Status.Views.{no_faults}
use tallyd.Pipeline.{router_of}
use tallyd.Pipeline.Handler.{HttpRequest, Response, no_body, ReadFaults, serve_http}
use tallyd.Pipeline.Handler.Safety.{serve_http-ReadOnly}
use tallyd.Command.{signalled, Environment, request, run, run_dlq_replay}
use tallyd.Command.Trace.{IsOrderly}
use tallyd.Command.Order.{run-IsOrderly}
use tallyd.Command.Client.{to_daemon, error_for, run_dlq_replay-serve}
use tallyd.Tests.Samples.{signup, to_metronome}
use tallyd.Tests.Recovery.{fresh}
use tallyd.Tests.Adapters.{formats, overloaded, policy, batch}
use tallyd.Tests.Daemon.{config, keep_jobs, store_faults, parked}
use tallyd.Batcher.{Adapter}
use tallyd.Metronome.{metronome}

abbrev only_metronome : String → Bool
only_metronome p = str_eq p "metronome"

-- A registry that keeps the series as functions.
record Board : Type 0 where
  acks : String → String → ℕ
  sent : String → ℕ
  gauge : ℕ
  depths : String → ℤ

abbrev board : Collectors Board
board = record {
  add_received = λ n m. m;
  inc_acked =
      λ p l m. record m { acks = λ q k. m.acks q k + (if str_eq p q && str_eq l k then 1 else 0) };
  inc_send_errors = λ p l m. m;
  observe_latency = λ p d m. record m { sent = λ q. m.sent q + (if str_eq p q then 1 else 0) };
  set_unacked = λ n m. record m { gauge = n };
  set_dlq_depth = λ p z m. record m { depths = λ q. if str_eq p q then z else m.depths q };
  acked = λ m. m.acks;
  send_errors = λ m q k. 0;
  latencies = λ m. m.sent;
  unacked = λ m. m.gauge;
  dlq_depth = λ m. m.depths;
}

board-CounterLaws : CounterLaws board
board-CounterLaws = record {
  acked_inc = λ p l q k m. refl;
  acked_errors = λ p l q k m. refl;
  acked_observe = λ p d q k m. refl;
  latencies_acked = λ p l q m. refl;
  latencies_errors = λ p l q m. refl;
  latencies_observe = λ p d q m. refl;
}

-- New does not panic.
new_registers : must_register [] new_series ≡ true
unfolding must_register member
new_registers = refl

abbrev blank : Board
blank = record { acks = λ q k. 0; sent = λ q. 0; gauge = 7; depths = λ q. pos 0 }

abbrev busy : Adapter
busy = metronome formats overloaded (pos 0)

flush_metrics-counts_example :
    let m' = flush_metrics board "metronome" busy (λ s. s) policy 1075 20 batch blank in
    (terminal board "metronome" m' + length (retried (flush busy (λ s. s) policy 1075 batch))
      ≡ terminal board "metronome" blank + length batch)
    × (board.latencies m' "metronome"
        ≡ board.latencies blank "metronome" + sends (busy.encode (map (λ q. q.event) batch)))
flush_metrics-counts_example =
    flush_metrics-counts board board-CounterLaws "metronome" busy (λ s. s) policy 1075 20 batch
      blank

-- A body of one byte for `signup`, and the same as a submission.
abbrev body_json : BodyJson
body_json = record {
  first_value = λ body. some body;
  unmarshal_events = λ raw. none;
  unmarshal_event = λ raw. some signup;
}

-- `signup` as a client submits it, which leaves out the properties and the route.
abbrev submitted : Submission
submitted = record {
  id = some "e1";
  customer_id = some "c1";
  event_name = some "signup";
  timestamp = some 5;
  properties = none;
  route = none;
}

abbrev routing : Event → List String
routing = route (router_of config)

transports_agree_example :
    let (t, code) =
      grpc_ingest keep_jobs routing (some only_metronome) 100 (map in_proto (submitted ∷ [])) [] in
    handle_events keep_jobs routing (some only_metronome) body_json 100 (1 ∷ []) []
    ≡ (t, status_for code)
transports_agree_example =
    transports_agree keep_jobs routing (some only_metronome) body_json 100 (1 ∷ []) (submitted ∷ [])
      [] (1 ∷ [], refl, inr (submitted, refl, refl, refl))

abbrev log_of : Jobs → Wal
log_of jobs = fresh

abbrev scraped : Response
scraped = record { status = 200; body = no_body }

abbrev read_faults : ReadFaults
read_faults = record {
  replay = store_faults;
  list_fails = false;
  list_poison_fails = false;
  status = no_faults;
}

abbrev show_request : HttpRequest
show_request = request "GET" "/v1/dlq" "metronome" "true"

serve_http-ReadOnly_example :
    (serve_http keep_jobs log_of routing only_metronome to_metronome body_json scraped read_faults
      100 show_request [] parked).0
    ≡ ([], parked)
serve_http-ReadOnly_example =
    serve_http-ReadOnly keep_jobs log_of routing only_metronome to_metronome body_json scraped
      read_faults 100 show_request [] parked refl

run_dlq_replay-serve_example :
    let (t, reply) = serve keep_jobs "metronome" only_metronome store_faults true true [] parked in
    run_dlq_replay
      (to_daemon keep_jobs log_of routing only_metronome to_metronome body_json scraped read_faults
        100)
      "metronome"
      true
      ([], parked)
    ≡ (t, error_for reply)
run_dlq_replay-serve_example =
    run_dlq_replay-serve keep_jobs log_of routing only_metronome to_metronome body_json scraped
      read_faults 100 "metronome" true [] parked refl

abbrev evening : Environment
evening = record {
  loads = true;
  builds = true;
  has_grpc = true;
  http_binds = true;
  grpc_binds = true;
  wake = signalled;
  handles = none ∷ [];
  wal_ok = true;
  names = to_metronome;
}

run-IsOrderly_example : IsOrderly evening.has_grpc (run evening).0
run-IsOrderly_example = run-IsOrderly evening
