-- ===== src/Pipeline/Handler.antt =====
-- internal/pipeline/pipeline.go: Handler, RunGauges and Close, which join the handlers of the other
-- packages, the gauges, and the shutdown of the parts. A path is taken as it is: one that ServeMux
-- would clean and redirect is left out.
pub mod Safety
pub mod Gauges
use tallyd.Base.{
  ℕ, String, Bool, true, false, ◌&&◌, Option, none, some, List, [], ◌∷◌, ◌++◌, str_eq,
  if◌then◌else◌, ℤ, pos, negsuc, zero, suc, ◌*◌,
}
use tallyd.Adapter.{Event}
use tallyd.Wal.Log.{Wal, unacked_count}
use tallyd.Dlq.{Dlq, DeadLetter, depth, close_dlq}
use tallyd.Batcher.{second}
use tallyd.Receiver.{Sink}
use tallyd.Receiver.Handler.{BodyJson}
use tallyd.Receiver.Handler
use tallyd.DlqReplay
use tallyd.DlqReplay.{StoreFaults}
use tallyd.DlqShow
use tallyd.DlqShow.{show_dlq}
use tallyd.Status
use tallyd.Status.{serve_status}
use tallyd.Metrics.{Collectors, set_wal_unacked, set_dlq_depth}

-- `include_poison` is the text of the query parameter.
pub record HttpRequest : Type 0 where
  pub method : String
  pub path : String
  pub provider : String
  pub include_poison : String
  pub body : List ℕ

pub data Body : Type 0 where
  no_body : Body
  replay_body : List String → List String → Body
  show_body : String → List DeadLetter → Body
  status_body : Status.Result → Body

pub record Response : Type 0 where
  pub status : ℕ
  pub body : Body

abbrev pub response : ℕ → Body → Response
response status body = record { status = status; body = body }

-- What the replies of the three admin handlers are on the wire.
unfoldable pub replay_response : DlqReplay.Reply → Response
replay_response (DlqReplay.refuses status) = response status no_body
replay_response (DlqReplay.replies replayed failed) = response 200 (replay_body replayed failed)

unfoldable pub show_response : DlqShow.Shown → Response
show_response (DlqShow.refuses status) = response status no_body
show_response (DlqShow.shows provider records) = response 200 (show_body provider records)

unfoldable pub status_response : Status.StatusReply → Response
status_response (Status.refuses status) = response status no_body
status_response (Status.reports result) = response 200 (status_body result)

-- Who serves a path: the patterns of the mux.
pub data Endpoint : Type 0 where
  at_metrics at_status at_dlq at_dlq_replay at_root : Endpoint

unfoldable pub endpoint_of : String → Endpoint
endpoint_of path =
    if str_eq path "/metrics"
    then at_metrics
    else if str_eq path "/v1/status"
    then at_status
    else if str_eq path "/v1/dlq"
    then at_dlq
    else if str_eq path "/v1/dlq/replay"
    then at_dlq_replay
    else at_root

-- What the store does wrong during a request.
pub record ReadFaults : Type 0 where
  pub replay : StoreFaults
  pub list_fails : Bool
  pub list_poison_fails : Bool
  pub status : String → Bool × Bool

-- The handlers that Build makes, over the state of the sink: `log_of` finds the log in it, and
-- `metrics` is what promhttp answers.
module _ {S : Type 0} (sink : Sink S) (log_of : S → Wal) (router : Event → List String)
    (known : String → Bool) (providers : List String) (json : BodyJson) (metrics : Response) where
  unfoldable pub serve_endpoint :
      Endpoint → ReadFaults → ℕ → HttpRequest → S → Dlq → (S × Dlq) × Response
  serve_endpoint at_metrics faults now r s d = ((s, d), metrics)
  serve_endpoint at_status faults now r s d = (
    (s, d),
    status_response (serve_status faults.status (str_eq r.method "GET") providers (log_of s) d),
  )
  serve_endpoint at_dlq faults now r s d = (
    (s, d),
    show_response (
        show_dlq known faults.list_fails faults.list_poison_fails (str_eq r.method "GET")
          (str_eq r.include_poison "true") r.provider d),
  )
  serve_endpoint at_dlq_replay faults now r s d =
      let (state, reply) =
        DlqReplay.serve sink r.provider known faults.replay (str_eq r.method "POST")
          (str_eq r.include_poison "true") s d in
      (state, replay_response reply)
  serve_endpoint at_root faults now r s d =
      let (t, status) =
        Handler.receive sink router (some known) json now r.method r.path r.body s in
      ((t, d), response status no_body)

  -- The handler of the daemon.
  unfoldable pub serve_http : ReadFaults → ℕ → HttpRequest → S → Dlq → (S × Dlq) × Response
  unfolding serve_endpoint
  serve_http faults now r s d = serve_endpoint (endpoint_of r.path) faults now r s d

module _ {M : Type 0} (collectors : Collectors M) where
  -- The loop of `refresh` over the batchers.
  unfoldable pub refresh_depths : Dlq → List String → M → M
  refresh_depths d [] m = m
  refresh_depths d (name ∷ names) m =
      refresh_depths d names (set_dlq_depth collectors name (depth d name) m)

  -- The closure `refresh` of RunGauges.
  unfoldable pub refresh : Wal → Dlq → List String → M → M
  unfolding refresh_depths
  refresh w d names m = refresh_depths d names (set_wal_unacked collectors (unacked_count w) m)

-- The interval of RunGauges, in nanoseconds.
unfoldable pub gauge_interval : ℤ → ℕ
gauge_interval (pos zero) = 2 * second
gauge_interval (pos (suc n)) = suc n
gauge_interval (negsuc n) = 2 * second

-- The calls of Close, on the parts that it shuts down.
pub data Shutdown : Type 0 where
  closes_batcher : String → Shutdown
  closes_dlq closes_wal : Shutdown

unfoldable pub close_batchers : List String → List Shutdown
close_batchers [] = []
close_batchers (name ∷ names) = closes_batcher name ∷ close_batchers names

-- What follows the batchers: an error of the dead-letter queue ends Close.
unfoldable pub close_stores : Option String → Bool → List Shutdown × Bool
close_stores none wal_ok = (closes_dlq ∷ closes_wal ∷ [], wal_ok)
close_stores (some e) wal_ok = (closes_dlq ∷ [], false)

-- Close: its calls, and whether its error is nil. `handles` are the errors of the open files of the
-- dead-letter queue, `wal_ok` says whether the log is closed without one.
unfoldable pub close_pipeline : List (Option String) → Bool → List String → List Shutdown × Bool
unfolding close_batchers close_stores
close_pipeline handles wal_ok names =
    let (stores, fine) = close_stores (close_dlq handles) wal_ok in
    (close_batchers names ++ stores, fine)
