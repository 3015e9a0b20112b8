-- ===== src/Pipeline/Handler/Safety.antt =====
-- Which requests change something, among all that Handler of pipeline.go serves.
use tallyd.Base.{
  ℕ, ◌≡◌, refl, inl, inr, String, Bool, true, false, ◌&&◌, ◌||◌, List, str_eq, arith, Bool-cases,
}
use tallyd.Adapter.{Event}
use tallyd.Wal.Log.{Wal}
use tallyd.Dlq.{Dlq}
use tallyd.Receiver.{Sink}
use tallyd.Receiver.Handler.{BodyJson, receive}
use tallyd.DlqReplay.{serve}
use tallyd.Pipeline.Handler.{
  HttpRequest, Response, Endpoint, at_metrics, at_status, at_dlq, at_dlq_replay, at_root,
  endpoint_of, ReadFaults, serve_endpoint, serve_http,
}

-- A POST of events or of a replay.
abbrev pub may_change : HttpRequest → Bool
may_change r =
    str_eq r.method "POST" && (str_eq r.path "/v1/events" || str_eq r.path "/v1/dlq/replay")

not_replay :
    (post events replay : Bool)
    → (post && (events || replay)) ≡ false
    → replay ≡ true
    → post ≡ false
not_replay true true replay h e = absurd (ground arith)
not_replay true false replay h e = absurd (ground arith)
not_replay false events replay h e = refl

not_root :
    (post events replay : Bool) → (post && (events || replay)) ≡ false → (post && events) ≡ false
not_root true true replay h = h
not_root true false replay h = refl
not_root false events replay h = refl

endpoint_of-replay :
    (path : String) → endpoint_of path ≡ at_dlq_replay → str_eq path "/v1/dlq/replay" ≡ true
unfolding endpoint_of
endpoint_of-replay path e = ground arith

module _ {S : Type 0} (sink : Sink S) (log_of : S → Wal) (router : Event → List String)
    (known : String → Bool) (providers : List String) (json : BodyJson) (metrics : Response)
    (faults : ReadFaults) (now : ℕ) (r : HttpRequest) (s : S) (d : Dlq) where
  replay-ReadOnly :
      str_eq r.method "POST" ≡ false
      → (serve_endpoint sink log_of router known providers json metrics at_dlq_replay faults now r s
          d).0
        ≡ (s, d)
  unfolding serve_endpoint serve
  replay-ReadOnly h = rw h refl

  root-ReadOnly :
      (str_eq r.method "POST" && str_eq r.path "/v1/events") ≡ false
      → (serve_endpoint sink log_of router known providers json metrics at_root faults now r s d).0
        ≡ (s, d)
  unfolding serve_endpoint receive
  root-ReadOnly h = elim (Bool-cases (str_eq r.path "/v1/events")) [
    | inr other ↦ rw other refl
    | inl events ↦ rw (events, not_post (str_eq r.method "POST") events h) refl
  ]
    where
      not_post :
          (b : Bool)
          → str_eq r.path "/v1/events" ≡ true
          → (b && str_eq r.path "/v1/events") ≡ false
          → b ≡ false
      not_post b e k = ground arith

  endpoint-ReadOnly :
      (e : Endpoint)
      → may_change r ≡ false
      → (e ≡ at_dlq_replay → str_eq r.path "/v1/dlq/replay" ≡ true)
      → (serve_endpoint sink log_of router known providers json metrics e faults now r s d).0
        ≡ (s, d)
  unfolding serve_endpoint
  endpoint-ReadOnly at_metrics h replay = refl
  endpoint-ReadOnly at_status h replay = refl
  endpoint-ReadOnly at_dlq h replay = refl
  endpoint-ReadOnly at_dlq_replay h replay =
      replay-ReadOnly
        (not_replay (str_eq r.method "POST") (str_eq r.path "/v1/events") _ h (replay refl))
  endpoint-ReadOnly at_root h replay =
      root-ReadOnly (not_root (str_eq r.method "POST") (str_eq r.path "/v1/events") _ h)

  -- Only a POST to /v1/events or to /v1/dlq/replay can change the state of the log or the dead-letter
  -- queue: every other request, of whatever method and path, leaves both as they are, and so the
  -- status, show and metrics endpoints only read.
  pub serve_http-ReadOnly :
      may_change r ≡ false
      → (serve_http sink log_of router known providers json metrics faults now r s d).0 ≡ (s, d)
  unfolding serve_http
  serve_http-ReadOnly h = endpoint-ReadOnly (endpoint_of r.path) h (endpoint_of-replay r.path)
