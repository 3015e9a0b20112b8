-- ===== src/Command/Order.antt =====
-- The order of what run and Close do, in main.go and pipeline.go.
use tallyd.Base.{if_both, subst, ◌≡◌, refl, Bool, true, false, List, [], ◌∷◌, ◌++◌, arith}
use tallyd.Command.{
  Effect, starts_gauges, binds_http, binds_grpc, serves_http, serves_grpc, shuts_down_http,
  stops_grpc, stops_gauges, Wake, server_failed, server_ended, signalled, Environment, if_grpc,
  shut_down, wait_and_stop, serve_bound, bind_grpc, run, RunResult,
}
use tallyd.Command.Trace.{
  before, never_after, count, is_binds_http, is_binds_grpc, is_serves, takes_listener,
  is_shuts_down_http, is_stops_grpc, is_closes, is_closes_store, is_closes_dlq, is_closes_wal,
  is_closes_batcher, IsOrderly, Closing, close_pipeline-Closing,
}

-- A run, up to what wakes it.
started : Bool → List Effect → List Effect
started has_grpc rest =
    starts_gauges
    ∷ (binds_http
        ∷ (if_grpc has_grpc binds_grpc ++ (serves_http ∷ (if_grpc has_grpc serves_grpc ++ rest))))

-- A run that is stopped.
stopped_run : Bool → List Effect → List Effect
stopped_run has_grpc steps =
    started has_grpc (shuts_down_http ∷ (if_grpc has_grpc stops_grpc ++ (stops_gauges ∷ steps)))

stopped_run-IsOrderly :
    (has_grpc : Bool) (steps : List Effect)
    → Closing steps
    → IsOrderly has_grpc (stopped_run has_grpc steps)
unfolding stopped_run started
stopped_run-IsOrderly true steps c = record {
  bound = refl;
  grpc_bound = λ g. refl;
  listener = omega (arith, c.takes, c.binds);
  http_down = refl;
  grpc_down = λ g. refl;
  batchers_first = c.batchers_first;
  dlq_first = c.dlq_first;
}
stopped_run-IsOrderly false steps c = record {
  bound = refl;
  grpc_bound = λ g. absurd (ground arith);
  listener = omega (arith, c.takes, c.binds);
  http_down = refl;
  grpc_down = λ g. absurd (ground arith);
  batchers_first = c.batchers_first;
  dlq_first = c.dlq_first;
}

started-failed : (has_grpc : Bool) → IsOrderly has_grpc (started has_grpc (stops_gauges ∷ []))
unfolding started
started-failed true = record {
  bound = refl;
  grpc_bound = λ g. refl;
  listener = refl;
  http_down = refl;
  grpc_down = λ g. refl;
  batchers_first = refl;
  dlq_first = refl;
}
started-failed false = record {
  bound = refl;
  grpc_bound = λ g. absurd (ground arith);
  listener = refl;
  http_down = refl;
  grpc_down = λ g. absurd (ground arith);
  batchers_first = refl;
  dlq_first = refl;
}

module _ (env : Environment) where
  shut_down-IsOrderly : IsOrderly env.has_grpc (started env.has_grpc (shut_down env).0)
  unfolding shut_down started stopped_run
  shut_down-IsOrderly =
      stopped_run-IsOrderly env.has_grpc _ (close_pipeline-Closing env.handles env.wal_ok env.names)

  woken-IsOrderly :
      (w : Wake) → IsOrderly env.has_grpc (started env.has_grpc (wait_and_stop w env).0)
  unfolding wait_and_stop
  woken-IsOrderly server_failed = started-failed env.has_grpc
  woken-IsOrderly server_ended = shut_down-IsOrderly
  woken-IsOrderly signalled = shut_down-IsOrderly

  serve_bound-IsOrderly :
      IsOrderly env.has_grpc
        (starts_gauges ∷ (binds_http ∷ (if_grpc env.has_grpc binds_grpc ++ (serve_bound env).0)))
  unfolding serve_bound started
  serve_bound-IsOrderly = woken-IsOrderly env.wake

  early-IsOrderly :
      (trace : List Effect)
      → count takes_listener trace ≡ count is_binds_http trace
      → before is_binds_http is_serves trace ≡ true
      → before is_binds_grpc is_serves trace ≡ true
      → before is_shuts_down_http is_closes trace ≡ true
      → before is_stops_grpc is_closes trace ≡ true
      → never_after is_closes_store is_closes_batcher trace ≡ true
      → before is_closes_dlq is_closes_wal trace ≡ true
      → IsOrderly env.has_grpc trace
  early-IsOrderly trace l b g h s n d = record {
    bound = b;
    grpc_bound = λ e. g;
    listener = l;
    http_down = h;
    grpc_down = λ e. s;
    batchers_first = n;
    dlq_first = d;
  }

  abbrev Bound : List Effect × RunResult → Type 0
  Bound x = IsOrderly env.has_grpc (starts_gauges ∷ (binds_http ∷ x.0))

  with_grpc :
      (b : Bool)
      → env.has_grpc ≡ b
      → IsOrderly env.has_grpc
          (starts_gauges ∷ (binds_http ∷ (if_grpc b binds_grpc ++ (serve_bound env).0)))
  with_grpc b e =
      subst
        (λ g.
          IsOrderly env.has_grpc
            (starts_gauges ∷ (binds_http ∷ (if_grpc g binds_grpc ++ (serve_bound env).0))))
        e serve_bound-IsOrderly

  bind_grpc-IsOrderly : Bound (bind_grpc env)
  unfolding bind_grpc
  bind_grpc-IsOrderly =
      if_both Bound env.has_grpc _ _
        (λ has.
          if_both Bound env.grpc_binds _ _ (λ binds. with_grpc true has)
            (λ fails. early-IsOrderly _ refl refl refl refl refl refl refl))
        (λ without. with_grpc false without)

  -- Every run of the daemon is orderly, whatever fails: nothing is served before the HTTP listener is
  -- bound, nor before the gRPC listener is, where there is a gRPC server, and a bound HTTP listener
  -- is either served or closed, once; no part of the pipeline is closed before the HTTP server is
  -- shut down, nor before the gRPC server has stopped; and the batchers are closed before the
  -- dead-letter queue and the log, of which the log is closed last, so that the final flushes can
  -- still write to both.
  pub run-IsOrderly : IsOrderly env.has_grpc (run env).0
  unfolding run
  run-IsOrderly =
      let Fine : List Effect × RunResult → Type 0 = λ x. IsOrderly env.has_grpc x.0 in
      let quiet = early-IsOrderly [] refl refl refl refl refl refl refl in
      if_both Fine env.loads _ _
        (λ loaded.
          if_both Fine env.builds _ _
            (λ built.
              if_both Fine env.http_binds _ _ (λ binds. bind_grpc-IsOrderly)
                (λ fails. early-IsOrderly _ refl refl refl refl refl refl refl))
            (λ fails. quiet))
        (λ fails. quiet)
