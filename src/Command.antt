-- ===== src/Command.antt =====
-- cmd/tallyd/main.go: the command line, its three HTTP clients, and the daemon's start and stop. The
-- flag package has parsed the flags; net/http, net and os/signal are arguments.
pub mod Client
pub mod Trace
pub mod Order
pub mod Settings
use tallyd.Base.{
  ℕ, pos, String, Bool, true, false, ◌&&◌, Option, none, some, List, [], ◌∷◌, ◌++◌, map, str_eq,
  ◌==◌, if◌then◌else◌,
}
use tallyd.Pipeline.{Config, ConfigFiles, load_file}
use tallyd.Pipeline.Handler.{HttpRequest, Shutdown, close_pipeline}

-- What main runs, with the arguments that are left.
pub data Mode : Type 0 where
  dlq_replay dlq_show show_status : List String → Mode
  daemon : Mode

-- The test of `os.Args[2]`, which is there.
unfoldable pub dlq_mode : String → List String → Mode
dlq_mode word rest =
    if str_eq word "replay"
    then dlq_replay rest
    else if str_eq word "show"
    then dlq_show rest
    else daemon

-- main, on os.Args.
unfoldable pub mode_of : List String → Mode
unfolding dlq_mode
mode_of [] = daemon
mode_of (program ∷ []) = daemon
mode_of (program ∷ word ∷ []) = if str_eq word "status" then show_status [] else daemon
mode_of (program ∷ word ∷ next ∷ rest) =
    if str_eq word "dlq"
    then dlq_mode next rest
    else if str_eq word "status"
    then show_status (next ∷ rest)
    else daemon

-- What the HTTP client brings back: nothing, an answer whose body cannot be read, or an answer.
pub data Answer : Type 0 where
  no_answer unreadable : Answer
  answered : ℕ → Answer

pub data ClientError : Type 0 where
  provider_required request_failed read_failed : ClientError
  server_returned : ℕ → ClientError

-- The end of the three clients: `none` is a nil error.
unfoldable pub client_error : Answer → Option ClientError
client_error no_answer = some request_failed
client_error unreadable = some read_failed
client_error (answered status) = if status == 200 then none else some (server_returned status)

abbrev pub poison_parameter : Bool → String
poison_parameter include_poison = if include_poison then "true" else ""

abbrev pub request : String → String → String → String → HttpRequest
request method path provider poison = record {
  method = method;
  path = path;
  provider = provider;
  include_poison = poison;
  body = [];
}

-- The clients, over the state of the server at the address.
module _ {D : Type 0} (transport : HttpRequest → D → D × Answer) where
  unfoldable pub send : HttpRequest → D → D × Option ClientError
  send r s = let (t, answer) = transport r s in (t, client_error answer)

  -- runDLQReplay
  unfoldable pub run_dlq_replay : String → Bool → D → D × Option ClientError
  unfolding send
  run_dlq_replay provider include_poison s =
      if str_eq provider ""
      then (s, some provider_required)
      else send (request "POST" "/v1/dlq/replay" provider (poison_parameter include_poison)) s

  -- runDLQShow
  unfoldable pub run_dlq_show : String → Bool → D → D × Option ClientError
  unfolding send
  run_dlq_show provider include_poison s =
      if str_eq provider ""
      then (s, some provider_required)
      else send (request "GET" "/v1/dlq" provider (poison_parameter include_poison)) s

  -- runStatus
  unfoldable pub run_status : D → D × Option ClientError
  unfolding send
  run_status s = send (request "GET" "/v1/status" "" "") s

-- `&pipeline.Config{}`
abbrev pub zero_config : Config
zero_config = record {
  http = "";
  grpc = "";
  dir = "";
  max_bytes = pos 0;
  on_full = "";
  providers = [];
  default = [];
  rules = [];
}

-- loadConfig
unfoldable pub load_config : ConfigFiles → String → Option Config
load_config files path = if str_eq path "" then some zero_config else load_file files path

-- `if *flag != "" { cfg.Listen... = *flag }`
unfoldable pub override : String → String → String
override flag configured = if str_eq flag "" then configured else flag

unfoldable pub with_listen_flags : String → String → Config → Config
unfolding override
with_listen_flags listen grpc_listen cfg = record cfg {
  http = override listen cfg.http;
  grpc = override grpc_listen cfg.grpc;
}

-- What run does to the world, in order.
pub data Effect : Type 0 where
  starts_gauges : Effect
  binds_http binds_grpc : Effect
  closes_http_listener : Effect
  serves_http serves_grpc : Effect
  shuts_down_http stops_grpc : Effect
  stops_gauges : Effect
  closes : Shutdown → Effect

-- What wakes run: a server that ends, with an error or without, or a signal.
pub data Wake : Type 0 where
  server_failed server_ended signalled : Wake

pub data RunResult : Type 0 where
  stopped : RunResult
  load_failed build_failed listen_failed grpc_listen_failed serve_failed close_failed : RunResult

-- What the environment answers. `loads` and `builds`: loadConfig and Build return no error;
-- `has_grpc`: the pipeline has a GRPCServer; `names`: its batchers; `handles`: the errors of closing
-- the open files of its dead-letter queue; `wal_ok`: its log is closed without one.
pub record Environment : Type 0 where
  pub loads : Bool
  pub builds : Bool
  pub has_grpc : Bool
  pub http_binds : Bool
  pub grpc_binds : Bool
  pub wake : Wake
  pub handles : List (Option String)
  pub wal_ok : Bool
  pub names : List String

-- The steps that are only there with a gRPC server.
abbrev pub if_grpc : Bool → Effect → List Effect
if_grpc has_grpc effect = if has_grpc then effect ∷ [] else []

-- The end of run, behind the select: Shutdown, GracefulStop, the gauges, and Close.
unfoldable pub shut_down : Environment → List Effect × RunResult
shut_down env =
    let (steps, fine) = close_pipeline env.handles env.wal_ok env.names in
    (
      shuts_down_http ∷ if_grpc env.has_grpc stops_grpc ++ stops_gauges ∷ map closes steps,
      if fine then stopped else close_failed,
    )

unfoldable pub wait_and_stop : Wake → Environment → List Effect × RunResult
wait_and_stop server_failed env = (stops_gauges ∷ [], serve_failed)
wait_and_stop server_ended env = shut_down env
wait_and_stop signalled env = shut_down env

-- Both listeners are bound: the servers start.
unfoldable pub serve_bound : Environment → List Effect × RunResult
unfolding wait_and_stop
serve_bound env =
    let (rest, result) = wait_and_stop env.wake env in
    (serves_http ∷ if_grpc env.has_grpc serves_grpc ++ rest, result)

unfoldable pub bind_grpc : Environment → List Effect × RunResult
unfolding serve_bound
bind_grpc env =
    if env.has_grpc
    then (if env.grpc_binds
        then (let (rest, result) = serve_bound env in (binds_grpc ∷ rest, result))
        else (closes_http_listener ∷ stops_gauges ∷ [], grpc_listen_failed))
    else serve_bound env

-- run, from loadConfig on. The deferred `cancel` stops the gauges on every return.
unfoldable pub run : Environment → List Effect × RunResult
unfolding bind_grpc
run env =
    if env.loads
    then (if env.builds
        then (if env.http_binds
            then (let (rest, result) = bind_grpc env in (starts_gauges ∷ binds_http ∷ rest, result))
            else (starts_gauges ∷ stops_gauges ∷ [], listen_failed))
        else ([], build_failed))
    else ([], load_failed)
