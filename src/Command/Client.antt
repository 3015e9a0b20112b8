-- ===== src/Command/Client.antt =====
-- `tallyd dlq replay` of main.go against the handler of the running daemon.
use tallyd.Base.{
  ℕ, ◌≡◌, refl, ap, String, Bool, true, false, ◌&&◌, Option, none, some, List, [], ◌∷◌, str_eq,
  ◌==◌, if_both,
}
use tallyd.Adapter.{Event}
use tallyd.Wal.Log.{Wal}
use tallyd.Dlq.{Dlq, remove}
use tallyd.Receiver.{Sink}
use tallyd.Receiver.Handler.{BodyJson}
use tallyd.DlqReplay.{StoreFaults, Reply, refuses, replies, finish, replay_listed, serve}
use tallyd.Pipeline.Handler.{
  HttpRequest, Response, ReadFaults, replay_response, endpoint_of, serve_endpoint, serve_http,
}
use tallyd.Command.{
  Answer, answered, ClientError, server_returned, client_error, send, poison_parameter,
  run_dlq_replay,
}

-- The error of the client for a reply of the replay handler.
abbrev pub error_for : Reply → Option ClientError
error_for (replies replayed failed) = none
error_for (refuses status) = some (server_returned status)

-- A refusal is not a 200.
abbrev IsProper : Reply → Type 0
IsProper (refuses status) = (status == 200) ≡ false
IsProper (replies replayed failed) = Unit {0}

client_error-replay_response :
    (reply : Reply)
    → IsProper reply
    → client_error (answered (replay_response reply).status) ≡ error_for reply
unfolding client_error replay_response
client_error-replay_response (refuses status) h = rw h refl
client_error-replay_response (replies replayed failed) h = refl

poison_parameter_true : (b : Bool) → str_eq (poison_parameter b) "true" ≡ b
poison_parameter_true true = refl
poison_parameter_true false = refl

module _ {S : Type 0} (sink : Sink S) (provider : String) where
  finish-IsProper :
      (faults : StoreFaults) (s : S) (lists : List String × List String) (d : Dlq)
      → IsProper (finish sink provider faults s lists d).1
  unfolding finish
  finish-IsProper faults s ([], failed) d = tt
  finish-IsProper faults s (id ∷ replayed, failed) d =
      if_both IsProper
        (remove faults.regular_fault faults.poison_fault provider (id ∷ replayed) d).1 _ _
        (λ fine. tt) (λ failed. refl)

  serve-IsProper :
      (known : String → Bool) (faults : StoreFaults) (is_post include_poison : Bool) (s : S)
      (d : Dlq)
      → IsProper (serve sink provider known faults is_post include_poison s d).1
  unfolding serve replay_listed
  serve-IsProper known faults is_post include_poison s d =
      let P : (S × Dlq) × Reply → Type 0 = λ x. IsProper x.1 in
      if_both P is_post _ _
        (λ post.
          if_both P (str_eq provider "") _ _ (λ e. refl)
            (λ named.
              if_both P (known provider) _ _
                (λ k.
                  if_both P faults.list_fails _ _ (λ e. refl)
                    (λ lists.
                      if_both P (include_poison && faults.list_poison_fails) _ _ (λ e. refl)
                        (λ all. finish-IsProper faults _ _ d)))
                (λ unknown. refl)))
        (λ get. refl)

module _ {S : Type 0} (sink : Sink S) (log_of : S → Wal) (router : Event → List String)
    (known : String → Bool) (providers : List String) (json : BodyJson) (metrics : Response)
    (faults : ReadFaults) (now : ℕ) where
  -- The HTTP connection to a running daemon.
  abbrev pub to_daemon : HttpRequest → S × Dlq → (S × Dlq) × Answer
  to_daemon r (s, d) =
      let (t, response) =
        serve_http sink log_of router known providers json metrics faults now r s d in
      (t, answered response.status)

  -- Against a running daemon, `tallyd dlq replay` with a provider does exactly what the replay handler
  -- does on a POST for that provider, poisoned records included where the flag says so, and exits
  -- without an error exactly where the handler replies with its two lists; a refusal of the handler
  -- is the client's error, with its status.
  pub run_dlq_replay-serve :
      (provider : String) (include_poison : Bool) (s : S) (d : Dlq)
      → str_eq provider "" ≡ false
      → let (t, reply) = serve sink provider known faults.replay true include_poison s d in
        run_dlq_replay to_daemon provider include_poison (s, d) ≡ (t, error_for reply)
  unfolding run_dlq_replay send serve_http serve_endpoint endpoint_of
  run_dlq_replay-serve provider include_poison s d named =
      let (t, reply) = serve sink provider known faults.replay true include_poison s d in
      rw (named, poison_parameter_true include_poison)
        (ap (λ e. (t, e))
          (client_error-replay_response reply
            (serve-IsProper sink provider known faults.replay true include_poison s d)))
