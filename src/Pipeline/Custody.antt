-- ===== src/Pipeline/Custody.antt =====
-- The log, the dispatcher and one batcher as pipeline.go wires them: internal/wal/wal.go,
-- internal/dispatcher/dispatcher.go and internal/batcher/batcher.go. A goroutine that has appended an
-- event still has to call Enqueue; the acks of a flush are commits of their own.
pub mod Owed
pub mod Keys
pub mod Invariant
use tallyd.Base.{
  ℕ, zero, suc, ◌+◌, ◌≡◌, String, Bool, true, false, Option, none, some, List, [], ◌∷◌, ◌++◌,
  str_eq, if◌then◌else◌,
}
use tallyd.Adapter.{Event, Disposition}
use tallyd.Wal.Log.{Wal, pending_entries}
use tallyd.Wal.Commit.{
  Json, Change, appends, Request, Faults, Prepared, submitted, rejected, prepare_ack, commit_batch,
}
use tallyd.Wal.Replay.{File, replayed, open_wal}
use tallyd.Dispatcher.{Enqueued, dispatch, replay_pending}
use tallyd.Dispatcher.Routing.{AllKnown}
use tallyd.Batcher.{
  RetryPolicy, Queued, Adapter, Call, acks, puts_dlq, records_ack, records_send_error,
  schedules_retry, flush,
}
use tallyd.Batcher.Workers.{
  Workers, new_workers, enqueue, signal_close, Ready, turn, end_flush, fire,
}

-- The Enqueue calls of a sequence that go to one provider.
unfoldable pub events_for : String → Enqueued → List Event
events_for name [] = []
events_for name ((p, e) ∷ calls) =
    let rest = events_for name calls in if str_eq p name then e ∷ rest else rest

-- walDispatchSink.Append behind a commit: an event whose append is answered with nil is dispatched.
unfoldable pub dispatched_change : (String → Bool) → Change → Bool → Enqueued
dispatched_change known (appends e ps) answer = if answer then (dispatch known e ps).0 else []
dispatched_change known (Change.acks id p) answer = []

unfoldable pub dispatched : (String → Bool) → List (Request × Faults) → List Bool → Enqueued
unfolding dispatched_change
dispatched known [] answers = []
dispatched known (r ∷ rs) [] = []
dispatched known (r ∷ rs) (answer ∷ answers) =
    dispatched_change known r.0.change answer ++ dispatched known rs answers

-- Enqueue: a first attempt, queued now.
unfoldable pub new_queued : Event → ℕ → Queued
new_queued e now = record { event = e; attempt = 0; first_queue = now }

abbrev first_answer : List Bool → Bool
first_answer [] = false
first_answer (answer ∷ answers) = answer

unfoldable pub commit_ack : Prepared → Faults × Bool → Wal → Wal × Bool
commit_ack (rejected e) outside w = (w, false)
commit_ack (submitted r) (faults, sync_ok) w =
    let (w', answers) = commit_batch ((r, faults) ∷ []) sync_ok w in (w', first_answer answers)

-- Ack, in a batch of its own: the log, and whether the error is nil.
unfoldable pub ack_log : Json → String → Faults × Bool → String → Disposition → Wal → Wal × Bool
unfolding commit_ack
ack_log json name outside id d w = commit_ack (prepare_ack json w id name d) outside w

-- The acks among the calls of a flush, in their order. `outside n` is what the operating system does
-- at the n-th of them; `failed` gathers the ids whose ack returned an error, which ack only logs.
unfoldable pub make_acks :
    Json → String → (ℕ → Faults × Bool) → List Call → Wal → List String → Wal × List String
unfolding ack_log
make_acks json name outside [] w failed = (w, failed)
make_acks json name outside (Call.acks id d ∷ calls) w failed =
    let (w', ok) = ack_log json name (outside 0) id d w in
    make_acks json name (λ n. outside (suc n)) calls w' (if ok then failed else id ∷ failed)
make_acks json name outside (puts_dlq e reason permanent ∷ calls) w failed =
    make_acks json name outside calls w failed
make_acks json name outside (records_ack d ∷ calls) w failed =
    make_acks json name outside calls w failed
make_acks json name outside (records_send_error d ∷ calls) w failed =
    make_acks json name outside calls w failed
make_acks json name outside (schedules_retry q ∷ calls) w failed =
    make_acks json name outside calls w failed

-- `waiting`: the events for which some goroutine is about to call Enqueue of this batcher.
-- `enqueued`: what it has been called with.
pub record Daemon : Type 0 where
  pub log : Wal
  pub waiting : List Event
  pub enqueued : List Queued
  pub workers : Workers
  pub failed_acks : List String

-- The appends of a batch name configured providers only, as Ingest sees to.
abbrev pub RoutedChange : (String → Bool) → Change → Type 0
RoutedChange known (appends e ps) = AllKnown known ps
RoutedChange known (Change.acks id p) = Unit {0}

abbrev pub Routed : (String → Bool) → List (Request × Faults) → Type 0
Routed known [] = Unit {0}
Routed known (r ∷ rs) = RoutedChange known r.0.change × Routed known rs

-- Build, up to ReplayPending, whose calls are still to be made.
unfoldable pub begun : (String → Bool) → String → Wal → Daemon
unfolding events_for
begun known name w = record {
  log = w;
  waiting = events_for name (replay_pending known (pending_entries w));
  enqueued = [];
  workers = new_workers;
  failed_acks = [];
}

unfoldable pub after_commit :
    (String → Bool) → String → List (Request × Faults) → Bool → Daemon → Daemon
unfolding events_for dispatched
after_commit known name batch sync_ok d =
    let (w, answers) = commit_batch batch sync_ok d.log in
    record d { log = w; waiting = d.waiting ++ events_for name (dispatched known batch answers) }

-- The end of a flush, with the acks that it has made.
unfoldable pub after_flush :
    Json
    → (String → String)
    → RetryPolicy
    → String
    → Adapter
    → (ℕ → Faults × Bool)
    → ℕ
    → List (List Queued)
    → List Queued
    → List (List Queued)
    → Daemon
    → Daemon
unfolding make_acks
after_flush json join policy name adapter outside now before batch after d =
    let made = flush adapter join policy now batch in
    let (w, failed) = make_acks json name outside made d.log d.failed_acks in
    record d {
      log = w;
      workers = end_flush adapter join policy now before batch after d.workers;
      failed_acks = failed;
    }

module _ (json : Json) (known : String → Bool) (join : String → String) (policy : RetryPolicy)
    (limit : ℕ) (name : String) where
  -- What can happen between the start of the daemon and its end.
  pub data Serving : Daemon → Type 0 where
    begins :
        {w : Wal} (ms mb : ℕ) (fs : List File)
        → open_wal json ms mb fs ≡ replayed w
        → Serving (begun known name w)
    commits :
        {d : Daemon} (batch : List (Request × Faults)) (sync_ok : Bool)
        → Routed known batch
        → Serving d
        → Serving (after_commit known name batch sync_ok d)
    enqueues :
        {d : Daemon} {t : Workers} (close_first : Bool) (now : ℕ) (before : List Event) (e : Event)
        (after : List Event)
        → d.waiting ≡ before ++ e ∷ after
        → enqueue close_first (new_queued e now) d.workers ≡ some t
        → Serving d
        → Serving (record d {
          waiting = before ++ after;
          enqueued = d.enqueued ++ new_queued e now ∷ [];
          workers = t;
        })
    closes : {d : Daemon} → Serving d → Serving (record d { workers = signal_close d.workers })
    turns :
        {d : Daemon} {t : Workers} (ready : Ready)
        → turn limit ready d.workers ≡ some t
        → Serving d
        → Serving (record d { workers = t })
    ends_flush :
        {d : Daemon} (adapter : Adapter) (outside : ℕ → Faults × Bool) (now : ℕ)
        (before : List (List Queued)) (batch : List Queued) (after : List (List Queued))
        → d.workers.in_flight ≡ before ++ batch ∷ after
        → Serving d
        → Serving (after_flush json join policy name adapter outside now before batch after d)
    fires :
        {d : Daemon} {t : Workers} (close_first : Bool) (before : List Queued) (q : Queued)
        (after : List Queued)
        → d.workers.timers ≡ before ++ q ∷ after
        → fire close_first before q after d.workers ≡ some t
        → Serving d
        → Serving (record d { workers = t })
