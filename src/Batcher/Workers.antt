-- ===== src/Batcher/Workers.antt =====
-- internal/batcher/batcher.go: New, Enqueue, Close and the goroutines: the run loop with its channel
-- and its semaphore, one goroutine for each flush, and the timers of the retries. One turn of the run
-- loop is one ready case of its select; a flush makes all its calls when it ends.
pub mod Turns
pub mod Conservation
pub mod Limits
pub mod Bounds
pub mod Progress
pub mod Closing
pub mod Draining
use tallyd.Base.{
  ℕ, ◌<◌, ◌≡◌, String, Bool, true, false, ◌&&◌, ◌||◌, not, Option, none, some, List, [], ◌∷◌, ◌++◌,
  ltb, leb, if◌then◌else◌, length,
}
use tallyd.Batcher.{
  RetryPolicy, Queued, Adapter, Call, puts_dlq, acks, records_ack, records_send_error,
  schedules_retry, flush,
}

-- Where run() stands: at its select; blocked on the semaphore with a batch, to go on or to return
-- then; in the drain loop behind the close; or at its end.
pub data RunPhase : Type 0 where
  selecting : RunPhase
  acquiring : List Queued → Bool → RunPhase
  emptying : RunPhase
  returned : RunPhase

-- `in_flight`: the flushes that hold a slot. `timers`: retries whose time.AfterFunc has not fired.
-- `dropped`: events that enqueue gave up because closeCh was closed. `calls`: what the flushes
-- called, in the order in which they ended.
pub record Workers : Type 0 where
  pub channel : List Queued
  pub closing : Bool
  pub phase : RunPhase
  pub pending : List Queued
  pub in_flight : List (List Queued)
  pub timers : List Queued
  pub dropped : List Queued
  pub calls : List Call

unfoldable pub new_workers : Workers
new_workers = record {
  channel = [];
  closing = false;
  phase = selecting;
  pending = [];
  in_flight = [];
  timers = [];
  dropped = [];
  calls = [];
}

abbrev pub queue_capacity : ℕ
queue_capacity = 1024

abbrev pub default_max_in_flight : ℕ
default_max_in_flight = 4

-- enqueue: its select, where Go picks either case if both are ready, or `none` where it blocks.
unfoldable pub enqueue : Bool → Queued → Workers → Option Workers
enqueue close_first q s =
    let room = ltb (length s.channel) queue_capacity in
    if s.closing && (close_first || not room)
    then some (record s { dropped = s.dropped ++ q ∷ [] })
    else (if room then some (record s { channel = s.channel ++ q ∷ [] }) else none)

-- The first line of Close. Then it waits for `phase` to be `returned` and `in_flight` empty.
unfoldable pub signal_close : Workers → Workers
signal_close s = record s { closing = true }

-- The closure flush of run, up to the semaphore.
unfoldable pub begin_flush : List Queued → Bool → Workers → Workers
begin_flush [] leaving s = record s {
  pending = [];
  phase = if leaving then returned else selecting;
}
begin_flush (q ∷ qs) leaving s = record s { pending = []; phase = acquiring (q ∷ qs) leaving }

-- A case of the select in run that is ready.
pub data Ready : Type 0 where
  event_ready timer_ready close_ready : Ready

unfoldable pub receive : ℕ → List Queued → Workers → Option Workers
unfolding begin_flush
receive limit [] s = none
receive limit (q ∷ qs) s =
    let grown = s.pending ++ q ∷ [] in
    let s' = record s { channel = qs; pending = grown } in
    some (if leb limit (length grown) then begin_flush grown false s' else s')

unfoldable pub select_case : ℕ → Ready → Workers → Option Workers
unfolding receive
select_case limit event_ready s = receive limit s.channel s
select_case limit timer_ready s = some (begin_flush s.pending false s)
select_case limit close_ready s = if s.closing then some (record s { phase = emptying }) else none

-- The drain loop.
unfoldable pub empty_channel : List Queued → Workers → Option Workers
unfolding begin_flush
empty_channel [] s = some (begin_flush s.pending true s)
empty_channel (q ∷ qs) s = some (record s { channel = qs; pending = s.pending ++ q ∷ [] })

-- `sem <- struct{}{}`, and the start of the goroutine.
unfoldable pub acquire : List Queued → Bool → Workers → Option Workers
acquire batch leaving s =
    if ltb (length s.in_flight) default_max_in_flight
    then some (record s {
      in_flight = s.in_flight ++ batch ∷ [];
      phase = if leaving then returned else selecting;
    })
    else none

unfoldable pub phase_turn : ℕ → Ready → RunPhase → Workers → Option Workers
unfolding select_case acquire empty_channel
phase_turn limit ready selecting s = select_case limit ready s
phase_turn limit ready (acquiring batch leaving) s = acquire batch leaving s
phase_turn limit ready emptying s = empty_channel s.channel s
phase_turn limit ready returned s = none

-- One turn of run, for the case of the select that Go picks, or `none` where it blocks or has
-- returned.
unfoldable pub turn : ℕ → Ready → Workers → Option Workers
unfolding phase_turn
turn limit ready s = phase_turn limit ready s.phase s

-- The retries that a flush leaves with time.AfterFunc.
abbrev pub retried : List Call → List Queued
retried [] = []
retried (puts_dlq e reason permanent ∷ cs) = retried cs
retried (acks id d ∷ cs) = retried cs
retried (records_ack d ∷ cs) = retried cs
retried (records_send_error d ∷ cs) = retried cs
retried (schedules_retry q ∷ cs) = q ∷ retried cs

-- The end of the flush of `batch`, which stands between `before` and `after` in `in_flight`.
unfoldable pub end_flush :
    Adapter
    → (String → String)
    → RetryPolicy
    → ℕ
    → List (List Queued)
    → List Queued
    → List (List Queued)
    → Workers
    → Workers
end_flush adapter join policy now before batch after s =
    let made = flush adapter join policy now batch in
    record s {
      in_flight = before ++ after;
      timers = s.timers ++ retried made;
      calls = s.calls ++ made;
    }

-- The timer of the retry `q` fires, which stands between `before` and `after` in `timers`.
unfoldable pub fire : Bool → List Queued → Queued → List Queued → Workers → Option Workers
unfolding enqueue
fire close_first before q after s = enqueue close_first q (record s { timers = before ++ after })

-- What has happened up to a state, with the events that Enqueue was called with.
pub data Run (join : String → String) (policy : RetryPolicy) (limit : ℕ)
    : List Queued → Workers → Type 0 where
  started : Run join policy limit [] new_workers
  enqueues :
      {qs : List Queued} {s t : Workers} (close_first : Bool) (q : Queued)
      → enqueue close_first q s ≡ some t
      → Run join policy limit qs s
      → Run join policy limit (qs ++ q ∷ []) t
  closes :
      {qs : List Queued} {s : Workers}
      → Run join policy limit qs s
      → Run join policy limit qs (signal_close s)
  turns :
      {qs : List Queued} {s t : Workers} (ready : Ready)
      → turn limit ready s ≡ some t
      → Run join policy limit qs s
      → Run join policy limit qs t
  ends_flush :
      {qs : List Queued} {s : Workers} (adapter : Adapter) (now : ℕ) (before : List (List Queued))
      (batch : List Queued) (after : List (List Queued))
      → s.in_flight ≡ before ++ batch ∷ after
      → Run join policy limit qs s
      → Run join policy limit qs (end_flush adapter join policy now before batch after s)
  fires :
      {qs : List Queued} {s t : Workers} (close_first : Bool) (before : List Queued) (q : Queued)
      (after : List Queued)
      → s.timers ≡ before ++ q ∷ after
      → fire close_first before q after s ≡ some t
      → Run join policy limit qs s
      → Run join policy limit qs t
