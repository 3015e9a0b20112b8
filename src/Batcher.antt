-- ===== src/Batcher.antt =====
-- internal/batcher/batcher.go: the queue, the flush and the retry engine of one provider. A flush
-- returns its calls on the Acker, the DLQ, the metrics and the retry timer, in order; that Ack and
-- Put may fail changes nothing in the flow, since the code only logs it.
pub mod Backoff
pub mod Flush
pub mod Queue
pub mod Workers
use tallyd.Base.{
  ℕ, zero, suc, ◌+◌, ◌-◌, ◌*◌, ◌%◌, ◌^◌, String, Bool, true, false, Option, none, some, List, [],
  ◌∷◌, ◌++◌, map, str_eq, ltb, leb, ◌==◌, if◌then◌else◌, ℤ, pos, negsuc, inc_ℤ, Map, lookup, insert,
  length,
}
use tallyd.Adapter.{
  Event, Disposition, ok, retry, dead_letter, unknown, EventResult, BatchResult, SendError,
}

-- RetryPolicy, in nanoseconds (int64).
pub record RetryPolicy : Type 0 where
  pub initial_backoff : ℤ
  pub max_backoff : ℤ
  pub max_elapsed : ℤ

abbrev pub second : ℕ
second = 1000000000

-- if d <= 0 { d = fallback }
abbrev pub or_positive : ℤ → ℕ → ℤ
or_positive (pos zero) fallback = pos fallback
or_positive (pos (suc n)) fallback = pos (suc n)
or_positive (negsuc n) fallback = pos fallback

unfoldable pub with_defaults : RetryPolicy → RetryPolicy
with_defaults p = record {
  initial_backoff = or_positive p.initial_backoff second;
  max_backoff = or_positive p.max_backoff (120 * second);
  max_elapsed = or_positive p.max_elapsed (1800 * second);
}

-- a < b
abbrev pub ltb_ℤ : ℤ → ℤ → Bool
ltb_ℤ (pos a) (pos b) = ltb a b
ltb_ℤ (pos a) (negsuc b) = false
ltb_ℤ (negsuc a) (pos b) = true
ltb_ℤ (negsuc a) (negsuc b) = ltb b a

-- The int64 with the low 64 bits of an integer.
abbrev pub wrap_int64 : ℤ → ℤ
wrap_int64 (pos n) = let r = n % 2 ^ 64 in if ltb r (2 ^ 63) then pos r else negsuc (2 ^ 64 - r - 1)
wrap_int64 (negsuc n) =
    let r = n % 2 ^ 64 in if ltb r (2 ^ 63) then negsuc r else pos (2 ^ 64 - r - 1)

-- d *= 2
unfoldable pub double_int64 : ℤ → ℤ
double_int64 (pos n) = wrap_int64 (pos (2 * n))
double_int64 (negsuc n) = wrap_int64 (negsuc (2 * n + 1))

-- The loop of backoff with so many turns left.
unfoldable pub backoff_loop : ℕ → ℤ → ℤ → ℤ
backoff_loop zero max d = d
backoff_loop (suc turns) max d =
    let next = backoff_loop turns max (double_int64 d) in if ltb_ℤ d max then next else d

-- backoff up to its last line: the ceiling under which `rand.Int63n(ceiling + 1)` draws the delay.
unfoldable pub backoff_ceiling : RetryPolicy → ℕ → ℤ
backoff_ceiling policy attempt =
    let p = with_defaults policy in
    let d = backoff_loop (attempt - 1) p.max_backoff p.initial_backoff in
    if ltb_ℤ p.max_backoff d then p.max_backoff else d

-- math/rand: Int63n, where `none` is its panic on an argument that is not positive. `draw` is the
-- generator, whose result the code uses as it is.
abbrev pub int63n : (ℕ → ℕ) → ℤ → Option ℕ
int63n draw (pos zero) = none
int63n draw (pos (suc n)) = some (draw (suc n))
int63n draw (negsuc n) = none

unfoldable pub backoff : (ℕ → ℕ) → RetryPolicy → ℕ → Option ℕ
backoff draw policy attempt = int63n draw (wrap_int64 (inc_ℤ (backoff_ceiling policy attempt)))

pub record Queued : Type 0 where
  pub event : Event
  pub attempt : ℕ
  pub first_queue : ℕ

-- What an adapter's Send reports: a transport error, or a result.
pub data Sent : Type 0 where
  send_failed : SendError → Sent
  sent : BatchResult → Sent

pub data Encoded : Type 0 where
  encode_failed : String → Encoded
  encoded : List ℕ → Encoded

-- adapter.Adapter. Send is the answer that the provider gives to this body at this call.
pub record Adapter : Type 0 where
  pub encode : List Event → Encoded
  pub send : List ℕ → Sent
  pub classify : SendError → ℕ → Disposition
  pub max_batch_size : ℤ

-- The calls that a flush makes.
pub data Call : Type 0 where
  puts_dlq : Event → String → Bool → Call
  acks : String → Disposition → Call
  records_ack : Disposition → Call
  records_send_error : Disposition → Call
  schedules_retry : Queued → Call

unfoldable pub ack : Queued → Disposition → List Call
ack q d = acks q.event.id d ∷ records_ack d ∷ []

unfoldable pub dead_letters : Queued → String → Bool → List Call
unfolding ack
dead_letters q reason permanent = puts_dlq q.event reason permanent ∷ ack q dead_letter

-- The reason texts; `fmt.Sprintf` only joins them.
abbrev pub or_reason : String → Option String → String
or_reason reason none = reason
or_reason reason (some cause) = cause

abbrev pub exhausted_reason : (String → String) → Option String → String
exhausted_reason join none = "retry budget exhausted"
exhausted_reason join (some cause) = join cause

-- `time.Since(q.firstQueue)`, on a clock that does not run backwards.
abbrev pub since : ℕ → ℕ → ℕ
since now start = now - start

unfoldable pub schedule_retry : Queued → List Call
schedule_retry q = schedules_retry (record q { attempt = suc q.attempt }) ∷ []

unfoldable pub retry_or_park :
    (String → String) → RetryPolicy → ℕ → Queued → Option String → List Call
unfolding dead_letters schedule_retry
retry_or_park join policy now q cause =
    if ltb_ℤ (pos (since now q.first_queue)) (with_defaults policy).max_elapsed
    then schedule_retry q
    else dead_letters q (exhausted_reason join cause) false

-- resolve
unfoldable pub resolve :
    (String → String) → RetryPolicy → ℕ → Queued → Disposition → Option String → List Call
unfolding ack dead_letters retry_or_park
resolve join policy now q ok cause = ack q ok
resolve join policy now q dead_letter cause =
    dead_letters q (or_reason "dead-lettered by provider" cause) true
resolve join policy now q retry cause = retry_or_park join policy now q cause
resolve join policy now q unknown cause = retry_or_park join policy now q cause

-- byID: of several results for one id the last one stands.
unfoldable pub by_id : List EventResult → Map EventResult → Map EventResult
by_id [] m = m
by_id (r ∷ rs) m = by_id rs (insert r.event_id r m)

-- An event that the adapter did not report is accepted.
abbrev pub result_of : Queued → Option EventResult → EventResult
result_of q none = record { event_id = q.event.id; disposition = ok; error = none }
result_of q (some r) = r

unfoldable pub resolve_all :
    (String → String) → RetryPolicy → ℕ → Map EventResult → List Queued → List Call
resolve_all join policy now results [] = []
resolve_all join policy now results (q ∷ qs) =
    let r = result_of q (lookup q.event.id results) in
    resolve join policy now q r.disposition r.error ++ resolve_all join policy now results qs

unfoldable pub resolve_failed :
    (String → String) → RetryPolicy → ℕ → Disposition → String → List Queued → List Call
resolve_failed join policy now d cause [] = []
resolve_failed join policy now d cause (q ∷ qs) =
    resolve join policy now q d (some cause) ++ resolve_failed join policy now d cause qs

unfoldable pub park_all : String → List Queued → List Call
park_all reason [] = []
park_all reason (q ∷ qs) = dead_letters q reason true ++ park_all reason qs

unfoldable pub flush_sent :
    Adapter → (String → String) → RetryPolicy → ℕ → Sent → List Queued → List Call
flush_sent adapter join policy now (send_failed cause) batch =
    let d = adapter.classify cause 0 in
    records_send_error d ∷ resolve_failed join policy now d cause.message batch
flush_sent adapter join policy now (sent result) batch =
    resolve_all join policy now (by_id result.results []) batch

unfoldable pub flush_encoded :
    Adapter → (String → String) → RetryPolicy → ℕ → Encoded → List Queued → List Call
unfolding flush_sent
flush_encoded adapter join policy now (encode_failed reason) batch = park_all reason batch
flush_encoded adapter join policy now (encoded body) batch =
    flush_sent adapter join policy now (adapter.send body) batch

-- flush. The latency that it observes is left out.
unfoldable pub flush : Adapter → (String → String) → RetryPolicy → ℕ → List Queued → List Call
unfolding flush_encoded
flush adapter join policy now batch =
    flush_encoded adapter join policy now (adapter.encode (map (λ q. q.event) batch)) batch

-- What the run loop takes next: an event, the linger timer, or the close of the batcher with the
-- events that the drain loop still finds in the channel.
pub data Input : Type 0 where
  received : Queued → Input
  lingered : Input
  closes : List Queued → Input

-- `maxBatch`, with the fallback for an adapter that gives none.
unfoldable pub max_batch : ℤ → ℕ
max_batch (pos zero) = 500
max_batch (pos (suc n)) = suc n
max_batch (negsuc n) = 500

-- The closure `flush` of run: the batches that start, and what is pending then.
abbrev pub start_flush : List Queued → List (List Queued)
start_flush [] = []
start_flush (q ∷ qs) = (q ∷ qs) ∷ []

-- One turn of the select: the events left pending, and the batches that are flushed.
unfoldable pub run_step : ℕ → List Queued → Input → List Queued × List (List Queued)
run_step limit pending (received q) =
    let grown = pending ++ q ∷ [] in
    if leb limit (length grown) then ([], start_flush grown) else (grown, [])
run_step limit pending lingered = ([], start_flush pending)
run_step limit pending (closes drained) = ([], start_flush (pending ++ drained))

-- The run loop. It returns at the close, and takes nothing more.
unfoldable pub run : ℕ → List Queued → List Input → List Queued × List (List Queued)
run limit pending [] = (pending, [])
run limit pending (closes drained ∷ is) = run_step limit pending (closes drained)
run limit pending (received q ∷ is) =
    let (left, batches) = run_step limit pending (received q) in
    let (left', more) = run limit left is in (left', batches ++ more)
run limit pending (lingered ∷ is) =
    let (left, batches) = run_step limit pending lingered in
    let (left', more) = run limit left is in (left', batches ++ more)
