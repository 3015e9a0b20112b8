-- ===== src/Batcher/Flush.antt =====
-- flush and resolve of batcher.go: what becomes of each event of a batch.
use tallyd.Base.{
  ℕ, suc, ◌≡◌, refl, ◌⊎◌, inl, inr, String, Bool, true, false, Option, some, List, [], ◌∷◌, ◌++◌,
  map, pos, Map, lookup, Bool-cases,
}
use tallyd.Adapter.{Disposition, ok, retry, dead_letter, unknown, EventResult}
use tallyd.Batcher.{
  RetryPolicy, with_defaults, ltb_ℤ, since, Queued, Adapter, Sent, send_failed, sent, Encoded,
  encode_failed, encoded, Call, puts_dlq, acks, records_ack, records_send_error, schedules_retry,
  ack, dead_letters, schedule_retry, retry_or_park, resolve, by_id, result_of, resolve_all,
  resolve_failed, park_all, flush_sent, flush_encoded, flush, or_reason, exhausted_reason,
}

-- The one thing that happens to an event: an ack as accepted; the dead-letter queue first and then
-- an ack as dead letter; or one more attempt, within the retry budget.
pub data Resolves (policy : RetryPolicy) (now : ℕ) (q : Queued) : List Call → Type 0 where
  accepts : Resolves policy now q (acks q.event.id ok ∷ records_ack ok ∷ [])
  parks :
      (reason : String) (permanent : Bool)
      → Resolves policy now q (
          puts_dlq q.event reason permanent
          ∷ acks q.event.id dead_letter
          ∷ records_ack dead_letter
          ∷ [])
  retries :
      ltb_ℤ (pos (since now q.first_queue)) (with_defaults policy).max_elapsed ≡ true
      → Resolves policy now q (schedules_retry (record q { attempt = suc q.attempt }) ∷ [])

-- The calls of a batch are those of its events, one after the other.
pub data Settles (policy : RetryPolicy) (now : ℕ) : List Queued → List Call → Type 0 where
  done : Settles policy now [] []
  next :
      {q : Queued} {qs : List Queued} {calls rest all : List Call}
      → Resolves policy now q calls
      → Settles policy now qs rest
      → all ≡ calls ++ rest
      → Settles policy now (q ∷ qs) all

-- The calls of a batch where every event has the same kind of calls.
abbrev pub for_each : (Queued → List Call) → List Queued → List Call
for_each f [] = []
for_each f (q ∷ qs) = f q ++ for_each f qs

module _ (join : String → String) (policy : RetryPolicy) (now : ℕ) where
  retry_or_park-Resolves :
      (q : Queued) (cause : Option String)
      → Resolves policy now q (retry_or_park join policy now q cause)
  unfolding retry_or_park dead_letters ack schedule_retry
  retry_or_park-Resolves q cause =
      elim (Bool-cases (ltb_ℤ (pos (since now q.first_queue)) (with_defaults policy).max_elapsed)) [
        | inl young ↦ rw young (retries young)
        | inr old ↦ rw old (parks (exhausted_reason join cause) false)
      ]

  pub resolve-Resolves :
      (q : Queued) (d : Disposition) (cause : Option String)
      → Resolves policy now q (resolve join policy now q d cause)
  unfolding resolve dead_letters ack
  resolve-Resolves q ok cause = accepts
  resolve-Resolves q dead_letter cause = parks (or_reason "dead-lettered by provider" cause) true
  resolve-Resolves q retry cause = retry_or_park-Resolves q cause
  resolve-Resolves q unknown cause = retry_or_park-Resolves q cause

  resolve_all-Settles :
      (results : Map EventResult) (batch : List Queued)
      → Settles policy now batch (resolve_all join policy now results batch)
  unfolding resolve_all
  resolve_all-Settles results [] = done
  resolve_all-Settles results (q ∷ qs) =
      let r = result_of q (lookup q.event.id results) in
      next (resolve-Resolves q r.disposition r.error) (resolve_all-Settles results qs) refl

  resolve_failed-Settles :
      (d : Disposition) (cause : String) (batch : List Queued)
      → Settles policy now batch (resolve_failed join policy now d cause batch)
  unfolding resolve_failed
  resolve_failed-Settles d cause [] = done
  resolve_failed-Settles d cause (q ∷ qs) =
      next (resolve-Resolves q d (some cause)) (resolve_failed-Settles d cause qs) refl

  park_all-Settles :
      (reason : String) (batch : List Queued) → Settles policy now batch (park_all reason batch)
  unfolding park_all dead_letters ack
  park_all-Settles reason [] = done
  park_all-Settles reason (q ∷ qs) = next (parks reason true) (park_all-Settles reason qs) refl

  -- The calls of a flush: those of its events, behind the count of a failed send if there was one.
  abbrev pub Flushes : List Queued → List Call → Type 0
  Flushes batch calls =
      Settles policy now batch calls
      ⊎ ((d : Disposition) × (rest : List Call) × (calls ≡ records_send_error d ∷ rest)
          × Settles policy now batch rest)

  flush_sent-Flushes :
      (adapter : Adapter) (answer : Sent) (batch : List Queued)
      → Flushes batch (flush_sent adapter join policy now answer batch)
  unfolding flush_sent
  flush_sent-Flushes adapter (send_failed cause) batch =
      let d = adapter.classify cause 0 in
      inr (
        d,
        resolve_failed join policy now d cause.message batch,
        refl,
        resolve_failed-Settles d cause.message batch,
      )
  flush_sent-Flushes adapter (sent result) batch =
      inl (resolve_all-Settles (by_id result.results []) batch)

  flush_encoded-Flushes :
      (adapter : Adapter) (answer : Encoded) (batch : List Queued)
      → Flushes batch (flush_encoded adapter join policy now answer batch)
  unfolding flush_encoded
  flush_encoded-Flushes adapter (encode_failed reason) batch = inl (park_all-Settles reason batch)
  flush_encoded-Flushes adapter (encoded body) batch =
      flush_sent-Flushes adapter (adapter.send body) batch

-- Whatever the adapter answers (an encode error, a transport error, any list of results), a flush
-- settles every event of its batch exactly once and in order: it is acked Ok, or handed to the DLQ
-- and only then acked DeadLetter, or scheduled for one more attempt, and that only while it is
-- younger than the retry budget. Acks never carry Retry.
pub flush-Flushes :
    (adapter : Adapter) (join : String → String) (policy : RetryPolicy) (now : ℕ)
    (batch : List Queued)
    → Flushes join policy now batch (flush adapter join policy now batch)
unfolding flush
flush-Flushes adapter join policy now batch =
    flush_encoded-Flushes join policy now adapter (adapter.encode (map (λ q. q.event) batch)) batch
