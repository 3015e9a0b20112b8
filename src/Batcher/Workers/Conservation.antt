-- ===== src/Batcher/Workers/Conservation.antt =====
-- No event is lost in the batcher.
use tallyd.Base.{
  some-OnSome, ℕ, ◌+◌, ◌≡◌, refl, ap, ◌∙◌, inl, inr, String, Bool, some, List, [], ◌∷◌, ◌++◌, arith,
}
use tallyd.Batcher.{
  RetryPolicy, Queued, Adapter, Call, puts_dlq, acks, records_ack, records_send_error,
  schedules_retry, flush,
}
use tallyd.Batcher.Workers.{Workers, retried, end_flush, fire}
use tallyd.Batcher.Flush.{Resolves, accepts, parks, retries, Settles, done, next, flush-Flushes}
use tallyd.Batcher.Workers.{
  Run, started, enqueues, closes, turns, ends_flush, fires, signal_close, new_workers,
}
use tallyd.Batcher.Workers.Turns.{
  copies, acked, copies-append, copies_in-append, acked-append, everywhere, turn-everywhere,
  enqueue-everywhere,
}

pub retried-append : (xs ys : List Call) → retried (xs ++ ys) ≡ retried xs ++ retried ys
retried-append [] ys = refl
retried-append (puts_dlq e reason permanent ∷ xs) ys = retried-append xs ys
retried-append (acks i d ∷ xs) ys = retried-append xs ys
retried-append (records_ack d ∷ xs) ys = retried-append xs ys
retried-append (records_send_error d ∷ xs) ys = retried-append xs ys
retried-append (schedules_retry q ∷ xs) ys = ap (λ l. q ∷ l) (retried-append xs ys)

module _ (id : String) where
  Resolves-copies :
      {policy : RetryPolicy} {now : ℕ} {q : Queued} {calls : List Call}
      → Resolves policy now q calls
      → copies id (q ∷ []) ≡ acked id calls + copies id (retried calls)
  Resolves-copies accepts = omega arith
  Resolves-copies (parks reason permanent) = omega arith
  Resolves-copies (retries young) = omega arith

  Settles-copies :
      {policy : RetryPolicy} {now : ℕ} {qs : List Queued} {calls : List Call}
      → Settles policy now qs calls
      → copies id qs ≡ acked id calls + copies id (retried calls)
  Settles-copies done = refl
  Settles-copies (next {q = q} {qs = qs} {calls = calls} {rest = rest} one more e) = rw e (
      omega (
        arith,
        Resolves-copies one,
        Settles-copies more,
        acked-append id calls rest,
        copies-append id (retried calls) (retried rest),
        ap (copies id) (retried-append calls rest),
      ))

  flush-copies :
      (adapter : Adapter) (join : String → String) (policy : RetryPolicy) (now : ℕ)
      (batch : List Queued)
      → let made = flush adapter join policy now batch in
        copies id batch ≡ acked id made + copies id (retried made)
  flush-copies adapter join policy now batch = elim (flush-Flushes adapter join policy now batch) [
    | inl settled ↦ Settles-copies settled
    | inr (d, rest, e, settled) ↦ rw e (Settles-copies settled)
  ]

  end_flush-everywhere :
      (adapter : Adapter) (join : String → String) (policy : RetryPolicy) (now : ℕ)
      (before : List (List Queued)) (batch : List Queued) (after : List (List Queued)) (s : Workers)
      → s.in_flight ≡ before ++ batch ∷ after
      → everywhere id (end_flush adapter join policy now before batch after s) ≡ everywhere id s
  unfolding end_flush
  end_flush-everywhere adapter join policy now before batch after s e =
      let made = flush adapter join policy now batch in
      rw e (
        omega (
          arith,
          flush-copies adapter join policy now batch,
          copies_in-append id before (batch ∷ after),
          copies_in-append id before after,
          copies-append id s.timers (retried made),
          acked-append id s.calls made,
        ))

  fire-everywhere :
      (close_first : Bool) (before : List Queued) (q : Queued) (after : List Queued) (s t : Workers)
      → s.timers ≡ before ++ q ∷ after
      → fire close_first before q after s ≡ some t
      → everywhere id t ≡ everywhere id s
  unfolding fire
  fire-everywhere close_first before q after s t e fired =
      let s' = record s { timers = before ++ after } in
      let k =
        some-OnSome (λ t. everywhere id t ≡ everywhere id s' + copies id (q ∷ [])) _ t fired
          (enqueue-everywhere id close_first q s') in
      rw e (omega (arith, k, copies-append id before (q ∷ after), copies-append id before after))

-- No event is lost or doubled in the batcher, whatever the scheduler picks, the provider answers and
-- the timers do, also across retries and a close. For every id, the number of events that Enqueue
-- was called with is the number of those in the channel, pending, waiting for the semaphore, in
-- flight, waiting for a retry, and dropped by enqueue at the close, and of the acks that the log has
-- been given.
pub run-everywhere :
    (id : String) {join : String → String} {policy : RetryPolicy} {limit : ℕ} {qs : List Queued}
    {s : Workers}
    → Run join policy limit qs s
    → everywhere id s ≡ copies id qs
unfolding new_workers signal_close
run-everywhere id started = refl
run-everywhere id (enqueues {qs = qs} {s = s} {t = t} close_first q e r) = omega (
  arith,
  some-OnSome (λ t. everywhere id t ≡ everywhere id s + copies id (q ∷ [])) _ t e
      (enqueue-everywhere id close_first q s),
  run-everywhere id r,
  copies-append id qs (q ∷ []),
)
run-everywhere id (closes r) = run-everywhere id r
run-everywhere id {limit = limit} (turns {s = s} {t = t} ready e r) =
    some-OnSome (λ t. everywhere id t ≡ everywhere id s) _ t e (turn-everywhere id limit ready s)
    ∙ run-everywhere id r
run-everywhere id {join} {policy} (ends_flush {s = s} adapter now before batch after e r) =
    end_flush-everywhere id adapter join policy now before batch after s e ∙ run-everywhere id r
run-everywhere id (fires {s = s} {t = t} close_first before q after e fired r) =
    fire-everywhere id close_first before q after s t e fired ∙ run-everywhere id r
