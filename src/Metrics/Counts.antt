-- ===== src/Metrics/Counts.antt =====
-- The ack counters of metrics.go against the flushes of batcher.go.
use tallyd.Base.{
  ℕ, ◌+◌, ◌≡◌, refl, map, ◌∙◌, inl, inr, String, ◌&&◌, List, [], ◌∷◌, ◌++◌, str_eq, if◌then◌else◌,
  length, length-append, arith,
}
use text.Mathlib.TextPositions.{eq_refl}
use tallyd.Adapter.{disposition_string}
use tallyd.Batcher.{
  RetryPolicy, Queued, Adapter, Encoded, encode_failed, encoded, Call, puts_dlq, acks, records_ack,
  records_send_error, schedules_retry, flush,
}
use tallyd.Batcher.Flush.{Resolves, accepts, parks, retries, Settles, done, next, flush-Flushes}
use tallyd.Batcher.Workers.{retried}
use tallyd.Batcher.Workers.Conservation.{retried-append}
use tallyd.Metrics.{
  Collectors, record_ack, record_send_error, record_call, record_calls, observe_flush_latency,
  observe_encoded, flush_metrics,
}

-- The Prometheus counters: an increment adds one to its series and to no other, and an observation
-- counts for its histogram only.
pub record CounterLaws {M : Type 0} (c : Collectors M) : Type 0 where
  pub acked_inc :
      (p l q k : String) (m : M)
      → c.acked (c.inc_acked p l m) q k
        ≡ c.acked m q k + (if str_eq p q && str_eq l k then 1 else 0)
  pub acked_errors :
      (p l q k : String) (m : M) → c.acked (c.inc_send_errors p l m) q k ≡ c.acked m q k
  pub acked_observe :
      (p : String) (d : ℕ) (q k : String) (m : M)
      → c.acked (c.observe_latency p d m) q k ≡ c.acked m q k
  pub latencies_acked :
      (p l q : String) (m : M) → c.latencies (c.inc_acked p l m) q ≡ c.latencies m q
  pub latencies_errors :
      (p l q : String) (m : M) → c.latencies (c.inc_send_errors p l m) q ≡ c.latencies m q
  pub latencies_observe :
      (p : String) (d : ℕ) (q : String) (m : M)
      → c.latencies (c.observe_latency p d m) q ≡ c.latencies m q + (if str_eq p q then 1 else 0)

-- The terminal acks of a provider.
abbrev pub terminal : {M : Type 0} → Collectors M → String → M → ℕ
terminal c provider m = c.acked m provider "Ok" + c.acked m provider "DeadLetter"

-- Whether a body is sent.
abbrev pub sends : Encoded → ℕ
sends (encode_failed reason) = 0
sends (encoded body) = 1

module _ {M : Type 0} (c : Collectors M) (laws : CounterLaws c) (provider : String) where
  record_calls-append :
      (xs ys : List Call) (m : M)
      → record_calls c provider (xs ++ ys) m
        ≡ record_calls c provider ys (record_calls c provider xs m)
  unfolding record_calls
  record_calls-append [] ys m = refl
  record_calls-append (x ∷ xs) ys m = record_calls-append xs ys _

  Resolves-terminal :
      {policy : RetryPolicy} {now : ℕ} {q : Queued} {calls : List Call} (m : M)
      → Resolves policy now q calls
      → terminal c provider (record_calls c provider calls m) + length (retried calls)
        ≡ terminal c provider m + 1
  unfolding record_calls record_call record_ack disposition_string
  Resolves-terminal m accepts =
      rw
        (
          laws.acked_inc provider "Ok" provider "Ok" m,
          laws.acked_inc provider "Ok" provider "DeadLetter" m,
          eq_refl provider,
        )
        (omega arith)
  Resolves-terminal m (parks reason permanent) =
      rw
        (
          laws.acked_inc provider "DeadLetter" provider "Ok" m,
          laws.acked_inc provider "DeadLetter" provider "DeadLetter" m,
          eq_refl provider,
        )
        (omega arith)
  Resolves-terminal m (retries young) = omega arith

  Settles-terminal :
      {policy : RetryPolicy} {now : ℕ} {qs : List Queued} {calls : List Call} (m : M)
      → Settles policy now qs calls
      → terminal c provider (record_calls c provider calls m) + length (retried calls)
        ≡ terminal c provider m + length qs
  unfolding record_calls
  Settles-terminal m done = refl
  Settles-terminal m (next {q = q} {qs = qs} {calls = calls} {rest = rest} one more e) =
      rw (e, record_calls-append calls rest m, retried-append calls rest)
        (omega (
          arith,
          Resolves-terminal m one,
          Settles-terminal (record_calls c provider calls m) more,
          length-append (retried calls) (retried rest),
        ))

  calls-terminal :
      (adapter : Adapter) (join : String → String) (policy : RetryPolicy) (now : ℕ)
      (batch : List Queued) (m : M)
      → let made = flush adapter join policy now batch in
        terminal c provider (record_calls c provider made m) + length (retried made)
        ≡ terminal c provider m + length batch
  unfolding record_calls record_call record_send_error
  calls-terminal adapter join policy now batch m =
      elim (flush-Flushes adapter join policy now batch) [
        | inl settled ↦ Settles-terminal m settled
        | inr (d, rest, e, settled) ↦
            let m' = record_send_error c provider d m in
            rw e (
              omega (
                arith,
                Settles-terminal m' settled,
                laws.acked_errors provider (disposition_string d) provider "Ok" m,
                laws.acked_errors provider (disposition_string d) provider "DeadLetter" m,
              ))
      ]

  latencies-record_calls :
      (calls : List Call) (m : M)
      → c.latencies (record_calls c provider calls m) provider ≡ c.latencies m provider
  unfolding record_calls record_call record_ack record_send_error
  latencies-record_calls [] m = refl
  latencies-record_calls (puts_dlq e reason permanent ∷ calls) m = latencies-record_calls calls m
  latencies-record_calls (acks id d ∷ calls) m = latencies-record_calls calls m
  latencies-record_calls (schedules_retry q ∷ calls) m = latencies-record_calls calls m
  latencies-record_calls (records_ack d ∷ calls) m =
      latencies-record_calls calls (record_ack c provider d m)
      ∙ laws.latencies_acked provider (disposition_string d) provider m
  latencies-record_calls (records_send_error d ∷ calls) m =
      latencies-record_calls calls (record_send_error c provider d m)
      ∙ laws.latencies_errors provider (disposition_string d) provider m

  terminal-observe_encoded :
      (answer : Encoded) (took : ℕ) (m : M)
      → terminal c provider (observe_encoded c provider answer took m) ≡ terminal c provider m
  unfolding observe_encoded observe_flush_latency
  terminal-observe_encoded (encode_failed reason) took m = refl
  terminal-observe_encoded (encoded body) took m =
      rw
        (
          laws.acked_observe provider took provider "Ok" m,
          laws.acked_observe provider took provider "DeadLetter" m,
        )
        refl

  latencies-observe_encoded :
      (answer : Encoded) (took : ℕ) (m : M)
      → c.latencies (observe_encoded c provider answer took m) provider
        ≡ c.latencies m provider + sends answer
  unfolding observe_encoded observe_flush_latency
  latencies-observe_encoded (encode_failed reason) took m = omega arith
  latencies-observe_encoded (encoded body) took m =
      laws.latencies_observe provider took provider m ∙ rw (eq_refl provider) refl

  -- Prometheus' counters add one at a time, and every event of a flush is counted once: what the
  -- flush adds to the two terminal series of its provider, Ok and DeadLetter, and the number of
  -- retries that it schedules make up the number of events of its batch, whatever the adapter
  -- answers. The latency of the flush is observed once if the batch was encoded and sent, and not
  -- otherwise.
  pub flush_metrics-counts :
      (adapter : Adapter) (join : String → String) (policy : RetryPolicy) (now took : ℕ)
      (batch : List Queued) (m : M)
      → let m' = flush_metrics c provider adapter join policy now took batch m in
        (terminal c provider m' + length (retried (flush adapter join policy now batch))
          ≡ terminal c provider m + length batch)
        × (c.latencies m' provider
            ≡ c.latencies m provider + sends (adapter.encode (map (λ q. q.event) batch)))
  unfolding flush_metrics
  flush_metrics-counts adapter join policy now took batch m =
      let answer = adapter.encode (map (λ q. q.event) batch) in
      let observed = observe_encoded c provider answer took m in
      (
        omega (
          arith,
          calls-terminal adapter join policy now batch observed,
          terminal-observe_encoded answer took m,
        ),
        latencies-record_calls (flush adapter join policy now batch) observed
            ∙ latencies-observe_encoded answer took m,
      )
