-- ===== src/Metrics.antt =====
-- internal/metrics/metrics.go: what the daemon counts. The collectors are the Prometheus client's: an
-- argument, with the registry as its state. The buckets of the latencies are left out.
pub mod Counts
use tallyd.Wal.Log.{member}
use tallyd.Base.{
  true, not, map, ℕ, ◌+◌, ◌≡◌, String, Bool, ◌&&◌, List, [], ◌∷◌, str_eq, if◌then◌else◌, ℤ,
}
use tallyd.Adapter.{Event, Disposition, disposition_string}
use tallyd.Batcher.{
  RetryPolicy, Queued, Adapter, Encoded, encode_failed, encoded, flush, Call, puts_dlq, acks,
  records_ack, records_send_error, schedules_retry,
}

-- A collector's name and labels.
pub record Series : Type 0 where
  pub name : String
  pub labels : List String

-- The collectors of New.
abbrev pub new_series : List Series
new_series =
    record { name = "events_received_total"; labels = [] }
    ∷ record { name = "events_acked_total"; labels = "provider" ∷ "disposition" ∷ [] }
    ∷ record { name = "provider_flush_latency_seconds"; labels = "provider" ∷ [] }
    ∷ record { name = "provider_send_errors_total"; labels = "provider" ∷ "disposition" ∷ [] }
    ∷ record { name = "wal_unacked_entries"; labels = [] }
    ∷ record { name = "dlq_depth"; labels = "provider" ∷ [] }
    ∷ []

-- MustRegister: false where it panics, at a name that is registered.
unfoldable pub must_register : List String → List Series → Bool
unfolding member
must_register names [] = true
must_register names (s ∷ ss) = not (member s.name names) && must_register (s.name ∷ names) ss

-- The calls on the collectors that New registers, and the value of each series; `latencies` is the
-- number of observations.
pub record Collectors (M : Type 0) : Type 0 where
  pub add_received : ℕ → M → M
  pub inc_acked : String → String → M → M
  pub inc_send_errors : String → String → M → M
  pub observe_latency : String → ℕ → M → M
  pub set_unacked : ℕ → M → M
  pub set_dlq_depth : String → ℤ → M → M
  pub acked : M → String → String → ℕ
  pub send_errors : M → String → String → ℕ
  pub latencies : M → String → ℕ
  pub unacked : M → ℕ
  pub dlq_depth : M → String → ℤ

module _ {M : Type 0} (collectors : Collectors M) where
  -- RecordEventsReceived
  unfoldable pub record_events_received : ℕ → M → M
  record_events_received n = collectors.add_received n

  -- RecordAck
  unfoldable pub record_ack : String → Disposition → M → M
  record_ack provider d = collectors.inc_acked provider (disposition_string d)

  -- RecordSendError
  unfoldable pub record_send_error : String → Disposition → M → M
  record_send_error provider d = collectors.inc_send_errors provider (disposition_string d)

  -- ObserveFlushLatency
  unfoldable pub observe_flush_latency : String → ℕ → M → M
  observe_flush_latency provider d = collectors.observe_latency provider d

  -- SetWALUnacked
  unfoldable pub set_wal_unacked : ℕ → M → M
  set_wal_unacked n = collectors.set_unacked n

  -- SetDLQDepth
  unfoldable pub set_dlq_depth : String → ℤ → M → M
  set_dlq_depth provider n = collectors.set_dlq_depth provider n

  -- What the calls of a flush do to the metrics of its provider.
  unfoldable pub record_call : String → Call → M → M
  unfolding record_ack record_send_error
  record_call provider (records_ack d) m = record_ack provider d m
  record_call provider (records_send_error d) m = record_send_error provider d m
  record_call provider (puts_dlq e reason permanent) m = m
  record_call provider (acks id d) m = m
  record_call provider (schedules_retry q) m = m

  unfoldable pub record_calls : String → List Call → M → M
  record_calls provider [] m = m
  record_calls provider (c ∷ cs) m = record_calls provider cs (record_call provider c m)

  -- The latency of a flush is observed once Send has returned, so not behind an encode error.
  unfoldable pub observe_encoded : String → Encoded → ℕ → M → M
  unfolding observe_flush_latency
  observe_encoded provider (encode_failed reason) took m = m
  observe_encoded provider (encoded body) took m = observe_flush_latency provider took m

  -- What a flush does to the metrics, if Send takes `took`.
  unfoldable pub flush_metrics :
      String → Adapter → (String → String) → RetryPolicy → ℕ → ℕ → List Queued → M → M
  unfolding observe_encoded
  flush_metrics provider adapter join policy now took batch m =
      let answer = adapter.encode (map (λ q. q.event) batch) in
      record_calls provider (flush adapter join policy now batch)
        (observe_encoded provider answer took m)
