-- ===== src/Stdout.antt =====
-- adapter/stdout/stdout.go: the adapter that prints its batches. encoding/json on a list of events is
-- an argument; the printing is left out.
pub mod Delivery
use tallyd.Base.{ℕ, zero, suc, String, Option, none, some, List, [], ◌∷◌, map, ℤ, pos, negsuc}
use tallyd.Adapter.{Event, Disposition, ok, EventResult, BatchResult, SendError}
use tallyd.Batcher.{Adapter, Sent, send_failed, sent, Encoded}

abbrev pub default_max_batch_size : ℕ
default_max_batch_size = 500

-- json.Marshal and json.Unmarshal on a list of events; a failure has its text.
pub record EventsJson : Type 0 where
  pub marshal : List Event → Encoded
  pub unmarshal : List ℕ → Option (List Event)
  pub failure : List ℕ → String

unfoldable pub accept_all : List Event → List EventResult
accept_all [] = []
accept_all (e ∷ es) = record { event_id = e.id; disposition = ok; error = none } ∷ accept_all es

unfoldable pub send_decoded : String → Option (List Event) → Sent
unfolding accept_all
send_decoded failure none = send_failed (record { message = failure; http_status = none })
send_decoded failure (some events) = sent (record { results = accept_all events })

-- Send
unfoldable pub send : EventsJson → List ℕ → Sent
unfolding send_decoded
send json body = send_decoded (json.failure body) (json.unmarshal body)

-- Classify
abbrev pub classify : SendError → ℕ → Disposition
classify e status = ok

-- MaxBatchSize
unfoldable pub max_batch_size : ℤ → ℕ
max_batch_size (pos zero) = default_max_batch_size
max_batch_size (pos (suc n)) = suc n
max_batch_size (negsuc n) = default_max_batch_size

unfoldable pub stdout : EventsJson → ℤ → Adapter
unfolding send max_batch_size
stdout json limit = record {
  encode = json.marshal;
  send = send json;
  classify = classify;
  max_batch_size = pos (max_batch_size limit);
}
