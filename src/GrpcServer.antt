-- ===== src/GrpcServer.antt =====
-- internal/grpcserver/grpcserver.go: the gRPC transport of Ingest. The messages that protoc generates
-- are records with the same fields; a missing Struct has no properties.
pub mod Timestamps
pub mod Agreement
use tallyd.Base.{ℕ, String, Bool, Option, none, some, List, [], ◌∷◌}
use tallyd.Adapter.{Value, Event}
use tallyd.Receiver.{Sink, IngestResult, accepted, validation_error, unavailable_error, ingest}

-- grpcapi.Event
pub record GrpcEvent : Type 0 where
  pub id : String
  pub customer_id : String
  pub event_name : String
  pub timestamp : Option ℕ
  pub properties : List (String × Value)
  pub route : List String

-- codes.Code
pub data Code : Type 0 where
  ok invalid_argument unavailable : Code

-- A nil Timestamp is Go's zero time.
abbrev pub time_of : Option ℕ → ℕ
time_of none = 0
time_of (some t) = t

unfoldable pub to_event : GrpcEvent → Event
to_event we = record {
  id = we.id;
  customer_id = we.customer_id;
  event_name = we.event_name;
  timestamp = time_of we.timestamp;
  properties = we.properties;
  route = we.route;
}

unfoldable pub to_events : List GrpcEvent → List Event
to_events [] = []
to_events (we ∷ wire) = to_event we ∷ to_events wire

unfoldable pub code_of : IngestResult → Code
code_of accepted = ok
code_of (validation_error problem) = invalid_argument
code_of (unavailable_error cause) = unavailable

module _ {S : Type 0} where
  -- Server.Ingest
  unfoldable pub grpc_ingest :
      Sink S → (Event → List String) → Option (String → Bool) → ℕ → List GrpcEvent → S → S × Code
  unfolding code_of
  grpc_ingest sink router known now wire s =
      let (t, outcome) = ingest sink router known now (to_events wire) s in (t, code_of outcome)
