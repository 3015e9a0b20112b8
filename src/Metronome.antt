-- ===== src/Metronome.antt =====
-- adapter/metronome/metronome.go: the adapter of Metronome's ingest endpoint. The HTTP exchange, and
-- what strconv, time and encoding/json print, are arguments.
pub mod Delivery
use tallyd.Base.{
  ℕ, zero, suc, ◌+◌, String, str_append, Bool, true, false, ◌&&◌, ◌||◌, Option, none, some, List,
  [], ◌∷◌, map, ltb, leb, ◌==◌, if◌then◌else◌, ℤ, pos, negsuc,
}
use tallyd.Adapter.{
  Value, text, float, boolean, nil, nested, Event, Disposition, retry, dead_letter, BatchResult,
  SendError,
}
use tallyd.Batcher.{Adapter, Sent, send_failed, sent, Encoded}

-- MaxBatchSize
abbrev pub max_batch_limit : ℕ
max_batch_limit = 100

-- The method MaxBatchSize
unfoldable pub max_batch_size : ℤ → ℕ
max_batch_size (pos zero) = max_batch_limit
max_batch_size (pos (suc n)) = if ltb max_batch_limit (suc n) then max_batch_limit else suc n
max_batch_size (negsuc n) = max_batch_limit

pub record WireEvent : Type 0 where
  pub transaction_id : String
  pub customer_id : String
  pub event_type : String
  pub timestamp : String
  pub properties : List (String × String)

-- strconv.FormatFloat and strconv.Itoa, Time.Format with RFC3339, json.Marshal.
pub record Formats : Type 0 where
  pub format_float : ℕ → String
  pub format_status : ℕ → String
  pub format_time : ℕ → String
  pub marshal_wire : List WireEvent → Encoded

unfoldable pub stringify_value : Formats → Value → String
stringify_value formats (text s) = s
stringify_value formats (float bits) = formats.format_float bits
stringify_value formats (boolean b) = if b then "true" else "false"
stringify_value formats nil = ""
stringify_value formats (nested json) = json

unfoldable pub stringify_properties : Formats → List (String × Value) → List (String × String)
stringify_properties formats [] = []
stringify_properties formats ((k, v) ∷ props) =
    (k, stringify_value formats v) ∷ stringify_properties formats props

unfoldable pub wire_event : Formats → Event → WireEvent
unfolding stringify_properties
wire_event formats e = record {
  transaction_id = e.id;
  customer_id = e.customer_id;
  event_type = e.event_name;
  timestamp = formats.format_time e.timestamp;
  properties = stringify_properties formats e.properties;
}

-- Encode
unfoldable pub encode : Formats → List Event → Encoded
unfolding wire_event
encode formats events = formats.marshal_wire (map (wire_event formats) events)

-- HTTPClient.Do on a body: no answer, or a status with the first 64 KiB of the answer's body. A
-- request that cannot be built is no answer, with its own prefix in the text.
pub data Http : Type 0 where
  no_answer : String → Http
  answers : ℕ → String → Http

unfoldable pub is_success : ℕ → Bool
is_success status = leb 200 status && ltb status 300

-- sendError.Error
abbrev pub status_error : Formats → ℕ → String → String
status_error formats status body =
    str_append "metronome: unexpected status "
      (str_append (formats.format_status status) (str_append ": " body))

-- Send, from the answer on
unfoldable pub send : Formats → Http → Sent
unfolding is_success
send formats (no_answer cause) =
    send_failed (record { message = str_append "metronome: " cause; http_status = none })
send formats (answers status body) =
    if is_success status
    then sent (record { results = [] })
    else send_failed
        (record { message = status_error formats status body; http_status = some status })

-- `if se, ok := err.(*sendError); ok { status = se.status }`
abbrev pub status_of : SendError → ℕ → ℕ
status_of e status = elim e.http_status [ none ↦ status | some s ↦ s ]

unfoldable pub classify_status : ℕ → Disposition
classify_status status =
    if (status == 429) || leb 500 status
    then retry
    else if leb 400 status
    then dead_letter
    else retry

-- Classify
unfoldable pub classify : SendError → ℕ → Disposition
unfolding classify_status
classify e status = classify_status (status_of e status)

-- The adapter with a configured batch size, on a client that answers each body.
unfoldable pub metronome : Formats → (List ℕ → Http) → ℤ → Adapter
unfolding encode send classify max_batch_size
metronome formats http max_batch = record {
  encode = encode formats;
  send = λ body. send formats (http body);
  classify = classify;
  max_batch_size = pos (max_batch_size max_batch);
}
