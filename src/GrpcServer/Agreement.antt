-- ===== src/GrpcServer/Agreement.antt =====
-- The two transports of Ingest, in receiver.go and grpcserver.go, against each other, on what a client
-- submits.
use tallyd.Base.{
  ℕ, ◌≡◌, refl, sym, ap, ◌⊎◌, inl, inr, String, Bool, Option, none, some, List, [], ◌∷◌, map,
}
use tallyd.Adapter.{Value, Event}
use tallyd.Receiver.{
  Sink, IngestResult, accepted, validation_error, unavailable_error, ingest, http_status,
}
use tallyd.Receiver.Handler.{
  BodyJson, decoded, decode_single, decode_array, decode_value, decode_events, handle_decoded,
  handle_events,
}
use tallyd.GrpcServer.{
  GrpcEvent, Code, ok, invalid_argument, unavailable, to_event, to_events, code_of, grpc_ingest,
}

-- An event as a client fills it in, on either transport: any field can be left out.
pub record Submission : Type 0 where
  pub id : Option String
  pub customer_id : Option String
  pub event_name : Option String
  pub timestamp : Option ℕ
  pub properties : Option (List (String × Value))
  pub route : Option (List String)

abbrev pub text_of : Option String → String
text_of none = ""
text_of (some s) = s

abbrev pub items_of {ℓ} : {A : Type ℓ} → Option (List A) → List A
items_of none = []
items_of (some xs) = xs

-- The message on the wire: proto3 reads an absent string or list as the empty one, and an absent
-- message, such as the Timestamp, as nil.
abbrev pub in_proto : Submission → GrpcEvent
in_proto s = record {
  id = text_of s.id;
  customer_id = text_of s.customer_id;
  event_name = text_of s.event_name;
  timestamp = s.timestamp;
  properties = items_of s.properties;
  route = items_of s.route;
}

abbrev pub zero_time : ℕ
zero_time = 0

abbrev pub json_time : Option ℕ → ℕ
json_time none = zero_time
json_time (some t) = t

-- What encoding/json makes of the object with these fields: a field that the object does not have
-- keeps the zero value of its Go type, for a time.Time the zero time.
abbrev pub in_json : Submission → Event
in_json s = record {
  id = text_of s.id;
  customer_id = text_of s.customer_id;
  event_name = text_of s.event_name;
  timestamp = json_time s.timestamp;
  properties = items_of s.properties;
  route = items_of s.route;
}

-- The body is the JSON array of these submissions, or the object of the only one, which does not
-- unmarshal as an array.
abbrev pub Carries : BodyJson → List ℕ → List Submission → Type 0
Carries json body subs =
    (raw : List ℕ) × (json.first_value body ≡ some raw)
    × ((json.unmarshal_events raw ≡ some (map in_json subs))
        ⊎ ((only : Submission) × (subs ≡ only ∷ [])
            × (json.unmarshal_events raw ≡ none)
            × (json.unmarshal_event raw ≡ some (in_json only))))

-- The status that stands for a code.
abbrev pub status_for : Code → ℕ
status_for ok = 202
status_for invalid_argument = 400
status_for unavailable = 503

status_for-code_of : (outcome : IngestResult) → status_for (code_of outcome) ≡ http_status outcome
unfolding code_of http_status
status_for-code_of accepted = refl
status_for-code_of (validation_error problem) = refl
status_for-code_of (unavailable_error cause) = refl

-- A field that is left out, the timestamp first of all, becomes the same value on both ways.
to_event-in_proto : (s : Submission) → to_event (in_proto s) ≡ in_json s
unfolding to_event
to_event-in_proto s =
    elim s.timestamp
      as (λ t.
        to_event (in_proto (record s { timestamp = t })) ≡ in_json (record s { timestamp = t })) [
          | none ↦ refl
          | some t ↦ refl
        ]

to_events-in_proto : (subs : List Submission) → to_events (map in_proto subs) ≡ map in_json subs
unfolding to_events
to_events-in_proto [] = refl
to_events-in_proto (s ∷ subs) = rw (to_event-in_proto s, to_events-in_proto subs) refl

decode_events-Carries :
    (json : BodyJson) (body : List ℕ) (subs : List Submission)
    → Carries json body subs
    → decode_events json body ≡ decoded (map in_json subs)
unfolding decode_events decode_value decode_array decode_single
decode_events-Carries json body subs (raw, first, inl several) = rw (first, several) refl
decode_events-Carries json body subs (raw, first, inr (only, one, not_several, single)) =
    rw (first, not_several, single, one) refl

-- A client gets the same over both transports for the same submission of events, whichever of their
-- fields it leaves out: the JSON body, an array or a single object, leaves the sink in the same state
-- as the gRPC messages, and 202, 400 or 503 is answered over HTTP exactly where OK, InvalidArgument
-- or Unavailable is over gRPC. encoding/json is taken to leave an absent field at its zero value.
pub transports_agree :
    {S : Type 0} (sink : Sink S) (router : Event → List String) (known : Option (String → Bool))
    (json : BodyJson) (now : ℕ) (body : List ℕ) (subs : List Submission) (s : S)
    → Carries json body subs
    → let (t, code) = grpc_ingest sink router known now (map in_proto subs) s in
      handle_events sink router known json now body s ≡ (t, status_for code)
unfolding grpc_ingest handle_events handle_decoded
transports_agree sink router known json now body subs s c =
    rw (decode_events-Carries json body subs c, to_events-in_proto subs)
      (ap (λ code. ((ingest sink router known now (map in_json subs) s).0, code))
        (sym (status_for-code_of (ingest sink router known now (map in_json subs) s).1)))
