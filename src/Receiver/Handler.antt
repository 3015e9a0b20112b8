-- ===== src/Receiver/Handler.antt =====
-- The HTTP side of internal/receiver/receiver.go: Handler, handleEvents and decodeEvents.
-- encoding/json is an argument.
use tallyd.Base.{ℕ, String, Bool, Option, none, some, List, [], ◌∷◌, str_eq, if◌then◌else◌}
use tallyd.Adapter.{Event}
use tallyd.Receiver.{Sink, ingest, http_status}

-- The first JSON value of a body, and what Unmarshal makes of it as a list of events and as one. A
-- `null` is a list without events.
pub record BodyJson : Type 0 where
  pub first_value : List ℕ → Option (List ℕ)
  pub unmarshal_events : List ℕ → Option (List Event)
  pub unmarshal_event : List ℕ → Option Event

pub data Decoded : Type 0 where
  invalid_body not_events : Decoded
  decoded : List Event → Decoded

unfoldable pub decode_single : Option Event → Decoded
decode_single none = not_events
decode_single (some e) = decoded (e ∷ [])

unfoldable pub decode_array : Option (List Event) → Option Event → Decoded
unfolding decode_single
decode_array (some events) single = decoded events
decode_array none single = decode_single single

unfoldable pub decode_value : BodyJson → Option (List ℕ) → Decoded
unfolding decode_array
decode_value json none = invalid_body
decode_value json (some raw) = decode_array (json.unmarshal_events raw) (json.unmarshal_event raw)

-- decodeEvents
unfoldable pub decode_events : BodyJson → List ℕ → Decoded
unfolding decode_value
decode_events json body = decode_value json (json.first_value body)

module _ {S : Type 0} (sink : Sink S) (router : Event → List String)
    (known : Option (String → Bool)) where
  -- Behind decodeEvents: its error, or Ingest.
  unfoldable pub handle_decoded : ℕ → Decoded → S → S × ℕ
  handle_decoded now invalid_body s = (s, 400)
  handle_decoded now not_events s = (s, 400)
  handle_decoded now (decoded events) s =
      let (t, outcome) = ingest sink router known now events s in (t, http_status outcome)

  -- handleEvents: the state, and the status of the response.
  unfoldable pub handle_events : BodyJson → ℕ → List ℕ → S → S × ℕ
  unfolding handle_decoded
  handle_events json now body s = handle_decoded now (decode_events json body) s

  -- The mux of Handler, which knows one path and one method.
  unfoldable pub receive : BodyJson → ℕ → String → String → List ℕ → S → S × ℕ
  unfolding handle_events
  receive json now method path body s =
      if str_eq path "/v1/events"
      then (if str_eq method "POST" then handle_events json now body s else (s, 405))
      else (s, 404)
