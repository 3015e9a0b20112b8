-- ===== src/Adapter.antt =====
-- adapter/event.go and adapter/adapter.go: the shape of an event, and what an adapter reports.
use tallyd.Base.{ℕ, String, Bool, Option, List}

-- The dynamic values that a JSON body puts into `Properties`. A float64 is its bit pattern; a nested
-- array or object is its JSON text.
pub data Value : Type 0 where
  text : String → Value
  float : ℕ → Value
  boolean : Bool → Value
  nil : Value
  nested : String → Value

-- `timestamp` counts nanoseconds from Go's zero time, which is the number 0.
pub record Event : Type 0 where
  pub id : String
  pub customer_id : String
  pub event_name : String
  pub timestamp : ℕ
  pub properties : List (String × Value)
  pub route : List String

-- Go's `Disposition` is an int: `unknown` stands for every value that has no name.
pub data Disposition : Type 0 where
  ok retry dead_letter unknown : Disposition

-- Disposition.String
unfoldable pub disposition_string : Disposition → String
disposition_string ok = "Ok"
disposition_string retry = "Retry"
disposition_string dead_letter = "DeadLetter"
disposition_string unknown = "Unknown"

pub record EventResult : Type 0 where
  pub event_id : String
  pub disposition : Disposition
  pub error : Option String

pub record BatchResult : Type 0 where
  pub results : List EventResult

-- The error of a Send. `http_status` is there for metronome's sendError, which carries it.
pub record SendError : Type 0 where
  pub message : String
  pub http_status : Option ℕ
