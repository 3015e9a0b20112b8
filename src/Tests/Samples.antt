-- ===== src/Tests/Samples.antt =====
-- Sample events, a JSON codec that knows one event, and a log that holds it.
use tallyd.Base.{
  ℕ, ◌≡◌, refl, String, Bool, true, false, ◌&&◌, Option, none, some, List, [], ◌∷◌, str_eq, eq_iff,
  ◌==◌, if◌then◌else◌, arith,
}
use tallyd.Adapter.{Value, Event}
use tallyd.Wal.Commit.{Json}
use tallyd.Wal.Recovery.{JsonLaws}

abbrev pub event_of : String → String → String → ℕ → List (String × Value) → List String → Event
event_of id customer name timestamp properties providers = record {
  id = id;
  customer_id = customer;
  event_name = name;
  timestamp = timestamp;
  properties = properties;
  route = providers;
}

abbrev pub signup : Event
signup = event_of "e1" "c1" "signup" 5 [] []

abbrev pub purchase : Event
purchase = event_of "e2" "c1" "purchase" 6 [] ("metronome" ∷ [])

abbrev pub to_metronome : List String
to_metronome = "metronome" ∷ []

abbrev is_nil {ℓ} : {A : Type ℓ} → List A → Bool
is_nil [] = true
is_nil (x ∷ xs) = false

is_nil-nil {ℓ} : {A : Type ℓ} (xs : List A) → is_nil xs ≡ true → xs ≡ []
is_nil-nil [] h = refl
is_nil-nil (x ∷ xs) h = absurd (ground arith)

abbrev pub is_signup : Event → List String → Bool
is_signup e [] = false
is_signup e (p ∷ ps) =
    str_eq e.id "e1"
    && (str_eq e.customer_id "c1"
        && (str_eq e.event_name "signup"
            && ((e.timestamp == 5)
                && (is_nil e.properties
                    && (is_nil e.route && (str_eq p "metronome" && is_nil ps))))))

pub and-true : (a b : Bool) → (a && b) ≡ true → (a ≡ true) × (b ≡ true)
and-true true b h = (refl, h)
and-true false b h = absurd (ground arith)

abbrev pub with_providers : Event → List String → Option (Event × List String)
with_providers e ps = some (e, ps)

pub is_signup-signup :
    (e : Event) (ps : List String)
    → is_signup e ps ≡ true
    → with_providers signup to_metronome ≡ with_providers e ps
is_signup-signup e [] h = absurd (ground arith)
is_signup-signup e (p ∷ ps) h =
    let (a, h₁) = and-true (str_eq e.id "e1") _ h in
    let (b, h₂) = and-true (str_eq e.customer_id "c1") _ h₁ in
    let (c, h₃) = and-true (str_eq e.event_name "signup") _ h₂ in
    let (d, h₄) = and-true (e.timestamp == 5) _ h₃ in
    let (f, h₅) = and-true (is_nil e.properties) _ h₄ in
    let (g, h₆) = and-true (is_nil e.route) _ h₅ in
    let (k, l) = and-true (str_eq p "metronome") (is_nil ps) h₆ in
    let time : e.timestamp ≡ 5 = ground arith in
    let same : with_providers signup to_metronome
        ≡ with_providers (event_of e.id e.customer_id e.event_name e.timestamp e.properties e.route)
            (p ∷ ps) =
      rw
        (
          (eq_iff e.id "e1").0 a,
          (eq_iff e.customer_id "c1").0 b,
          (eq_iff e.event_name "signup").0 c,
          time,
          is_nil-nil e.properties f,
          is_nil-nil e.route g,
          (eq_iff p "metronome").0 k,
          is_nil-nil ps l,
        )
        refl in
    same

abbrev is_ack : String → String → Bool
is_ack id provider = str_eq id "e1" && str_eq provider "metronome"

abbrev pub one_event : Json
one_event = record {
  marshal_event = λ e ps. if is_signup e ps then some (7 ∷ 8 ∷ []) else none;
  unmarshal_event = λ payload. some (signup, to_metronome);
  marshal_ack = λ id provider d. if is_ack id provider then some (9 ∷ []) else none;
  unmarshal_ack = λ payload. some ("e1", "metronome");
}

from_if : (b : Bool) (payload p : List ℕ) → (if b then some payload else none) ≡ some p → b ≡ true
from_if true payload p h = refl
from_if false payload p h = absurd (ground arith)

pub one_event-JsonLaws : JsonLaws one_event
one_event-JsonLaws = record {
  event_back =
      λ e ps payload h. is_signup-signup e ps (from_if (is_signup e ps) (7 ∷ 8 ∷ []) payload h);
  ack_back = λ id provider d payload h.
      let (a, b) =
        and-true (str_eq id "e1") (str_eq provider "metronome")
          (from_if (str_eq id "e1" && str_eq provider "metronome") (9 ∷ []) payload h) in
      rw ((eq_iff id "e1").0 a, (eq_iff provider "metronome").0 b) refl;
}
