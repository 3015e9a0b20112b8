-- ===== src/Tests/Letters.antt =====
-- The bytes of a dead-letter file on one record, with a JSON codec that knows only this record.
use tallyd.Base.{
  Map, ℕ, zero, suc, ◌<◌, ◌≡◌, refl, ap, ◌++◌, take, lookup, String, str_eq, eq_iff, Bool, true,
  false, not, ◌&&◌, Option, none, some, List, [], ◌∷◌, ◌==◌, if◌then◌else◌, arith,
}
use tallyd.Adapter.{Event}
use tallyd.Dlq.{DeadLetter}
use tallyd.Dlq.Lines.{RecordJson, write_lines, append_line, read_records, read_files}
use tallyd.Dlq.Lines.Reading.{
  RecordJsonLaws, IsWritable, read_records-append_line, torn_line_refused,
}
use tallyd.Dlq.Rewrite.{run_ops, rewrite_ops, stopped, IsOldOrNew, rewrite-IsOldOrNew}
use tallyd.Tests.Samples.{signup, to_metronome, is_signup, is_signup-signup, and-true}

abbrev letter_of : String → Event → String → ℕ → ℕ → Bool → DeadLetter
letter_of provider event reason timestamp attempts poisoned = record {
  provider = provider;
  event = event;
  reason = reason;
  timestamp = timestamp;
  attempts = attempts;
  poisoned = poisoned;
}

abbrev letter : DeadLetter
letter = letter_of "metronome" signup "status 400" 10 1 false

abbrev is_letter : DeadLetter → Bool
is_letter r =
    is_signup r.event to_metronome
    && (str_eq r.provider "metronome"
        && (str_eq r.reason "status 400"
            && ((r.timestamp == 10) && ((r.attempts == 1) && not r.poisoned))))

abbrev event_or : Event → Option (Event × List String) → Event
event_or e none = e
event_or e (some p) = p.0

not-true : (b : Bool) → not b ≡ true → b ≡ false
not-true true h = absurd (ground arith)
not-true false h = refl

is_letter-letter : (r : DeadLetter) → is_letter r ≡ true → some letter ≡ some r
is_letter-letter r h =
    let (a, h₁) = and-true (is_signup r.event to_metronome) _ h in
    let (b, h₂) = and-true (str_eq r.provider "metronome") _ h₁ in
    let (c, h₃) = and-true (str_eq r.reason "status 400") _ h₂ in
    let (d, h₄) = and-true (r.timestamp == 10) _ h₃ in
    let (f, g) = and-true (r.attempts == 1) (not r.poisoned) h₄ in
    let event : signup ≡ r.event = ap (event_or signup) (is_signup-signup r.event to_metronome a) in
    let time : r.timestamp ≡ 10 = ground arith in
    let attempts : r.attempts ≡ 1 = ground arith in
    let same : letter ≡ letter_of r.provider r.event r.reason r.timestamp r.attempts r.poisoned =
      rw
        (
          (eq_iff r.provider "metronome").0 b,
          ← event,
          (eq_iff r.reason "status 400").0 c,
          time,
          attempts,
          not-true r.poisoned g,
        )
        refl in
    ap some same

-- An opening and a closing brace.
abbrev is_object : List ℕ → Bool
is_object [] = false
is_object (a ∷ []) = false
is_object (a ∷ b ∷ []) = (a == 123) && (b == 125)
is_object (a ∷ b ∷ c ∷ bytes) = false

abbrev is_empty_line : List ℕ → Bool
is_empty_line [] = true
is_empty_line (b ∷ bytes) = false

abbrev one_letter : RecordJson
one_letter = record {
  marshals = is_letter;
  marshal = λ r. 123 ∷ 125 ∷ [];
  unmarshal = λ line. if is_object line then some letter else none;
  is_blank = is_empty_line;
}

visible_prefix : (k : ℕ) → 0 < k → is_empty_line (take k (123 ∷ 125 ∷ [])) ≡ false
visible_prefix zero h = absurd (omega arith)
visible_prefix (suc k) h = refl

broken_prefix : (k : ℕ) → 0 < k → k < 2 → is_object (take k (123 ∷ 125 ∷ [])) ≡ false
broken_prefix zero h g = absurd (omega arith)
broken_prefix (suc zero) h g = refl
broken_prefix (suc (suc k)) h g = absurd (omega arith)

one_letter-RecordJsonLaws : RecordJsonLaws one_letter
one_letter-RecordJsonLaws = record {
  back = λ r ok. is_letter-letter r ok;
  one_line = λ r ok. (refl, (refl, tt));
  no_return = λ r ok. (refl, (refl, tt));
  nonempty = λ r ok. omega arith;
  prefix_visible = λ r k ok some_bytes. visible_prefix k some_bytes;
  prefix_broken = λ r k ok some_bytes cut. rw (broken_prefix k some_bytes cut) refl;
}

letter-IsWritable : IsWritable one_letter letter
letter-IsWritable = (refl, omega arith)

read_records-append_line_example :
    (read_records one_letter (write_lines one_letter (letter ∷ [])) ≡ some (letter ∷ []))
    × (let (bytes, ok) = append_line one_letter letter (write_lines one_letter (letter ∷ [])) in
        (read_records one_letter bytes ≡ some (letter ∷ letter ∷ [])) × (ok ≡ true))
read_records-append_line_example =
    read_records-append_line one_letter one_letter-RecordJsonLaws (letter ∷ []) letter
      (letter-IsWritable, tt) letter-IsWritable

torn_line_refused_example :
    read_files one_letter (
      ("metronome", write_lines one_letter (letter ∷ []) ++ take 1 (one_letter.marshal letter))
      ∷ [])
    ≡ none
unfolding lookup
torn_line_refused_example =
    torn_line_refused one_letter one_letter-RecordJsonLaws
      (("metronome", write_lines one_letter (letter ∷ []) ++ take 1 (one_letter.marshal letter))
        ∷ [])
      "metronome" (letter ∷ []) letter 1 (letter-IsWritable, tt) letter-IsWritable (omega arith)
      (omega arith) refl

abbrev two_files : Map (List ℕ)
two_files =
    ("metronome.jsonl", write_lines one_letter (letter ∷ letter ∷ [])) ∷ ("stdout.jsonl", []) ∷ []

-- A crash in the write of the line that stays, and no crash.
rewrite-IsOldOrNew_example :
    IsOldOrNew one_letter "metronome.jsonl.tmp" "metronome.jsonl"
      (write_lines one_letter (letter ∷ []))
      two_files
      (run_ops
        (stopped 1 2 (rewrite_ops one_letter "metronome.jsonl.tmp" "metronome.jsonl" (letter ∷ [])))
        two_files)
    × (lookup "metronome.jsonl" (
          run_ops
            (rewrite_ops one_letter "metronome.jsonl.tmp" "metronome.jsonl" (letter ∷ []))
            two_files)
        ≡ some (write_lines one_letter (letter ∷ [])))
rewrite-IsOldOrNew_example =
    rewrite-IsOldOrNew one_letter "metronome.jsonl.tmp" "metronome.jsonl" refl 1 2 (letter ∷ [])
      two_files
