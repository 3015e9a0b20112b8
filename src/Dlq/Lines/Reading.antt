-- ===== src/Dlq/Lines/Reading.antt =====
-- What readRecords of dlq.go makes of lines that were written, and of a line that was cut short.
use tallyd.Base.{
  inl, inr, Bool-cases, Map, String, str_eq, lookup, subst, ℕ, zero, suc, ◌≤◌, ◌<◌, ◌≡◌, refl, sym,
  ap, ◌∙◌, true, false, Option, none, some, List, [], ◌∷◌, ◌++◌, ◌==◌, length, take, append_assoc,
  append-nil, arith, lt→leb,
}
use tallyd.Dlq.{DeadLetter}
use tallyd.Dlq.Lines.{
  RecordJson, newline, carriage_return, max_line, record_line, append_line, write_lines,
  split_lines, add_byte, drop_return, cons_record, read_lines, read_records, add_file, read_files,
}

-- No byte of a text is this one.
abbrev pub Lacks : ℕ → List ℕ → Type 0
Lacks b [] = Unit {0}
Lacks b (c ∷ cs) = ((c == b) ≡ false) × Lacks b cs

-- encoding/json on a record that it marshals: it writes one line of a JSON object, whose control
-- characters are escaped, and reads it back; what is left of the object when its end is cut off is no
-- JSON value, and is not blank.
pub record RecordJsonLaws (json : RecordJson) : Type 0 where
  pub back : (r : DeadLetter) → json.marshals r ≡ true → json.unmarshal (json.marshal r) ≡ some r
  pub one_line : (r : DeadLetter) → json.marshals r ≡ true → Lacks newline (json.marshal r)
  pub no_return : (r : DeadLetter) → json.marshals r ≡ true → Lacks carriage_return (json.marshal r)
  pub nonempty : (r : DeadLetter) → json.marshals r ≡ true → 0 < length (json.marshal r)
  pub prefix_visible :
      (r : DeadLetter) (k : ℕ)
      → json.marshals r ≡ true
      → 0 < k
      → json.is_blank (take k (json.marshal r)) ≡ false
  pub prefix_broken :
      (r : DeadLetter) (k : ℕ)
      → json.marshals r ≡ true
      → 0 < k
      → k < length (json.marshal r)
      → json.unmarshal (take k (json.marshal r)) ≡ none

Lacks-take : (b k : ℕ) (xs : List ℕ) → Lacks b xs → Lacks b (take k xs)
Lacks-take b zero xs h = tt
Lacks-take b (suc k) [] h = tt
Lacks-take b (suc k) (x ∷ xs) h = (h.0, Lacks-take b k xs h.1)

take_all : (k : ℕ) (xs : List ℕ) → length xs ≤ k → take k xs ≡ xs
take_all zero [] h = refl
take_all zero (x ∷ xs) h = absurd (omega arith)
take_all (suc k) [] h = refl
take_all (suc k) (x ∷ xs) h = ap (λ l. x ∷ l) (take_all k xs (omega arith))

drop_return_lacking : (xs : List ℕ) → Lacks carriage_return xs → drop_return xs ≡ xs
unfolding drop_return
drop_return_lacking [] h = refl
drop_return_lacking (b ∷ []) h = rw h.0 refl
drop_return_lacking (b ∷ c ∷ bs) h = ap (λ l. b ∷ l) (drop_return_lacking (c ∷ bs) h.1)

-- A line and its newline come off the front.
split_line :
    (line bytes : List ℕ)
    → Lacks newline line
    → split_lines (line ++ newline ∷ bytes) ≡ line ∷ split_lines bytes
unfolding split_lines
split_line [] bytes h = refl
split_line (b ∷ line) bytes h = rw h.0 (ap (add_byte b) (split_line line bytes h.1))

-- A last line without a newline.
split_last :
    (b : ℕ) (line : List ℕ) → Lacks newline (b ∷ line) → split_lines (b ∷ line) ≡ (b ∷ line) ∷ []
unfolding split_lines
split_last b [] h = rw h.0 refl
split_last b (c ∷ line) h = rw h.0 (ap (add_byte b) (split_last c line h.1))

split_single : (line : List ℕ) → 0 < length line → Lacks newline line → split_lines line ≡ line ∷ []
split_single [] h lacks = absurd (omega arith)
split_single (b ∷ line) h lacks = split_last b line lacks

length-take-le-all : (k : ℕ) (xs : List ℕ) → length (take k xs) ≤ length xs
length-take-le-all zero xs = omega arith
length-take-le-all (suc k) [] = omega arith
length-take-le-all (suc k) (x ∷ xs) = omega (arith, length-take-le-all k xs)

length-take-positive : (k : ℕ) (xs : List ℕ) → 0 < k → 0 < length xs → 0 < length (take k xs)
length-take-positive zero xs h g = absurd (omega arith)
length-take-positive (suc k) [] h g = absurd (omega arith)
length-take-positive (suc k) (x ∷ xs) h g = omega arith

-- Records in front of what the rest of a file reads as.
abbrev records_before : List DeadLetter → Option (List DeadLetter) → Option (List DeadLetter)
records_before rs none = none
records_before rs (some more) = some (rs ++ more)

records_before-none : (o : Option (List DeadLetter)) → o ≡ records_before [] o
records_before-none none = refl
records_before-none (some more) = refl

records_before-cons :
    (r : DeadLetter) (rs : List DeadLetter) (o : Option (List DeadLetter))
    → cons_record (some r) (records_before rs o) ≡ records_before (r ∷ rs) o
unfolding cons_record
records_before-cons r rs none = refl
records_before-cons r rs (some more) = refl

add_file-none : (p : String) (o : Option (List DeadLetter)) → add_file p o none ≡ none
unfolding add_file
add_file-none p none = refl
add_file-none p (some records) = refl

-- A record that is marshalled, to a line that is short enough for the scanner.
abbrev pub IsWritable : RecordJson → DeadLetter → Type 0
IsWritable json r = (json.marshals r ≡ true) × (length (json.marshal r) < max_line)

abbrev pub AllWritable : RecordJson → List DeadLetter → Type 0
AllWritable json [] = Unit {0}
AllWritable json (r ∷ rs) = IsWritable json r × AllWritable json rs

module _ (json : RecordJson) where
  -- A line that the scanner gives to Unmarshal as it is.
  read_line :
      (line : List ℕ) (lines : List (List ℕ))
      → length line < max_line
      → Lacks carriage_return line
      → json.is_blank line ≡ false
      → read_lines json (line ∷ lines) ≡ cons_record (json.unmarshal line) (read_lines json lines)
  unfolding read_lines
  read_line line lines fits clean visible =
      rw (lt→leb max_line (length line) fits, drop_return_lacking line clean, visible) refl

  module _ (laws : RecordJsonLaws json) where
    visible : (r : DeadLetter) → json.marshals r ≡ true → json.is_blank (json.marshal r) ≡ false
    visible r ok =
        subst (λ l. json.is_blank l ≡ false)
          (take_all (length (json.marshal r)) (json.marshal r) (omega arith))
          (laws.prefix_visible r (length (json.marshal r)) ok (laws.nonempty r ok))

    -- Whole lines in front of other bytes.
    read_records_behind :
        (rs : List DeadLetter) (bytes : List ℕ)
        → AllWritable json rs
        → read_records json (write_lines json rs ++ bytes)
          ≡ records_before rs (read_records json bytes)
    unfolding read_records write_lines record_line
    read_records_behind [] bytes short = records_before-none (read_lines json (split_lines bytes))
    read_records_behind (r ∷ rs) bytes short =
        let rest = write_lines json rs ++ bytes in
        ap (read_lines json) (
          ap split_lines (
            append_assoc (json.marshal r ++ newline ∷ []) (write_lines json rs) bytes
            ∙ append_assoc (json.marshal r) (newline ∷ []) rest)
          ∙ split_line (json.marshal r) rest (laws.one_line r short.0.0))
        ∙ read_line (json.marshal r) (split_lines rest) short.0.1 (laws.no_return r short.0.0)
            (visible r short.0.0)
        ∙ ap (λ o. cons_record o (read_lines json (split_lines rest))) (laws.back r short.0.0)
        ∙ ap (cons_record (some r)) (read_records_behind rs bytes short.1)
        ∙ records_before-cons r rs (read_lines json (split_lines bytes))

    -- The files hold what the queue has put into them, if encoding/json reads back what it writes on
    -- one line, and each of the records is marshalled to less than 10 MB: a file to which the lines of some records have
    -- been written, by appends or by a rewrite, reads as these records, and after the append of one
    -- more as these and the new one.
    pub read_records-append_line :
        (rs : List DeadLetter) (r : DeadLetter)
        → AllWritable json rs
        → IsWritable json r
        → (read_records json (write_lines json rs) ≡ some rs)
          × (let (bytes, ok) = append_line json r (write_lines json rs) in
              (read_records json bytes ≡ some (rs ++ r ∷ [])) × (ok ≡ true))
    unfolding append_line read_records split_lines read_lines record_line
    read_records-append_line rs r short fits =
        let line : List ℕ = json.marshal r ++ newline ∷ [] in
        let appended =
          read_records_behind rs line short
          ∙ ap (records_before rs) (
              ap (read_lines json) (split_line (json.marshal r) [] (laws.one_line r fits.0))
              ∙ read_line (json.marshal r) [] fits.1 (laws.no_return r fits.0) (visible r fits.0)
              ∙ ap (λ o. cons_record o (some [])) (laws.back r fits.0)) in
        (
          ap (read_records json) (sym (append-nil (write_lines json rs)))
              ∙ read_records_behind rs [] short
              ∙ ap some (append-nil rs),
          rw fits.0 (appended, refl),
        )

    torn_line :
        (rs : List DeadLetter) (r : DeadLetter) (k : ℕ)
        → AllWritable json rs
        → IsWritable json r
        → 0 < k
        → k < length (json.marshal r)
        → read_records json (write_lines json rs ++ take k (json.marshal r)) ≡ none
    unfolding read_records
    torn_line rs r k short fits some_bytes cut =
        read_records_behind rs (take k (json.marshal r)) short
        ∙ ap (records_before rs) (
            ap (read_lines json) (
              split_single (take k (json.marshal r))
                (length-take-positive k (json.marshal r) some_bytes (laws.nonempty r fits.0))
                (Lacks-take newline k (json.marshal r) (laws.one_line r fits.0)))
            ∙ read_line (take k (json.marshal r)) []
                (omega (arith, fits.1, length-take-le-all k (json.marshal r)))
                (Lacks-take carriage_return k (json.marshal r) (laws.no_return r fits.0))
                (laws.prefix_visible r k fits.0 some_bytes)
            ∙ ap (λ o. cons_record o (read_lines json []))
                (laws.prefix_broken r k fits.0 some_bytes cut))

    -- A crash in the middle of a Put can wedge the daemon. If it leaves the line of a record cut short,
    -- by at least its last byte and its newline, behind the lines of other records, all marshalled to
    -- less than 10 MB, then Open of the dead-letter queue fails, whatever the other files hold, for every
    -- encoding/json that reads no value from an object whose end is missing.
    pub torn_line_refused :
        (files : Map (List ℕ)) (provider : String) (rs : List DeadLetter) (r : DeadLetter) (k : ℕ)
        → AllWritable json rs
        → IsWritable json r
        → 0 < k
        → k < length (json.marshal r)
        → lookup provider files ≡ some (write_lines json rs ++ take k (json.marshal r))
        → read_files json files ≡ none
    unfolding read_files lookup
    torn_line_refused [] provider rs r k short fits some_bytes cut found = absurd (ground arith)
    torn_line_refused ((p, bytes) ∷ files) provider rs r k short fits some_bytes cut found =
        elim (Bool-cases (str_eq p provider)) [
          | inl here ↦
              let same : bytes ≡ write_lines json rs ++ take k (json.marshal r) = ground arith in
              ap (λ o. add_file p o (read_files json files))
                (ap (read_records json) same ∙ torn_line rs r k short fits some_bytes cut)
          | inr elsewhere ↦
              ap (add_file p (read_records json bytes))
                (torn_line_refused files provider rs r k short fits some_bytes cut (ground arith))
              ∙ add_file-none p (read_records json bytes)
        ]
