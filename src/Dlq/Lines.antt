-- ===== src/Dlq/Lines.antt =====
-- The files of internal/dlq/dlq.go as bytes: appendRecord and the rewrite of removeFromFile write one
-- JSON line for each record, and readRecords reads them back with a bufio.Scanner. encoding/json and
-- bytes.TrimSpace are arguments.
pub mod Reading
use tallyd.Base.{
  ℕ, zero, suc, ◌*◌, ◌^◌, Bool, true, false, Option, none, some, List, [], ◌∷◌, ◌++◌, leb, ◌==◌,
  if◌then◌else◌, length, Map, String,
}
use tallyd.Dlq.{DeadLetter}

-- json.Marshal and json.Unmarshal on a Record, and whether TrimSpace leaves nothing of a line.
-- `marshals` is false where Marshal returns an error. The texts of a record are valid UTF-8; what
-- Marshal puts in place of other bytes is left out.
pub record RecordJson : Type 0 where
  pub marshals : DeadLetter → Bool
  pub marshal : DeadLetter → List ℕ
  pub unmarshal : List ℕ → Option DeadLetter
  pub is_blank : List ℕ → Bool

abbrev pub newline : ℕ
newline = 10

abbrev pub carriage_return : ℕ
carriage_return = 13

-- The size of `sc.Buffer`: a line that does not leave room in it for one more byte is an error.
abbrev pub max_line : ℕ
max_line = 10 * 2 ^ 20

-- One line of a file that is written in full.
unfoldable pub record_line : RecordJson → DeadLetter → List ℕ
record_line json rec = json.marshal rec ++ newline ∷ []

-- appendRecord on a disk that works: the bytes of the file, and whether the error is nil.
unfoldable pub append_line : RecordJson → DeadLetter → List ℕ → List ℕ × Bool
unfolding record_line
append_line json rec bytes =
    if json.marshals rec then (bytes ++ record_line json rec, true) else (bytes, false)

-- The lines of some records: what appends have made of a file, and what the rewrite of removeFromFile
-- writes.
unfoldable pub write_lines : RecordJson → List DeadLetter → List ℕ
unfolding record_line
write_lines json [] = []
write_lines json (r ∷ rs) = record_line json r ++ write_lines json rs

-- bufio.ScanLines: the lines of a text, the last one also without its newline.
abbrev pub add_byte : ℕ → List (List ℕ) → List (List ℕ)
add_byte b [] = (b ∷ []) ∷ []
add_byte b (line ∷ lines) = (b ∷ line) ∷ lines

unfoldable pub split_lines : List ℕ → List (List ℕ)
split_lines [] = []
split_lines (b ∷ bs) =
    let rest = split_lines bs in if b == newline then [] ∷ rest else add_byte b rest

-- A carriage return at the end of a line is dropped.
unfoldable pub drop_return : List ℕ → List ℕ
drop_return [] = []
drop_return (b ∷ []) = if b == carriage_return then [] else b ∷ []
drop_return (b ∷ c ∷ bs) = b ∷ drop_return (c ∷ bs)

unfoldable pub cons_record : Option DeadLetter → Option (List DeadLetter) → Option (List DeadLetter)
cons_record none rest = none
cons_record (some r) none = none
cons_record (some r) (some rs) = some (r ∷ rs)

-- The loop of readRecords; `none` is its error.
unfoldable pub read_lines : RecordJson → List (List ℕ) → Option (List DeadLetter)
unfolding cons_record
read_lines json [] = some []
read_lines json (line ∷ lines) =
    let rest = read_lines json lines in
    if leb max_line (length line)
    then none
    else if json.is_blank (drop_return line)
    then rest
    else cons_record (json.unmarshal (drop_return line)) rest

-- readRecords on a file that exists.
unfoldable pub read_records : RecordJson → List ℕ → Option (List DeadLetter)
unfolding read_lines
read_records json bytes = read_lines json (split_lines bytes)

unfoldable pub add_file :
    String
    → Option (List DeadLetter)
    → Option (Map (List DeadLetter))
    → Option (Map (List DeadLetter))
add_file provider none rest = none
add_file provider (some records) none = none
add_file provider (some records) (some files) = some ((provider, records) ∷ files)

-- The reads of Open, on the files of its directory; `none` is its error.
unfoldable pub read_files : RecordJson → Map (List ℕ) → Option (Map (List DeadLetter))
unfolding add_file
read_files json [] = some []
read_files json ((provider, bytes) ∷ files) =
    add_file provider (read_records json bytes) (read_files json files)
