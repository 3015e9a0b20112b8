-- ===== src/Tests/DeadLetters.antt =====
-- A dead-letter queue of one provider on concrete records.
use tallyd.Base.{
  String, ℕ, suc, ◌≡◌, refl, true, false, [], ◌∷◌, ◌++◌, Unique, lookup, insert, delete, arith, pos,
}
use tallyd.Dlq.{
  Dlq, DeadLetter, put, PutFaults, no_faults, sync_failed, remove, removed_fine, open_dlq,
  list_regular, list_poison, keep_others, attempts_of, contains, append_regular, append_record,
  count_append, remove_from_file, set_attempts, scan_files, scan_records, scan_record,
}
use tallyd.Dlq.Drift.{add}
use tallyd.Dlq.Life.{Life, opened, parked, blank, lost}
use tallyd.Dlq.Poison.{NoneOf, dead_letter_of, put_poisons}
use tallyd.Dlq.Restart.{restart_forgets_removed}
use tallyd.Tests.Samples.{signup, purchase}

abbrev letter : ℕ → DeadLetter
letter n = record {
  provider = "metronome";
  event = signup;
  reason = "status 400";
  timestamp = 10;
  attempts = n;
  poisoned = false;
}

-- One record of `signup` in the regular file.
abbrev one_letter : Dlq
one_letter = record {
  regular = ("metronome", letter 1 ∷ []) ∷ [];
  poison = [];
  depths = ("metronome", pos 1) ∷ [];
  attempts = ("metronome", ("e1", 1) ∷ []) ∷ [];
}

one_file-Unique : Unique (("metronome", letter 1 ∷ []) ∷ [])
unfolding lookup
one_file-Unique = (refl, tt)

abbrev pub grown : Dlq
grown =
    (put no_faults 11 "metronome" purchase "status 400" true
      (open_dlq (("metronome", letter 1 ∷ []) ∷ []) [])).0

abbrev before_put : Dlq
before_put = open_dlq (("metronome", letter 1 ∷ []) ∷ []) []

abbrev pub grown_lost : String → ℕ
grown_lost =
    add "metronome"
      (lost "metronome" before_put
        (put no_faults 11 "metronome" purchase "status 400" true before_put))
      blank

pub grown-Life : Life (add "metronome" 0 blank) grown_lost grown
grown-Life =
    parked no_faults 11 "metronome" purchase "status 400" true
      (opened (("metronome", letter 1 ∷ []) ∷ []) [] one_file-Unique tt)

-- The next Put writes its line, and its fsync fails.
abbrev unsynced : PutFaults
unsynced = record { purge = removed_fine; append = sync_failed }

-- No record of the first life is gone.
pub grown_kept : grown_lost "metronome" ≡ 0
unfolding put append_regular append_record count_append remove_from_file keep_others contains
    attempts_of set_attempts open_dlq scan_files scan_records scan_record list_regular list_poison
    lookup insert delete
grown_kept = refl

-- The second permanent failure of `signup`.
put_poisons_example :
    let n = suc (attempts_of one_letter.attempts "metronome" "e1") in
    let (d, ok) = put no_faults 11 "metronome" signup "status 400" true one_letter in
    (list_regular "metronome" d ≡ keep_others ("e1" ∷ []) (list_regular "metronome" one_letter))
    × NoneOf "e1" (list_regular "metronome" d)
    × (list_poison "metronome" d
        ≡ list_poison "metronome" one_letter
          ++ dead_letter_of 11 "metronome" signup "status 400" true n ∷ [])
    × (attempts_of d.attempts "metronome" "e1" ≡ n)
    × (ok ≡ true)
unfolding attempts_of lookup
put_poisons_example = put_poisons 11 "metronome" signup "status 400" true one_letter (omega arith)

restart_forgets_removed_example :
    let d = (remove removed_fine removed_fine "metronome" ("e1" ∷ []) one_letter).0 in
    (attempts_of d.attempts "metronome" "e1" ≡ 1)
    × (attempts_of (open_dlq d.regular d.poison).attempts "metronome" "e1" ≡ 0)
unfolding attempts_of lookup contains
restart_forgets_removed_example =
    restart_forgets_removed "metronome" "e1" ("e1" ∷ []) one_letter refl
