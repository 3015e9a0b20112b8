-- ===== src/Tests/Listing.antt =====
-- Open on a directory that is listed out of order.
use tallyd.Base.{
  ℕ, ◌≡◌, refl, ap, ◌∙◌, ◌≤◌, String, true, false, not, some, List, [], ◌∷◌, str_eq, ◌==◌,
  if◌then◌else◌, arith,
}
use tallyd.Wal.Record.{encode_frames}
use tallyd.Wal.Replay.{files_of, open_wal}
use tallyd.Wal.Invariant.{IsValid}
use tallyd.Wal.Listing.{
  Names, DirEntry, segment_path, scan_entries, list_segment_seqs, sort_seqs, insert_seq,
  occurrences,
}
use tallyd.Wal.Listing.Opening.{read_segments, open_listed-IsValid}
use tallyd.Tests.Samples.{one_event}
use tallyd.Tests.Recovery.{one_frame, segments, opened_again, opens_again}

-- The directory of the two files, listed in the wrong order and with a folder.
abbrev two_names : Names
two_names = record {
  print = λ seq. if seq == 0 then "00000000000000000000.wal" else "00000000000000000001.wal";
  scan = λ name. if str_eq name "00000000000000000000.wal" then some 0 else some 1;
  is_wal = λ name. not (str_eq name "lost+found");
}

abbrev two_entries : List DirEntry
two_entries =
    record { name = "00000000000000000001.wal"; is_dir = false }
    ∷ record { name = "lost+found"; is_dir = true }
    ∷ record { name = "00000000000000000000.wal"; is_dir = false }
    ∷ []

abbrev same_contents : String → List ℕ × ℕ
same_contents name = (encode_frames one_frame, 11)

once_each : (k : ℕ) → occurrences k (scan_entries two_names two_entries) ≤ 1
unfolding scan_entries
once_each k = ground arith

two_listed :
    read_segments two_names same_contents (list_segment_seqs two_names two_entries)
    ≡ files_of segments
unfolding read_segments segment_path list_segment_seqs scan_entries sort_seqs insert_seq files_of
two_listed = refl

open_listed-IsValid_example : IsValid opened_again
open_listed-IsValid_example =
    open_listed-IsValid one_event two_names two_entries same_contents 16 0 opened_again once_each
      (ap (open_wal one_event 16 0) two_listed ∙ opens_again)
