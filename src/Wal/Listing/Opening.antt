-- ===== src/Wal/Listing/Opening.antt =====
-- Open of wal.go on a directory, through listSegmentSeqs of segment.go.
use tallyd.Base.{ℕ, String, suc, ◌≤◌, ◌≡◌, List, [], ◌∷◌}
use tallyd.Wal.Log.{Wal}
use tallyd.Wal.Commit.{Json}
use tallyd.Wal.Replay.{File, replayed, open_wal}
use tallyd.Wal.Invariant.{IsValid}
use tallyd.Wal.Recovery.Opening.{AscendingFiles, open_wal-IsValid}
use tallyd.Wal.Listing.{
  Names, DirEntry, segment_path, scan_entries, list_segment_seqs, occurrences, Rising,
  list_segment_seqs-Rising,
}

-- os.ReadFile of each segment's path: its bytes, and how many of them are durable.
unfoldable pub read_segments : Names → (String → List ℕ × ℕ) → List ℕ → List File
unfolding segment_path
read_segments names contents [] = []
read_segments names contents (seq ∷ seqs) =
    let (bytes, durable) = contents (segment_path names seq) in
    record { seq = seq; bytes = bytes; durable = durable } ∷ read_segments names contents seqs

read_segments-AscendingFiles :
    (names : Names) (contents : String → List ℕ × ℕ) (low : ℕ) (seqs : List ℕ)
    → Rising low seqs
    → AscendingFiles low (read_segments names contents seqs)
unfolding read_segments
read_segments-AscendingFiles names contents low [] r = tt
read_segments-AscendingFiles names contents low (seq ∷ seqs) r =
    (r.0, read_segments-AscendingFiles names contents (suc seq) seqs r.1)

-- In whatever order the directory is listed, and whatever the segment files hold: if no two names of
-- segment files scan to the same number, and Open returns a log, then its state satisfies the
-- invariant. The counts that it takes from the replayed index are right, the numbers rise below the
-- next one, and no unresolved entry has lost its segment to the deletion at startup.
pub open_listed-IsValid :
    (json : Json) (names : Names) (entries : List DirEntry) (contents : String → List ℕ × ℕ)
    (ms mb : ℕ) (w : Wal)
    → ((k : ℕ) → occurrences k (scan_entries names entries) ≤ 1)
    → open_wal json ms mb (read_segments names contents (list_segment_seqs names entries))
      ≡ replayed w
    → IsValid w
open_listed-IsValid json names entries contents ms mb w once opens =
    let (same, sorted, rising) = list_segment_seqs-Rising names entries in
    open_wal-IsValid json ms mb _ w
      (read_segments-AscendingFiles names contents 0 (list_segment_seqs names entries)
        (rising once))
      opens
