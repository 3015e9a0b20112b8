-- ===== src/Wal/Recovery/Crash.antt =====
-- Crash recovery of internal/wal: what a new process finds in the files is what the old one held.
use tallyd.Base.{
  ℕ, suc, ◌+◌, ◌^◌, ◌<◌, ◌≡◌, refl, sym, ap, ◌∙◌, subst, true, none, List, [], ◌∷◌, ◌++◌, map, take,
  length, Map, lookup, arith, append_assoc, append-nil,
}
use tallyd.Wal.Record.{DecodedRecord, encode_frame, encode_frames, decode_records, records}
use tallyd.Wal.Record.RoundTrip.{AllFit, decode_behind_torn}
use tallyd.Wal.Log.{Wal, Segment, EntryState, gc}
use tallyd.Wal.Commit.{
  Json, Request, Faults, Writing, update_active, segment_append, commit_batch, create_segment,
  write_active,
}
use tallyd.Wal.Replay.{
  File, replayed, replay_file, replay_scan, replay_records, replay_files, files_of, next_after,
  replayed_segment, open_for_append, finish_open, open_wal,
}
use tallyd.Wal.Counting.{Ascending}
use tallyd.Wal.Invariant.{IsNonempty}
use tallyd.Wal.Recovery.{JsonLaws, Clean, SameIndex, AllWhole, torn_files}
use tallyd.Wal.Recovery.Appends.{replay_files-torn, decode_records-nil}
use tallyd.Wal.Recovery.Drops.{replay-gc}
use tallyd.Wal.Recovery.Opening.{
  AscendingFiles, open_wal-IsValid, open_wal-index, gc-IsNonempty, map-Counted,
}
use tallyd.Wal.Recovery.Commits.{IsRecoverable, AllWhole-gc}
use tallyd.Wal.Recovery.Doubts.{commit_batch-IsRecoverable}

files_of-map : (j : Map EntryState) (fs : List File) → files_of (map (replayed_segment j) fs) ≡ fs
unfolding files_of replayed_segment
files_of-map j [] = refl
files_of-map j (f ∷ fs) = ap (λ l. f ∷ l) (files_of-map j fs)

files_of-reopened : (ss : List Segment) → files_of (update_active open_for_append ss) ≡ files_of ss
unfolding files_of update_active open_for_append
files_of-reopened [] = refl
files_of-reopened (s ∷ []) = refl
files_of-reopened (s ∷ t ∷ ss) =
    ap (λ l. record { seq = s.seq; bytes = s.bytes; durable = s.durable } ∷ l)
      (files_of-reopened (t ∷ ss))

files_of-finish_open :
    (ms mb : ℕ) (j : Map EntryState) (n : ℕ) (ss : List Segment)
    → IsNonempty ss
    → files_of (finish_open ms mb j n ss).segments ≡ files_of ss
unfolding finish_open
files_of-finish_open ms mb j n [] h = absurd h
files_of-finish_open ms mb j n (s ∷ ss) h = files_of-reopened (s ∷ ss)

pub index-finish_open :
    (ms mb : ℕ) (j : Map EntryState) (n : ℕ) (ss : List Segment)
    → (finish_open ms mb j n ss).index ≡ j
unfolding finish_open
index-finish_open ms mb j n [] = refl
index-finish_open ms mb j n (s ∷ ss) = refl

pub files_of-Ascending :
    (lo hi : ℕ) (ss : List Segment) → Ascending lo ss hi → AscendingFiles lo (files_of ss)
unfolding files_of
files_of-Ascending lo hi [] a = tt
files_of-Ascending lo hi (s ∷ ss) a = (a.0, files_of-Ascending (suc s.seq) hi ss a.1)

module _ (json : Json) where
  fresh_replay :
      (ms mb : ℕ)
      → replay_files json (files_of (finish_open ms mb [] 0 []).segments) [] ≡ replayed []
  unfolding replay_files replay_file replay_scan replay_records finish_open create_segment files_of
  fresh_replay ms mb = rw decode_records-nil

  fresh-IsRecoverable :
      (ms mb : ℕ) (w : Wal) → open_wal json ms mb [] ≡ replayed w → IsRecoverable json w
  unfolding replay_files finish_open create_segment files_of gc encode_frames next_after
  fresh-IsRecoverable ms mb w e =
      let (j, e₁, e₂) = open_wal-index json ms mb [] w e in
      let empty : [] ≡ j = ground arith in
      record {
        valid = open_wal-IsValid json ms mb [] w tt e;
        whole = rw e₂ (([], refl, tt), tt);
        content = rw (e₂, ← empty) ([], fresh_replay ms mb, λ k. refl);
      }

  -- A restart on files of whole frames.
  restart-IsRecoverable :
      (ms mb : ℕ) (f : File) (fs : List File) (w : Wal)
      → AscendingFiles 0 (f ∷ fs)
      → AllWhole (f ∷ fs)
      → open_wal json ms mb (f ∷ fs) ≡ replayed w
      → IsRecoverable json w
  restart-IsRecoverable ms mb f fs w a whole e =
      let (j, e₁, e₂) = open_wal-index json ms mb (f ∷ fs) w e in
      let ss = map (replayed_segment j) (f ∷ fs) in
      let files =
        files_of-finish_open ms mb j (next_after (f ∷ fs) 0) (gc ss) (gc-IsNonempty ss tt) in
      let (j', e', same) =
        replay-gc json ss j j (map-Counted j (f ∷ fs))
          (ap (λ l. replay_files json l []) (files_of-map j (f ∷ fs)) ∙ e₁) (λ k. refl) in
      record {
        valid = open_wal-IsValid json ms mb (f ∷ fs) w a e;
        whole =
            rw (e₂, files) (AllWhole-gc ss (subst AllWhole (sym (files_of-map j (f ∷ fs))) whole));
        content = (
          j',
          rw (e₂, files) e',
          λ k.
              same k
              ∙ ap (λ i. lookup k i)
                  (sym (
                    ap (λ (v : Wal). v.index) e₂
                    ∙ index-finish_open ms mb j (next_after (f ∷ fs) 0) (gc ss))),
        );
      }

  pub restart_on-IsRecoverable :
      (ms mb : ℕ) (fs : List File) (w : Wal)
      → AscendingFiles 0 fs
      → AllWhole fs
      → open_wal json ms mb fs ≡ replayed w
      → IsRecoverable json w
  restart_on-IsRecoverable ms mb [] w a whole e = fresh-IsRecoverable ms mb w e
  restart_on-IsRecoverable ms mb (f ∷ fs) w a whole e = restart-IsRecoverable ms mb f fs w a whole e

-- The logs that come about, from an empty directory, by batches whose failures leave no bytes, with a
-- final fsync that succeeds, and by restarts between batches.
pub data Reach (json : Json) : Wal → Type 0 where
  opened : (ms mb : ℕ) {w : Wal} → open_wal json ms mb [] ≡ replayed w → Reach json w
  committed :
      {w : Wal} (batch : List (Request × Faults))
      → Clean json batch
      → Reach json w
      → Reach json (commit_batch batch true w).0
  restarted :
      (ms mb : ℕ) {w w' : Wal}
      → Reach json w
      → open_wal json ms mb (files_of w.segments) ≡ replayed w'
      → Reach json w'

pub Reach-IsRecoverable :
    {json : Json} {w : Wal} → JsonLaws json → Reach json w → IsRecoverable json w
Reach-IsRecoverable {json} laws (opened ms mb {w = w} e) = fresh-IsRecoverable json ms mb w e
Reach-IsRecoverable {json} laws (committed {w = w} batch clean r) =
    commit_batch-IsRecoverable json laws batch w clean (Reach-IsRecoverable laws r)
Reach-IsRecoverable {json} laws (restarted ms mb {w = w} {w' = w'} r e) =
    let v = Reach-IsRecoverable laws r in
    restart_on-IsRecoverable json ms mb (files_of w.segments) w'
      (files_of-Ascending 0 w.next_seq w.segments v.valid.ascending) v.whole e

pub open_wal-returns :
    (json : Json) (ms mb : ℕ) (fs : List File) (j : Map EntryState)
    → replay_files json fs [] ≡ replayed j
    → (w : Wal) × (open_wal json ms mb fs ≡ replayed w) × (w.index ≡ j)
unfolding open_wal
open_wal-returns json ms mb fs j e = (
  finish_open ms mb j (next_after fs 0) (gc (map (replayed_segment j) fs)),
  rw e,
  index-finish_open ms mb j (next_after fs 0) (gc (map (replayed_segment j) fs)),
)

-- Crash recovery, where encoding/json reads back what it has written. Take any log that came about
-- by restarts and by batches in which rotations may fail, and writes before their first byte, but not
-- the final fsync, with all the rotations and deletions of segments that these caused. Let the process
-- die while the next frame, with a body shorter than 2^32 bytes, is being written, before its last
-- byte. Then Open on the files that are left returns, whatever
-- limits it is given, and the index that it rebuilds holds exactly the unresolved events of the old
-- process, each with the same event, pending providers and segment.
pub crash_recovery :
    {json : Json} {w : Wal} (laws : JsonLaws json) (torn : DecodedRecord) (cut ms mb : ℕ)
    → Reach json w
    → suc (length torn.payload) < 2 ^ 32
    → cut < length (encode_frame torn.rec_type torn.payload)
    → (w' : Wal) × (open_wal json ms mb
          (torn_files (take cut (encode_frame torn.rec_type torn.payload)) (files_of w.segments))
        ≡ replayed w')
      × SameIndex w'.index w.index
crash_recovery {json} {w} laws torn cut ms mb r fits h =
    let v = Reach-IsRecoverable laws r in
    let (j, e, same) = v.content in
    let (w', opens, index) =
      open_wal-returns json ms mb _ j
        (replay_files-torn json torn cut (files_of w.segments) [] fits h v.whole ∙ e) in
    (w', opens, λ k. ap (λ i. lookup k i) index ∙ same k)

-- A write behind a torn frame, in a log of one segment. If the file holds whole frames and the
-- first 8 + k bytes of one more, then a frame that is written completely behind them, and ends
-- before the torn one would have ended, is not seen by the next replay: the files still replay to
-- what they did before. All bodies but the new one's are taken to be shorter than 2^32 bytes.
pub append_behind_torn_lost :
    (json : Json) (st : Writing) (s : Segment) (whole : List DecodedRecord) (torn : DecodedRecord)
    (k : ℕ) (frame : List ℕ) (i : Map EntryState)
    → st.segments ≡ s ∷ []
    → s.bytes ≡ encode_frames whole ++ take (8 + k) (encode_frame torn.rec_type torn.payload)
    → AllFit whole
    → suc (length torn.payload) < 2 ^ 32
    → k + length frame < suc (length torn.payload)
    → replay_files json (files_of (write_active frame none st).segments) i
      ≡ replay_files json (files_of st.segments) i
unfolding write_active update_active segment_append files_of replay_files replay_file
append_behind_torn_lost json st s whole torn k frame i only bytes fit fits short =
    let head = take (8 + k) (encode_frame torn.rec_type torn.payload) in
    let alone : decode_records (encode_frames whole ++ head) ≡ records whole =
      subst (λ bs. decode_records (encode_frames whole ++ bs) ≡ records whole) (append-nil head)
        (decode_behind_torn whole torn k [] fit fits (omega arith)) in
    rw (
      only,
      bytes,
      append_assoc (encode_frames whole) head frame,
      decode_behind_torn whole torn k frame fit fits short,
      alone,
    )
