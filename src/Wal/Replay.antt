-- ===== src/Wal/Replay.antt =====
-- internal/wal/wal.go: Open and replay, which rebuild the index from the segment files.
use tallyd.Base.{
  ℕ, suc, String, false, Option, none, some, List, [], ◌∷◌, map, ltb, ◌==◌, if◌then◌else◌, pos,
  length, Map, lookup, insert, delete,
}
use tallyd.Adapter.{Event}
use tallyd.Wal.Record.{DecodedRecord, Scan, decode_records, rec_type_event, rec_type_ack}
use tallyd.Wal.Log.{Wal, Segment, EntryState, pending_set, without, is_empty, gc}
use tallyd.Wal.Commit.{Json, create_segment, update_active}

-- A segment file as the directory lists it, oldest first.
pub record File : Type 0 where
  pub seq : ℕ
  pub bytes : List ℕ
  pub durable : ℕ

-- `failed` is an error that Open returns, `panicked` a panic while it scans.
pub data Replay {ℓ} (A : Type ℓ) : Type ℓ where
  replayed : A → Replay A
  failed panicked : Replay A

infixl 5 ◌>>=◌
abbrev pub ◌>>=◌ {ℓ κ} : {A : Type ℓ} {B : Type κ} → Replay A → (A → Replay B) → Replay B
replayed a >>= f = f a
failed >>= f = failed
panicked >>= f = panicked

unfoldable pub replay_event : ℕ → Event → List String → Map EntryState → Map EntryState
replay_event seq event providers index =
    insert event.id (record { event = event; pending = pending_set providers; seg_seq = seq }) index

unfoldable pub settle : String → String → Option EntryState → Map EntryState → Map EntryState
unfolding is_empty
settle id provider none index = index
settle id provider (some entry) index =
    let pending = without provider entry.pending in
    if is_empty pending
    then delete id index
    else insert id (record entry { pending = pending }) index

unfoldable pub replay_ack : String → String → Map EntryState → Map EntryState
unfolding settle
replay_ack id provider index = settle id provider (lookup id index) index

or_fail {ℓ} : {A : Type ℓ} → Option A → Replay A
or_fail none = failed
or_fail (some a) = replayed a

-- The `switch rec.recType`; a record of another type is passed over.
unfoldable pub replay_record : Json → ℕ → DecodedRecord → Map EntryState → Replay (Map EntryState)
unfolding or_fail
replay_record json seq rec index =
    if rec.rec_type == rec_type_event
    then (do
      (event, providers) ← or_fail (json.unmarshal_event rec.payload)
      replayed (replay_event seq event providers index))
    else if rec.rec_type == rec_type_ack
    then (do
      (id, provider) ← or_fail (json.unmarshal_ack rec.payload)
      replayed (replay_ack id provider index))
    else replayed index

unfoldable pub replay_records :
    Json → ℕ → List DecodedRecord → Map EntryState → Replay (Map EntryState)
replay_records json seq [] index = replayed index
replay_records json seq (rec ∷ recs) index =
    replay_record json seq rec index >>= replay_records json seq recs

unfoldable pub replay_scan : Json → ℕ → Scan → Map EntryState → Replay (Map EntryState)
replay_scan json seq (Scan.records recs) index = replay_records json seq recs index
replay_scan json seq Scan.panics index = panicked
replay_scan json seq Scan.out_of_fuel index = failed

unfoldable pub replay_file : Json → File → Map EntryState → Replay (Map EntryState)
unfolding replay_scan
replay_file json file index = replay_scan json file.seq (decode_records file.bytes) index

unfoldable pub replay_files : Json → List File → Map EntryState → Replay (Map EntryState)
replay_files json [] index = replayed index
replay_files json (file ∷ files) index = replay_file json file index >>= replay_files json files

-- `if seq >= w.nextSeq { w.nextSeq = seq + 1 }`, over all files.
unfoldable pub next_after : List File → ℕ → ℕ
next_after [] n = n
next_after (file ∷ files) n = next_after files (if ltb file.seq n then n else suc file.seq)

-- segRefCount[seq]: the unresolved entries whose event record lies in that segment.
unfoldable pub seg_ref_count : ℕ → Map EntryState → ℕ
seg_ref_count seq [] = 0
seg_ref_count seq ((id, entry) ∷ index) =
    if entry.seg_seq == seq then suc (seg_ref_count seq index) else seg_ref_count seq index

-- The struct literal sets no `size`.
unfoldable pub replayed_segment : Map EntryState → File → Segment
replayed_segment index file = record {
  seq = file.seq;
  size = 0;
  ref_count = pos (seg_ref_count file.seq index);
  bytes = file.bytes;
  durable = file.durable;
}

-- openSegmentForAppend: the size is the file's, and writes go behind what the file holds.
unfoldable pub open_for_append : Segment → Segment
open_for_append s = record s { size = length s.bytes }

unfoldable pub finish_open : ℕ → ℕ → Map EntryState → ℕ → List Segment → Wal
unfolding open_for_append create_segment
finish_open max_segment_bytes max_bytes index next_seq [] = record {
  max_segment_bytes = max_segment_bytes;
  max_bytes = max_bytes;
  index = index;
  segments = create_segment next_seq ∷ [];
  next_seq = suc next_seq;
  closed = false;
}
finish_open max_segment_bytes max_bytes index next_seq (s ∷ ss) = record {
  max_segment_bytes = max_segment_bytes;
  max_bytes = max_bytes;
  index = index;
  segments = update_active open_for_append (s ∷ ss);
  next_seq = next_seq;
  closed = false;
}

-- Open with the two limits, on the files of the directory.
unfoldable pub open_wal : Json → ℕ → ℕ → List File → Replay Wal
unfolding finish_open replayed_segment
open_wal json max_segment_bytes max_bytes files = do
  index ← replay_files json files []
  replayed (
      finish_open max_segment_bytes max_bytes index (next_after files 0)
        (gc (map (replayed_segment index) files)))

-- The files that a process leaves behind.
unfoldable pub files_of : List Segment → List File
files_of [] = []
files_of (s ∷ ss) = record { seq = s.seq; bytes = s.bytes; durable = s.durable } ∷ files_of ss
