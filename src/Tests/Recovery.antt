-- ===== src/Tests/Recovery.antt =====
-- A small log through a batch, a rotation and a crash.
use tallyd.Base.{
  inl, inr, String, Bool, str_eq, lookup, ℕ, ◌+◌, ◌≡◌, refl, true, false, none, some, List, [], ◌∷◌,
  ◌++◌, map, take, replicate, Map, arith, insert, delete, pos,
}
use tallyd.Wal.Record.{DecodedRecord, encode_frame, encode_frames, rec_type_event}
use tallyd.Wal.Record.RoundTrip.{AllFit, decode-encode, length-encode_frame}
use tallyd.Wal.Size.{newest_length, total_bytes-open_wal}
use tallyd.Wal.Resubmission.{append_forgets_pending}
use tallyd.Wal.Log.{
  total_bytes, apply_append, apply_ack, member, Wal, pending_set, Segment, EntryState, gc,
}
use tallyd.Wal.Commit.{
  final_sync, write_batch, Request, appends, Faults, Writing, commit_batch, write_active,
}
use tallyd.Wal.Replay.{
  replayed, replay_files, files_of, open_wal, finish_open, next_after, replay_file, replay_scan,
  replay_records, replay_record, replay_event, replayed_segment, seg_ref_count,
}
use tallyd.Wal.Counting.{Counted}
use tallyd.Wal.Invariant.{IsValid}
use tallyd.Wal.Batches.{commit_batch-IsValid}
use tallyd.Wal.Recovery.{Clean, Framed, framed_event, SameIndex, torn_files}
use tallyd.Wal.Recovery.Drops.{replay-gc}
use tallyd.Wal.Recovery.Opening.{open_wal-IsValid}
use tallyd.Wal.Recovery.Crash.{append_behind_torn_lost}
use tallyd.Wal.Recovery.Doubts.{batch_doubts}
use tallyd.Wal.Recovery.Failures.{begins, commits, failure_recovery}
use tallyd.Wal.Durability.{AllAnswered, commit_batch-AllAnswered}
use tallyd.Tests.Samples.{signup, to_metronome, one_event, one_event-JsonLaws}

-- A log whose segments hold 16 bytes, so that the second event rotates.
abbrev pub fresh : Wal
fresh = finish_open 16 0 [] 0 []

pub fresh_opens : open_wal one_event 16 0 [] ≡ replayed fresh
unfolding open_wal replay_files gc next_after
fresh_opens = refl

pub fresh-IsValid : IsValid fresh
fresh-IsValid = open_wal-IsValid one_event 16 0 [] fresh tt fresh_opens

abbrev pub no_faults : Faults
no_faults = record { rotate_fails = false; write_fails = none }

abbrev pub signs_up : Request
signs_up = record {
  frame = encode_frame rec_type_event (7 ∷ 8 ∷ []);
  change = appends signup to_metronome;
}

-- The second request does not get its new segment, and the write of the last one fails at once.
abbrev pub faulty : List (Request × Faults)
faulty =
    (signs_up, no_faults)
    ∷ (signs_up, record { rotate_fails = true; write_fails = none })
    ∷ (signs_up, no_faults)
    ∷ (signs_up, record { rotate_fails = false; write_fails = some 0 })
    ∷ []

abbrev pub cut_short : List (Request × Faults)
cut_short =
    (signs_up, no_faults) ∷ (signs_up, record { rotate_fails = false; write_fails = some 3 }) ∷ []

pub signs_up-Framed : Framed one_event signs_up
signs_up-Framed = framed_event signup to_metronome (7 ∷ 8 ∷ []) refl refl (omega arith) refl

pub faulty-Clean : Clean one_event faulty
faulty-Clean = (
  signs_up-Framed,
  inl refl,
  (signs_up-Framed, inl refl, (signs_up-Framed, inl refl, (signs_up-Framed, inr refl, tt))),
)

abbrev pub used : Wal
used = (commit_batch faulty true fresh).0

abbrev pub torn : DecodedRecord
torn = record { rec_type = 2; payload = 9 ∷ [] }

-- The final fsync of the batch fails.
abbrev unsynced : Wal
unsynced = (commit_batch faulty false fresh).0

failure_recovery_example :
    (w' : Wal) × (open_wal one_event 1000 0
        (torn_files (take 9 (encode_frame 2 (9 ∷ []))) (files_of unsynced.segments))
      ≡ replayed w')
    × ((k : String)
        → member k (batch_doubts faulty false fresh ++ []) ≡ false
        → lookup k w'.index ≡ lookup k unsynced.index)
failure_recovery_example =
    failure_recovery one_event-JsonLaws torn 9 1000 0
      (commits faulty false faulty-Clean (begins 16 0 fresh_opens)) (omega arith)
      (omega (arith, length-encode_frame 2 (9 ∷ [])))

commit_batch-IsValid_example : IsValid (commit_batch cut_short false fresh).0
commit_batch-IsValid_example = commit_batch-IsValid cut_short false fresh fresh-IsValid

abbrev pub one_frame : List DecodedRecord
one_frame = record { rec_type = rec_type_event; payload = 7 ∷ 8 ∷ [] } ∷ []

one_frame-AllFit : AllFit one_frame
one_frame-AllFit = (omega arith, tt)

-- Two copies of an event, of which the second one counts.
abbrev segment : ℕ → Segment
segment seq = record {
  seq = seq;
  size = 11;
  ref_count = pos seq;
  bytes = encode_frames one_frame;
  durable = 11;
}

abbrev held : Map EntryState
held = ("e1", record { event = signup; pending = to_metronome; seg_seq = 1 }) ∷ []

abbrev pub segments : List Segment
segments = segment 0 ∷ segment 1 ∷ []

segments_replay : replay_files one_event (files_of segments) [] ≡ replayed held
unfolding files_of replay_files replay_file replay_scan replay_records replay_record replay_event
    pending_set insert delete
segments_replay = rw (decode-encode one_frame one_frame-AllFit) refl

segments-Counted : Counted (λ n. seg_ref_count n held) segments
unfolding seg_ref_count
segments-Counted = (refl, (refl, tt))

replay-gc_example :
    (j : Map EntryState) × (replay_files one_event (files_of (gc segments)) [] ≡ replayed j)
    × SameIndex j held
replay-gc_example =
    replay-gc one_event segments held held segments-Counted segments_replay (λ k. refl)

-- The log that the two files open to.
abbrev pub opened_again : Wal
opened_again =
    finish_open 16 0 held (next_after (files_of segments) 0)
      (gc (map (replayed_segment held) (files_of segments)))

pub opens_again : open_wal one_event 16 0 (files_of segments) ≡ replayed opened_again
unfolding open_wal
opens_again = rw segments_replay refl

abbrev behind_torn : Segment
behind_torn = record {
  seq = 0;
  size = 0;
  ref_count = pos 0;
  bytes = encode_frames [] ++ take (8 + 3) (encode_frame 1 (replicate 30 65));
  durable = 0;
}

abbrev long_frame : DecodedRecord
long_frame = record { rec_type = 1; payload = replicate 30 65 }

abbrev reopened : Writing
reopened = record { segments = behind_torn ∷ []; next_seq = 1; outcomes = [] }

append_behind_torn_lost_example :
    replay_files one_event
      (files_of (write_active (encode_frame 1 (7 ∷ 8 ∷ [])) none reopened).segments)
      []
    ≡ replay_files one_event (files_of reopened.segments) []
append_behind_torn_lost_example =
    append_behind_torn_lost one_event reopened behind_torn [] long_frame 3
      (encode_frame 1 (7 ∷ 8 ∷ [])) [] refl refl tt (omega arith)
      (omega (arith, length-encode_frame 1 (7 ∷ 8 ∷ [])))

commit_batch-AllAnswered_example :
    AllAnswered cut_short
      (commit_batch cut_short true fresh).1
      (final_sync true (write_batch cut_short fresh).segments)
commit_batch-AllAnswered_example =
    commit_batch-AllAnswered cut_short true fresh (fresh-IsValid.nonempty)

abbrev pub is_configured : String → Bool
is_configured p = str_eq p "metronome"

-- `signup` is pending for metronome when it is appended again for stdout.
abbrev holding : Wal
holding = record {
  max_segment_bytes = 100;
  max_bytes = 0;
  index = held;
  segments = segments;
  next_seq = 2;
  closed = false;
}

append_forgets_pending_example :
    let w' = apply_append signup ("stdout" ∷ []) 1 holding in
    ((entry : EntryState) × (lookup "e1" w'.index ≡ some entry)
      × (member "metronome" entry.pending ≡ false))
    × (lookup "e1" (apply_ack "e1" "stdout" w').index ≡ none)
unfolding lookup member
append_forgets_pending_example =
    append_forgets_pending holding signup "stdout" "metronome" 1
      (record { event = signup; pending = to_metronome; seg_seq = 1 }) refl refl refl

-- Two files of which the newest counts.
total_bytes-open_wal_example : total_bytes opened_again ≡ newest_length (files_of segments)
total_bytes-open_wal_example =
    total_bytes-open_wal one_event 16 0 (files_of segments) opened_again opens_again
