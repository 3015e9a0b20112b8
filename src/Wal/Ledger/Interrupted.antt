-- ===== src/Wal/Ledger/Interrupted.antt =====
-- A crash in the middle of commitBatch of wal.go, against the ledger.
use tallyd.Base.{ℕ, suc, ◌^◌, ◌<◌, ◌≡◌, sym, ap, ◌∙◌, true, List, [], length, take}
use tallyd.Wal.Record.{DecodedRecord, encode_frame}
use tallyd.Wal.Log.{Wal, gc_segments}
use tallyd.Wal.Commit.{Json, Request, Faults, final_sync, write_batch, commit_batch}
use tallyd.Wal.Replay.{replayed, open_wal, files_of}
use tallyd.Wal.Recovery.{JsonLaws, Clean, torn_files}
use tallyd.Wal.Recovery.Appends.{replay_files-torn}
use tallyd.Wal.Recovery.Frames.{effects, write_requests-effects}
use tallyd.Wal.Recovery.Commits.{effects-SameIndex, index-apply_requests}
use tallyd.Wal.Recovery.Crash.{Reach, Reach-IsRecoverable, open_wal-returns}
use tallyd.Wal.Ledger.{ledger_batch, ledger_of}
use tallyd.Wal.Ledger.Refinement.{history, history_lem, SameIndex-ledger, commit_batch-ledger}

-- The log refines its ledger across a crash at any moment of a batch, where encoding/json reads back
-- what it has written. Take any history of batches in which rotations may fail, and writes before
-- their first byte, but not the final fsync, with restarts between batches. Let some requests of one more such batch
-- be through the write loop, and the process die before the last byte of the next frame, whose body
-- is shorter than 2^32 bytes. Then Open on the files that are left returns, and the ledger of the new
-- process is what the answered requests of the history, and then the written ones of the last batch,
-- in their order, make of the empty ledger.
pub interrupted-history :
    {json : Json} {w : Wal} (laws : JsonLaws json) (torn : DecodedRecord) (cut ms mb : ℕ)
    (batch : List (Request × Faults))
    → (r : Reach json w) → Clean json batch
    → suc (length torn.payload) < 2 ^ 32
    → cut < length (encode_frame torn.rec_type torn.payload)
    → let tail = take cut (encode_frame torn.rec_type torn.payload) in
      (w' : Wal) × (open_wal json ms mb (torn_files tail (files_of (write_batch batch w).segments))
        ≡ replayed w')
      × (ledger_of w'.index ≡ ledger_batch batch (commit_batch batch true w).1 (history r))
unfolding write_batch commit_batch gc_segments
interrupted-history {json} {w} laws torn cut ms mb batch r clean fits h =
    let v = Reach-IsRecoverable laws r in
    let (j, e, same) = v.content in
    let st = write_batch batch w in
    let (ns, c, home, replays) =
      write_requests-effects json laws w.max_segment_bytes batch
        (record { segments = w.segments; next_seq = w.next_seq; outcomes = [] }) clean
        (record { nonempty = v.valid.nonempty; whole = v.whole }) in
    let (w', opens, index) =
      open_wal-returns json ms mb _ (effects batch ns j) (
        replay_files-torn json torn cut (files_of st.segments) [] fits h c.whole
        ∙ replays [] j e) in
    let to = record w { segments = final_sync true st.segments; next_seq = st.next_seq } in
    (
      w',
      opens,
      ap ledger_of index
          ∙ SameIndex-ledger _ _ (effects-SameIndex batch ns j w.index same)
          ∙ ap ledger_of (
              sym (
                index-apply_requests batch st.outcomes to ∙ ap (λ l. effects batch l w.index) home))
          ∙ commit_batch-ledger batch true w
          ∙ ap (ledger_batch batch (commit_batch batch true w).1) (history_lem laws r),
    )
