-- ===== src/Wal/Recovery/Failures.antt =====
-- Crash recovery of internal/wal/wal.go behind failures that the callers were told of.
use tallyd.Base.{
  ℕ, suc, ◌^◌, ◌<◌, ◌≡◌, ap, ◌∙◌, String, Bool, false, List, [], ◌++◌, length, take, lookup,
}
use tallyd.Wal.Record.{DecodedRecord, encode_frame}
use tallyd.Wal.Log.{Wal, member}
use tallyd.Wal.Commit.{Json, Request, Faults, commit_batch}
use tallyd.Wal.Replay.{replayed, files_of, open_wal}
use tallyd.Wal.Recovery.{JsonLaws, Clean, torn_files}
use tallyd.Wal.Recovery.Appends.{replay_files-torn}
use tallyd.Wal.Recovery.Doubts.{
  IsRecoverableBut, batch_doubts, commit_batch-IsRecoverableBut, but_none,
}
use tallyd.Wal.Recovery.Crash.{
  opened, restart_on-IsRecoverable, files_of-Ascending, open_wal-returns, Reach-IsRecoverable,
}

-- The logs that come about, from an empty directory, by restarts and by batches with any failures
-- that leave no bytes, and the ids that are in doubt since the last start.
pub data Withstands (json : Json) : List String → Wal → Type 0 where
  begins : (ms mb : ℕ) {w : Wal} → open_wal json ms mb [] ≡ replayed w → Withstands json [] w
  commits :
      {ids : List String} {w : Wal} (batch : List (Request × Faults)) (sync_ok : Bool)
      → Clean json batch
      → Withstands json ids w
      → Withstands json (batch_doubts batch sync_ok w ++ ids) (commit_batch batch sync_ok w).0
  restarts :
      (ms mb : ℕ) {ids : List String} {w w' : Wal}
      → Withstands json ids w
      → open_wal json ms mb (files_of w.segments) ≡ replayed w'
      → Withstands json [] w'

Withstands-IsRecoverableBut :
    {json : Json} {ids : List String} {w : Wal}
    → JsonLaws json
    → Withstands json ids w
    → IsRecoverableBut json ids w
Withstands-IsRecoverableBut {json} laws (begins ms mb e) =
    but_none (Reach-IsRecoverable laws (opened ms mb e))
Withstands-IsRecoverableBut {json} laws (commits {ids = ids} {w = w} batch sync_ok clean r) =
    commit_batch-IsRecoverableBut json laws ids batch sync_ok w clean
      (Withstands-IsRecoverableBut laws r)
Withstands-IsRecoverableBut {json} laws (restarts ms mb {w = w} {w' = w'} r e) =
    let v = Withstands-IsRecoverableBut laws r in
    but_none (
      restart_on-IsRecoverable json ms mb (files_of w.segments) w'
        (files_of-Ascending 0 w.next_seq w.segments v.valid.ascending) v.whole e)

-- Crash recovery behind failures that the callers were told of, where encoding/json reads back what
-- it has written. Take any log that came about by batches in which rotations may fail, writes
-- before their first byte, and the final fsync, with restarts between batches, and let the process die before the last
-- byte of the next frame, whose body is shorter than 2^32 bytes. Then Open on the files that are left
-- returns, and at every id that no request since the last start has left in doubt, by being written
-- and then answered with an error, the new index holds exactly what the old one held: nothing, or
-- the same event, pending providers and segment.
pub failure_recovery :
    {json : Json} {ids : List String} {w : Wal} (laws : JsonLaws json) (torn : DecodedRecord)
    (cut ms mb : ℕ)
    → Withstands json ids w
    → suc (length torn.payload) < 2 ^ 32
    → cut < length (encode_frame torn.rec_type torn.payload)
    → (w' : Wal) × (open_wal json ms mb
          (torn_files (take cut (encode_frame torn.rec_type torn.payload)) (files_of w.segments))
        ≡ replayed w')
      × ((k : String) → member k ids ≡ false → lookup k w'.index ≡ lookup k w.index)
failure_recovery {json} {ids} {w} laws torn cut ms mb r fits h =
    let v = Withstands-IsRecoverableBut laws r in
    let (j, e, same) = v.content in
    let (w', opens, index) =
      open_wal-returns json ms mb _ j
        (replay_files-torn json torn cut (files_of w.segments) [] fits h v.whole ∙ e) in
    (w', opens, λ k sure. ap (λ i. lookup k i) index ∙ same k sure)
