-- ===== src/Dispatcher/Promise.antt =====
-- The promise of README.md, an accepted event is never lost even if the process crashes mid-flight,
-- over internal/wal/wal.go and internal/dispatcher/dispatcher.go.
use tallyd.Base.{
  ℕ, suc, ◌^◌, ◌<◌, ◌≡◌, sym, subst, String, Bool, true, List, ◌∷◌, ◌++◌, length, take, map,
}
use tallyd.Adapter.{Event}
use tallyd.Wal.Record.{DecodedRecord, encode_frame}
use tallyd.Wal.Log.{Wal, pending_entries, member}
use tallyd.Wal.Commit.{Json, Change, appends, Request, Faults, write_batch, commit_batch}
use tallyd.Wal.Replay.{replayed, open_wal, files_of}
use tallyd.Wal.Recovery.{JsonLaws, Clean, torn_files}
use tallyd.Wal.Recovery.Crash.{Reach}
use tallyd.Wal.Ledger.Refinement.{history}
use tallyd.Wal.Ledger.Interrupted.{interrupted-history}
use tallyd.Wal.Ledger.Promise.{
  IsOwed, NoneEnds, answered, history-IsOwed, ledger_batch-IsOwed, IsOwed-pending,
}
use tallyd.Dispatcher.{replay_pending}
use tallyd.Dispatcher.Startup.{Enqueues, replay_pending-Enqueues}

-- An accepted event is not lost, where encoding/json reads back what it has written. Take any
-- history of batches in which rotations may fail, and writes before their first byte, but not the
-- final fsync, with restarts between batches, and in it an append that was answered with nil, with
-- no append of the same id and no ack of the id by the provider `p` answered behind it. Let some
-- requests of one more such batch, none of which is one of these either, be through the write loop,
-- and the process die before the last byte of the next frame, whose body is shorter than 2^32
-- bytes. Then Open on the files that are left returns, and ReplayPending on its entries puts the
-- event on the queue of `p`, if `p` is one of the providers of the append and configured.
pub accepted_redelivered :
    {json : Json} {w : Wal} (laws : JsonLaws json) (known : String → Bool) (torn : DecodedRecord)
    (cut ms mb : ℕ) (batch : List (Request × Faults)) (before after : List Change) (e : Event)
    (ps : List String) (p : String)
    → (r : Reach json w) → answered r ≡ before ++ appends e ps ∷ after
    → member p ps ≡ true
    → NoneEnds e.id p after
    → Clean json batch
    → NoneEnds e.id p (map (λ r. r.0.change) batch)
    → suc (length torn.payload) < 2 ^ 32
    → cut < length (encode_frame torn.rec_type torn.payload)
    → known p ≡ true
    → let tail = take cut (encode_frame torn.rec_type torn.payload) in
      (w' : Wal) × (open_wal json ms mb (torn_files tail (files_of (write_batch batch w).segments))
        ≡ replayed w')
      × Enqueues (replay_pending known (pending_entries w')) p e
unfolding pending_entries
accepted_redelivered {w = w} laws known torn cut ms mb batch before after e ps p r trace named quiet
      clean still fits short configured =
    let (w', opens, same) = interrupted-history laws torn cut ms mb batch r clean fits short in
    let owed =
      ledger_batch-IsOwed p e batch (commit_batch batch true w).1 (history r) still
        (history-IsOwed r before after e ps p trace named quiet) in
    let (entry, found, event, pending) =
      IsOwed-pending p e w'.index (subst (IsOwed p e) (sym same) owed) in
    (
      w',
      opens,
      subst (Enqueues (replay_pending known (pending_entries w')) p) event
          (replay_pending-Enqueues known w'.index e.id entry p found pending configured),
    )
