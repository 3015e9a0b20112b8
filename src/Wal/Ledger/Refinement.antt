-- ===== src/Wal/Ledger/Refinement.antt =====
-- commitBatch and Open of wal.go against the ledger.
use tallyd.Base.{
  ℕ, suc, ◌^◌, ◌<◌, ◌≡◌, refl, ap, ◌∙◌, inl, inr, String, Bool, true, Option, none, some, List, [],
  ◌∷◌, map, str_eq, Map, lookup, length, take, arith, Bool-cases,
}
use mathlib.Core.Quot
use tallyd.Wal.Record.{DecodedRecord, encode_frame}
use tallyd.Wal.Log.{Wal, EntryState, without, is_empty, gc, gc_segments}
use tallyd.Wal.Commit.{
  Json, Change, appends, acks, Request, Faults, Outcome, apply_change, apply_requests, succeeds,
  write_batch, commit_batch,
}
use tallyd.Wal.Replay.{
  File, replayed, replayed_segment, replay_files, open_wal, next_after, files_of,
}
use tallyd.Wal.Recovery.{JsonLaws, index_change, SameIndex, torn_files}
use tallyd.Wal.Recovery.Effects.{settled, changed, id_of, lookup-index_change, index-apply_change}
use tallyd.Wal.Recovery.Opening.{open_wal-index}
use tallyd.Wal.Recovery.Crash.{
  Reach, opened, committed, restarted, Reach-IsRecoverable, index-finish_open, crash_recovery,
}
use tallyd.Wal.Ledger.{
  Ledger, empty_ledger, owe, discharge, struck, strike, nobody, set_of, obligation_of,
  ledger_change, ledger_batch, ledger_of,
}
use tallyd.Wal.Ledger.Sets.{pending_set-SameMembers}

obligation_of-settled :
    (provider : String) (old : Option EntryState)
    → obligation_of (settled provider old) ≡ struck provider (obligation_of old)
unfolding struck strike nobody set_of
obligation_of-settled provider none = refl
obligation_of-settled provider (some e) =
    elim (Bool-cases (is_empty (without provider e.pending))) [
      | inl last ↦ rw last refl
      | inr more ↦ rw more refl
    ]

-- What a change does to one account.
obligation_of-changed :
    (c : Change) (seq : ℕ) (k : String) (i : Map EntryState)
    → obligation_of (changed c seq k (lookup (id_of c) i) (lookup k i))
      ≡ ledger_change c (ledger_of i) k
unfolding ledger_of ledger_change owe discharge set_of
obligation_of-changed (appends e ps) seq k i = elim (Bool-cases (str_eq e.id k)) [
  | inl hit ↦
      rw hit
        (ap (λ o. some (record { event = e; owed = o })) (Quot.sound (pending_set-SameMembers ps)))
  | inr miss ↦ rw miss refl
]
obligation_of-changed (acks id provider) seq k i = elim (Bool-cases (str_eq id k)) [
  | inl hit ↦ rw hit (obligation_of-settled provider (lookup id i))
  | inr miss ↦ rw miss refl
]

ledger_of-index_change :
    (c : Change) (seq : ℕ) (i : Map EntryState)
    → ledger_of (index_change c seq i) ≡ ledger_change c (ledger_of i)
unfolding ledger_of
ledger_of-index_change c seq i t k =
    (ap obligation_of (lookup-index_change c seq i k) ∙ obligation_of-changed c seq k i) t

ledger_of-apply_change :
    (c : Change) (seq : ℕ) (w : Wal)
    → ledger_of (apply_change c seq w).index ≡ ledger_change c (ledger_of w.index)
ledger_of-apply_change c seq w =
    ap ledger_of (index-apply_change c seq w) ∙ ledger_of-index_change c seq w.index

ledger_of-apply_requests :
    (sync_ok : Bool) (rs : List (Request × Faults)) (os : List Outcome) (w : Wal)
    → let (w', answers) = apply_requests sync_ok rs os w in
      ledger_of w'.index ≡ ledger_batch rs answers (ledger_of w.index)
unfolding apply_requests ledger_batch
ledger_of-apply_requests sync_ok [] os w = refl
ledger_of-apply_requests sync_ok (r ∷ rs) [] w = refl
ledger_of-apply_requests sync_ok ((req, faults) ∷ rs) (o ∷ os) w =
    elim (Bool-cases (succeeds sync_ok o)) [
      | inl fine ↦ rw fine (
          ledger_of-apply_requests sync_ok rs os (apply_change req.change o.seg_seq w)
          ∙ ap (ledger_batch rs _) (ledger_of-apply_change req.change o.seg_seq w))
      | inr refused ↦ rw refused (ledger_of-apply_requests sync_ok rs os w)
    ]

-- A batch does to the ledger exactly the changes of the requests that it answers with a nil error,
-- in their order, whichever rotations, writes and syncs fail and whichever segments are deleted: an
-- append enters the event with its providers and replaces what was owed under the same id, an ack
-- strikes its provider, and the last one closes the account. The ledger forgets the order of a Go
-- map, the segments and the files.
pub commit_batch-ledger :
    (batch : List (Request × Faults)) (sync_ok : Bool) (w : Wal)
    → let (w', answers) = commit_batch batch sync_ok w in
      ledger_of w'.index ≡ ledger_batch batch answers (ledger_of w.index)
unfolding commit_batch write_batch gc_segments
commit_batch-ledger batch sync_ok w =
    ledger_of-apply_requests sync_ok batch (write_batch batch w).outcomes _

-- The ledger of a history: what its answered requests did to the empty one. A restart does nothing.
unfoldable pub history : {json : Json} {w : Wal} → Reach json w → Ledger
history (opened ms mb e) = empty_ledger
history (committed {w = w} batch clean r) =
    ledger_batch batch (commit_batch batch true w).1 (history r)
history (restarted ms mb r e) = history r

pub SameIndex-ledger : (i j : Map EntryState) → SameIndex i j → ledger_of i ≡ ledger_of j
unfolding ledger_of
SameIndex-ledger i j same t k = ap obligation_of (same k) t

-- The index that Open makes is what the files replay to.
opened_ledger :
    (json : Json) (ms mb : ℕ) (fs : List File) (w : Wal) (i : Map EntryState)
    → replay_files json fs [] ≡ replayed i
    → open_wal json ms mb fs ≡ replayed w
    → ledger_of w.index ≡ ledger_of i
opened_ledger json ms mb fs w i back e =
    let (j, e₁, e₂) = open_wal-index json ms mb fs w e in
    let same : j ≡ i = ground arith in
    ap (λ (v : Wal). ledger_of v.index) e₂
    ∙ ap ledger_of (index-finish_open ms mb j (next_after fs 0) (gc (map (replayed_segment j) fs)))
    ∙ ap ledger_of same

nothing_owed : ledger_of [] ≡ empty_ledger
unfolding ledger_of lookup
nothing_owed = refl

pub history_lem :
    {json : Json} {w : Wal} (laws : JsonLaws json) (r : Reach json w)
    → ledger_of w.index ≡ history r
unfolding history replay_files
history_lem {json} {w} laws (opened ms mb e) =
    opened_ledger json ms mb [] w [] refl e ∙ nothing_owed
history_lem {json} laws (committed {w = w} batch clean r) =
    commit_batch-ledger batch true w
    ∙ ap (ledger_batch batch (commit_batch batch true w).1) (history_lem laws r)
history_lem {json} laws (restarted ms mb {w = w} {w' = w'} r e) =
    let (i, back, same) = (Reach-IsRecoverable laws r).content in
    opened_ledger json ms mb (files_of w.segments) w' i back e
    ∙ SameIndex-ledger i w.index same
    ∙ history_lem laws r

-- The log refines its ledger across crashes, where encoding/json reads back what it has written.
-- Take any history of restarts and of batches in which rotations may fail, and writes before their
-- first byte, but not the final fsync, and a crash before the last byte of the next frame, whose body
-- is shorter than 2^32 bytes. Then Open on the files that are left
-- returns, and the ledger of the new process is what the answered requests of the whole history, in
-- their order, make of the empty ledger: no accepted event is missing, no resolved one is back, and
-- each is owed to exactly the providers that have not resolved it.
crash-history :
    {json : Json} {w : Wal} (laws : JsonLaws json) (torn : DecodedRecord) (cut ms mb : ℕ)
    → (r : Reach json w) → suc (length torn.payload) < 2 ^ 32
    → cut < length (encode_frame torn.rec_type torn.payload)
    → (w' : Wal) × (open_wal json ms mb
          (torn_files (take cut (encode_frame torn.rec_type torn.payload)) (files_of w.segments))
        ≡ replayed w')
      × (ledger_of w'.index ≡ history r)
crash-history {json} {w} laws torn cut ms mb r fits h =
    let (w', opens, same) = crash_recovery laws torn cut ms mb r fits h in
    (w', opens, SameIndex-ledger w'.index w.index same ∙ history_lem laws r)
