-- ===== src/Dispatcher/Startup.antt =====
-- The start of the daemon behind a crash: Open of wal.go, then Pending, then ReplayPending of
-- dispatcher.go.
use tallyd.Base.{
  ℕ, suc, ◌^◌, ◌<◌, ◌≡◌, sym, ap, ◌∙◌, subst, ◌⊎◌, inl, inr, String, Bool, true, some, List, [],
  ◌∷◌, ◌++◌, str_eq, eq_iff, Map, lookup, length, take, arith, Bool-cases,
}
use tallyd.Adapter.{Event}
use tallyd.Wal.Record.{DecodedRecord, encode_frame}
use tallyd.Wal.Log.{Wal, EntryState, entries_of, pending_entries, member}
use tallyd.Wal.Commit.{Json}
use tallyd.Wal.Replay.{replayed, files_of, open_wal}
use tallyd.Wal.Recovery.{JsonLaws, torn_files}
use tallyd.Wal.Recovery.Crash.{Reach, crash_recovery}
use tallyd.Dispatcher.{Enqueued, replay_entry, replay_pending}

abbrev pub Enqueues : Enqueued → String → Event → Type 0
Enqueues [] p e = ⊥
Enqueues (x ∷ xs) p e = ((p, e) ≡ x) ⊎ Enqueues xs p e

Enqueues-left :
    (xs ys : Enqueued) (p : String) (e : Event) → Enqueues xs p e → Enqueues (xs ++ ys) p e
Enqueues-left [] ys p e h = absurd h
Enqueues-left (x ∷ xs) ys p e (inl h) = inl h
Enqueues-left (x ∷ xs) ys p e (inr h) = inr (Enqueues-left xs ys p e h)

Enqueues-right :
    (xs ys : Enqueued) (p : String) (e : Event) → Enqueues ys p e → Enqueues (xs ++ ys) p e
Enqueues-right [] ys p e h = h
Enqueues-right (x ∷ xs) ys p e h = inr (Enqueues-right xs ys p e h)

module _ (known : String → Bool) where
  replay_entry-Enqueues :
      (event : Event) (ps : List String) (p : String)
      → member p ps ≡ true
      → known p ≡ true
      → Enqueues (replay_entry known event ps) p event
  unfolding replay_entry member
  replay_entry-Enqueues event [] p h k = absurd (ground arith)
  replay_entry-Enqueues event (q ∷ ps) p h k = elim (Bool-cases (str_eq q p)) [
    | inl same ↦
        let e : q ≡ p = (eq_iff q p).0 same in
        let kq : known q ≡ true = ap known e ∙ k in rw kq (inl (ap (λ x. (x, event)) (sym e)))
    | inr other ↦
        let rest = replay_entry-Enqueues event ps p (ground arith) k in
        elim (Bool-cases (known q)) [ inl kq ↦ rw kq (inr rest) | inr kq ↦ rw kq rest ]
  ]

  pub replay_pending-Enqueues :
      (index : Map EntryState) (k : String) (e : EntryState) (p : String)
      → lookup k index ≡ some e
      → member p e.pending ≡ true
      → known p ≡ true
      → Enqueues (replay_pending known (entries_of index)) p e.event
  unfolding replay_pending entries_of lookup
  replay_pending-Enqueues [] k e p h m c = absurd (ground arith)
  replay_pending-Enqueues ((j, e') ∷ index) k e p h m c = elim (Bool-cases (str_eq j k)) [
    | inl same ↦
        let here : e ≡ e' = ground arith in
        let rest = replay_pending known (entries_of index) in
        subst (λ x. Enqueues (replay_entry known x.event x.pending ++ rest) p e.event) here
          (Enqueues-left (replay_entry known e.event e.pending) rest p e.event
            (replay_entry-Enqueues e.event e.pending p m c))
    | inr other ↦
        Enqueues-right (replay_entry known e'.event e'.pending) _ p e.event
          (replay_pending-Enqueues index k e p (ground arith) m c)
  ]

-- Where encoding/json reads back what it has written, take any log that came about by restarts
-- and by batches in which rotations may fail, and writes before their first byte, but not the final
-- fsync, and a crash before the last byte of the next frame, whose body is
-- shorter than 2^32 bytes. Then the start on the files that are left opens the log, and
-- ReplayPending on its entries puts every event that was unresolved on the queue of each provider
-- it was pending for, if the provider is configured.
startup_redelivers :
    {json : Json} {w : Wal} (laws : JsonLaws json) (known : String → Bool) (torn : DecodedRecord)
    (cut ms mb : ℕ)
    → Reach json w
    → suc (length torn.payload) < 2 ^ 32
    → cut < length (encode_frame torn.rec_type torn.payload)
    → (w' : Wal) × (open_wal json ms mb
          (torn_files (take cut (encode_frame torn.rec_type torn.payload)) (files_of w.segments))
        ≡ replayed w')
      × ((k : String) (e : EntryState) (p : String)
          → lookup k w.index ≡ some e
          → member p e.pending ≡ true
          → known p ≡ true
          → Enqueues (replay_pending known (pending_entries w')) p e.event)
unfolding pending_entries
startup_redelivers {json} {w} laws known torn cut ms mb r fits h =
    let (w', opens, same) = crash_recovery laws torn cut ms mb r fits h in
    (
      w',
      opens,
      λ k e p found m c. replay_pending-Enqueues known w'.index k e p (same k ∙ found) m c,
    )
