-- ===== src/Wal/Recovery/Drops.antt =====
-- gcSegments of wal.go on disk: without its oldest files, which hold no unresolved event, the replay
-- still gives the same index.
use tallyd.Base.{
  ℕ, ◌≡◌, refl, sym, ◌∙◌, inl, inr, Option, none, some, List, [], ◌∷◌, String, Map, lookup, arith,
  Bool-cases, is_zero_ℤ, Option-cases, ◌≢◌,
}
use tallyd.Wal.Record.{DecodedRecord, Scan, decode_records}
use tallyd.Wal.Log.{Segment, EntryState, gc}
use tallyd.Wal.Commit.{Json, Change}
use tallyd.Wal.Replay.{
  File, Replay, replayed, replay_records, replay_scan, replay_file, replay_files, files_of,
  seg_ref_count,
}
use tallyd.Wal.Counting.{Counted}
use tallyd.Wal.Recovery.{SameIndex, SameOn}
use tallyd.Wal.Recovery.Replaying.{>>=-eq-replayed, scan_keeps}
use tallyd.Wal.Recovery.Effects.{
  AllFrom, Stale, optional_change, replay_record-cases, index_change-AllFrom, index_change-Stale,
}

abbrev Returns : Replay (Map EntryState) → (Map EntryState → Type 0) → Type 0
Returns r P = (j : Map EntryState) × (r ≡ replayed j) × P j

optional-Stale :
    (c : Option Change) (seq old : ℕ) (i j : Map EntryState)
    → Stale old i j
    → Stale old (optional_change c seq i) (optional_change c seq j)
optional-Stale none seq old i j h = h
optional-Stale (some c) seq old i j h = index_change-Stale c seq old i j h

module _ (json : Json) where
  records-Stale :
      (seq old : ℕ) (recs : List DecodedRecord) (i i' j : Map EntryState)
      → Stale old i i'
      → replay_records json seq recs i ≡ replayed j
      → Returns (replay_records json seq recs i') (Stale old j)
  unfolding replay_records
  records-Stale seq old [] i i' j h e = (i', refl, ground (arith, h))
  records-Stale seq old (rec ∷ recs) i i' j h e = elim (replay_record-cases json seq rec) [
    | inl stop ↦ absurd (ground (arith, stop i))
    | inr (c, does) ↦ rw (does i') (
        records-Stale seq old recs (optional_change c seq i) (optional_change c seq i') j
          (optional-Stale c seq old i i' h) (rw (does i) at e))
  ]

  scan-Stale :
      (seq old : ℕ) (scan : Scan) (i i' j : Map EntryState)
      → Stale old i i'
      → replay_scan json seq scan i ≡ replayed j
      → Returns (replay_scan json seq scan i') (Stale old j)
  unfolding replay_scan
  scan-Stale seq old (Scan.records recs) i i' j h e = records-Stale seq old recs i i' j h e
  scan-Stale seq old Scan.panics i i' j h e = absurd (ground arith)
  scan-Stale seq old Scan.out_of_fuel i i' j h e = absurd (ground arith)

  files-Stale :
      (old : ℕ) (fs : List File) (i i' j : Map EntryState)
      → Stale old i i'
      → replay_files json fs i ≡ replayed j
      → Returns (replay_files json fs i') (Stale old j)
  unfolding replay_files replay_file
  files-Stale old [] i i' j h e = (i', refl, ground (arith, h))
  files-Stale old (f ∷ fs) i i' j h e =
      let (m, e₁, e₂) = >>=-eq-replayed (replay_file json f i) _ e in
      let (m', e₃, h') = scan-Stale f.seq old (decode_records f.bytes) i i' m h e₁ in
      rw e₃ (files-Stale old fs m m' j h' e₂)

nil-AllFrom : (seq : ℕ) → AllFrom seq []
unfolding lookup
nil-AllFrom seq k e p = ground arith

-- A segment with no entries in the index is nobody's segment.
no_entry :
    (seq : ℕ) (k : String) (e : EntryState) (m : Map EntryState)
    → seg_ref_count seq m ≡ 0
    → lookup k m ≡ some e
    → e.seg_seq ≢ seq
unfolding seg_ref_count lookup
no_entry seq k e [] z p = ground arith
no_entry seq k e ((j, e') ∷ m) z p = ground (arith, no_entry seq k e m)

module _ (json : Json) (K : String → Type 0) (index : Map EntryState) where
  -- The oldest file, without unresolved events, can go.
  drop_oldest :
      (f : File) (fs : List File) (j : Map EntryState)
      → replay_files json (f ∷ fs) [] ≡ replayed j
      → SameOn K j index
      → seg_ref_count f.seq index ≡ 0
      → Returns (replay_files json fs []) (λ j'. SameOn K j' index)
  unfolding replay_files replay_file lookup
  drop_oldest f fs j e same zero_count =
      let (m, e₁, e₂) = >>=-eq-replayed (replay_file json f []) _ e in
      let from =
        scan_keeps json (AllFrom f.seq) f.seq (λ c i. index_change-AllFrom c f.seq i)
          (decode_records f.bytes) [] m (nil-AllFrom f.seq) e₁ in
      let (j', e₃, stale) = files-Stale json f.seq fs m [] j (λ k. inr (refl, from k)) e₂ in
      (
        j',
        e₃,
        λ k here. elim (stale k) [
          | inl eq ↦ sym eq ∙ same k here
          | inr (gone, old) ↦ elim (Option-cases (lookup k j)) [
            | inl absent ↦ gone ∙ sym absent ∙ same k here
            | inr (entry, present) ↦ absurd (
                no_entry f.seq k entry index zero_count (sym (same k here) ∙ present)
                  (old entry present))
          ]
        ],
      )

  -- Where the counts are those of `index`, the files that gcSegments leaves replay to an index that
  -- agrees with it as far as before.
  pub replay-gc-on :
      (ss : List Segment) (j : Map EntryState)
      → Counted (λ n. seg_ref_count n index) ss
      → replay_files json (files_of ss) [] ≡ replayed j
      → SameOn K j index
      → (j' : Map EntryState) × (replay_files json (files_of (gc ss)) [] ≡ replayed j')
        × SameOn K j' index
  unfolding gc files_of
  replay-gc-on [] j counted e same = (j, e, same)
  replay-gc-on (s ∷ []) j counted e same = (j, e, same)
  replay-gc-on (s ∷ t ∷ ss) j counted e same = elim (Bool-cases (is_zero_ℤ s.ref_count)) [
    | inr held ↦ rw held (j, e, same)
    | inl free ↦
        let zero_count : seg_ref_count s.seq index ≡ 0 = ground (arith, counted) in
        let (j', e', same') =
          drop_oldest (record { seq = s.seq; bytes = s.bytes; durable = s.durable })
            (files_of (t ∷ ss)) j e same zero_count in
        rw free (replay-gc-on (t ∷ ss) j' counted.1 e' same')
  ]

-- gcSegments deletes segments whose count is zero, from the oldest on. Where the counts are right
-- (each is the number of unresolved entries of its segment) and the files replay to the index, the
-- files that are left replay to the same index: no resolved event comes back, and no unresolved one
-- is lost.
pub replay-gc :
    (json : Json) (ss : List Segment) (index j : Map EntryState)
    → Counted (λ n. seg_ref_count n index) ss
    → replay_files json (files_of ss) [] ≡ replayed j
    → SameIndex j index
    → (j' : Map EntryState) × (replay_files json (files_of (gc ss)) [] ≡ replayed j')
      × SameIndex j' index
replay-gc json ss index j counted e same =
    let (j', e', same') =
      replay-gc-on json (λ k. Unit {0}) index ss j counted e (λ k here. same k) in
    (j', e', λ k. same' k tt)
