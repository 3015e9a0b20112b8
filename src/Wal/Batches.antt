-- ===== src/Wal/Batches.antt =====
-- commitBatch and gcSegments of wal.go keep the invariant, whatever the operating system refuses.
use tallyd.Base.{
  ℕ, suc, ◌≤◌, ◌≡◌, refl, ◌∙◌, ◌⊎◌, inl, inr, Bool, true, Option, none, some, List, [], ◌∷◌, String,
  Map, lookup, arith, Bool-cases, is_zero_ℤ, inc_ℤ, dec_ℤ,
}
use tallyd.Wal.Log.{
  Wal, Segment, EntryState, apply_append, apply_ack, incref_segment, decref_segment, release,
  resolve_entry, gc, gc_segments,
}
use tallyd.Wal.Commit.{
  Change, appends, acks, apply_change, Request, Faults, Outcome, succeeds, final_sync,
  apply_requests, write_batch, commit_batch,
}
use tallyd.Wal.Replay.{seg_ref_count}
use tallyd.Wal.Counting.{Ascending, Counted, AllHomed, has, has-adjust}
use tallyd.Wal.Invariant.{IsNonempty, IsValid, apply_append-IsValid, apply_ack-IsValid}
use tallyd.Wal.Writes.{
  OutcomesHomed, OutcomesHomed-mono, write_requests-IsSound, final_sync-IsSound,
}

has-release :
    (n : ℕ) (old : Option EntryState) (w : Wal) → has n (release old w).segments ≡ has n w.segments
unfolding release decref_segment
has-release n none w = refl
has-release n (some prev) w = has-adjust dec_ℤ prev.seg_seq n w.segments

has-resolve_entry :
    (n : ℕ) (id provider : String) (old : Option EntryState) (w : Wal)
    → has n (resolve_entry id provider old w).segments ≡ has n w.segments
unfolding resolve_entry
has-resolve_entry n id provider none w = refl
has-resolve_entry n id provider (some e) w = ground (arith, has-adjust dec_ℤ e.seg_seq n w.segments)

-- A change of the state renumbers no segment.
has-apply_change :
    (n : ℕ) (c : Change) (seq : ℕ) (w : Wal)
    → has n (apply_change c seq w).segments ≡ has n w.segments
unfolding apply_change apply_append apply_ack incref_segment
has-apply_change n (appends event providers) seq w =
    has-adjust inc_ℤ seq n (release (lookup event.id w.index) w).segments
    ∙ has-release n (lookup event.id w.index) w
has-apply_change n (acks id provider) seq w = has-resolve_entry n id provider (lookup id w.index) w

apply_change-IsValid :
    (c : Change) (seq : ℕ) (w : Wal)
    → IsValid w
    → has seq w.segments ≡ true
    → IsValid (apply_change c seq w)
unfolding apply_change
apply_change-IsValid (appends event providers) seq w v home =
    apply_append-IsValid w v event providers seq home
apply_change-IsValid (acks id provider) seq w v home = apply_ack-IsValid w v id provider

succeeds_home :
    (sync_ok : Bool) (o : Outcome) (ss : List Segment)
    → (o.write_err ≡ true) ⊎ (has o.seg_seq ss ≡ true)
    → succeeds sync_ok o ≡ true
    → has o.seg_seq ss ≡ true
succeeds_home sync_ok o ss (inl e) h = ground arith
succeeds_home sync_ok o ss (inr e) h = e

apply_requests-IsValid :
    (sync_ok : Bool) (rs : List (Request × Faults)) (os : List Outcome) (w : Wal)
    → IsValid w
    → OutcomesHomed w.segments os
    → IsValid (apply_requests sync_ok rs os w).0
unfolding apply_requests
apply_requests-IsValid sync_ok [] os w v h = v
apply_requests-IsValid sync_ok (r ∷ rs) [] w v h = v
apply_requests-IsValid sync_ok ((req, faults) ∷ rs) (o ∷ os) w v h =
    elim (Bool-cases (succeeds sync_ok o)) [
      | inl fine ↦
          let w' = apply_change req.change o.seg_seq w in
          rw fine (
            apply_requests-IsValid sync_ok rs os w'
              (apply_change-IsValid req.change o.seg_seq w v
                (succeeds_home sync_ok o w.segments h.0 fine))
              (OutcomesHomed-mono w.segments w'.segments os
                (λ n p. has-apply_change n req.change o.seg_seq w ∙ p) h.1))
      | inr refused ↦ rw refused (apply_requests-IsValid sync_ok rs os w v h.1)
    ]

-- A segment without entries is nobody's home.
drop-AllHomed :
    (s : Segment) (ss : List Segment) (m : Map EntryState)
    → seg_ref_count s.seq m ≡ 0
    → AllHomed (s ∷ ss) m
    → AllHomed ss m
unfolding seg_ref_count
drop-AllHomed s ss [] z h = tt
drop-AllHomed s ss ((id, e) ∷ m) z h = ground (arith, drop-AllHomed s ss m)

-- The part of the invariant that speaks of segments.
pub record SegmentsSound (lo hi : ℕ) (index : Map EntryState) (ss : List Segment) : Type 0 where
  pub nonempty : IsNonempty ss
  pub ascending : Ascending lo ss hi
  pub counted : Counted (λ n. seg_ref_count n index) ss
  pub homed : AllHomed ss index

Ascending-weaken :
    (lo lo' hi : ℕ) (ss : List Segment) → lo ≤ lo' → Ascending lo' ss hi → Ascending lo ss hi
Ascending-weaken lo lo' hi [] h a = omega arith
Ascending-weaken lo lo' hi (s ∷ ss) h a = (omega arith, a.1)

pub gc-SegmentsSound :
    (lo hi : ℕ) (index : Map EntryState) (ss : List Segment)
    → SegmentsSound lo hi index ss
    → SegmentsSound lo hi index (gc ss)
unfolding gc
gc-SegmentsSound lo hi index [] v = v
gc-SegmentsSound lo hi index (s ∷ []) v = v
gc-SegmentsSound lo hi index (s ∷ t ∷ ss) v = elim (Bool-cases (is_zero_ℤ s.ref_count)) [
  | inr held ↦ rw held v
  | inl free ↦
      let zero_count : seg_ref_count s.seq index ≡ 0 = ground (arith, v.counted) in
      rw free (
        gc-SegmentsSound lo hi index (t ∷ ss) (record {
          nonempty = tt;
          ascending = Ascending-weaken lo (suc s.seq) hi (t ∷ ss) (omega arith) v.ascending.1;
          counted = v.counted.1;
          homed = drop-AllHomed s (t ∷ ss) index zero_count v.homed;
        }))
]

gc_segments-IsValid : (w : Wal) → IsValid w → IsValid (gc_segments w)
unfolding gc_segments
gc_segments-IsValid w v =
    let g = gc-SegmentsSound 0 w.next_seq w.index w.segments (record {
      nonempty = v.nonempty;
      ascending = v.ascending;
      counted = v.counted;
      homed = v.homed;
    }) in
    record {
      unique = v.unique;
      nonempty = g.nonempty;
      ascending = g.ascending;
      counted = g.counted;
      homed = g.homed;
    }

-- The state of a batch between its second loop and the deletion of segments.
unfoldable pub applied_batch : List (Request × Faults) → Bool → Wal → Wal
applied_batch batch sync_ok w =
    let st = write_batch batch w in
    (apply_requests sync_ok batch st.outcomes
      (record w { segments = final_sync sync_ok st.segments; next_seq = st.next_seq })).0

pub applied_batch-IsValid :
    (batch : List (Request × Faults)) (sync_ok : Bool) (w : Wal)
    → IsValid w
    → IsValid (applied_batch batch sync_ok w)
unfolding applied_batch write_batch
applied_batch-IsValid batch sync_ok w v =
    let st = write_batch batch w in
    let sound =
      write_requests-IsSound w.index w.max_segment_bytes batch
        (record { segments = w.segments; next_seq = w.next_seq; outcomes = [] })
        (record {
          nonempty = v.nonempty;
          ascending = v.ascending;
          counted = v.counted;
          homed = v.homed;
          outcomes_homed = tt;
        }) in
    let synced = final_sync-IsSound w.index sync_ok st sound in
    apply_requests-IsValid sync_ok batch st.outcomes
      (record w { segments = final_sync sync_ok st.segments; next_seq = st.next_seq })
      (record {
        unique = v.unique;
        nonempty = synced.nonempty;
        ascending = synced.ascending;
        counted = synced.counted;
        homed = synced.homed;
      })
      synced.outcomes_homed

-- Every batch keeps the invariant of the state, whichever rotations, writes and syncs fail: one
-- entry to an event id, at least one segment, numbers that rise below the next one, each segment
-- counting exactly the unresolved entries that live in it, and every unresolved entry with its
-- segment still there.
pub commit_batch-IsValid :
    (batch : List (Request × Faults)) (sync_ok : Bool) (w : Wal)
    → IsValid w
    → IsValid (commit_batch batch sync_ok w).0
unfolding commit_batch applied_batch
commit_batch-IsValid batch sync_ok w v =
    gc_segments-IsValid (applied_batch batch sync_ok w) (applied_batch-IsValid batch sync_ok w v)
