-- ===== src/Wal/Writes.antt =====
-- The write loop of commitBatch (wal.go) on the list of segments: numbers, counts and homes.
use tallyd.Base.{
  ℕ, suc, ◌+◌, ◌≡◌, refl, sym, ap, ◌∙◌, ◌⊎◌, inl, inr, Bool, true, false, ◌||◌, Option, List, [],
  ◌∷◌, ◌++◌, map, ◌==◌, pos, Map, arith, Bool-cases, ltb, length,
}
use tallyd.Wal.Log.{Segment, EntryState}
use tallyd.Wal.Commit.{
  Request, Faults, Outcome, Writing, update_active, active_size, active_seq, segment_append,
  segment_sync, create_segment, written, write_active, rotate, mark_synced, write_request,
  write_requests, final_sync,
}
use tallyd.Wal.Replay.{seg_ref_count}
use tallyd.Wal.Counting.{Ascending, Counted, AllHomed, has, AllHomed-mono, seg_ref_count_fresh}
use tallyd.Wal.Invariant.{IsNonempty}

-- A change of a segment that leaves its number and its count alone.
abbrev pub KeepsHead : (Segment → Segment) → Type 0
KeepsHead f = (s : Segment) → ((f s).seq ≡ s.seq) × ((f s).ref_count ≡ s.ref_count)

pub append-KeepsHead : (frame : List ℕ) → KeepsHead (segment_append frame)
unfolding segment_append
append-KeepsHead frame s = (refl, refl)

pub sync-KeepsHead : KeepsHead segment_sync
unfolding segment_sync
sync-KeepsHead s = (refl, refl)

module _ (f : Segment → Segment) (k : KeepsHead f) where
  pub update_active-Ascending :
      (lo hi : ℕ) (ss : List Segment) → Ascending lo ss hi → Ascending lo (update_active f ss) hi
  unfolding update_active
  update_active-Ascending lo hi [] a = a
  update_active-Ascending lo hi (s ∷ []) a = ground (arith, k s)
  update_active-Ascending lo hi (s ∷ t ∷ ss) a =
      (a.0, update_active-Ascending (suc s.seq) hi (t ∷ ss) a.1)

  pub update_active-Counted :
      (c : ℕ → ℕ) (ss : List Segment) → Counted c ss → Counted c (update_active f ss)
  unfolding update_active
  update_active-Counted c [] h = tt
  update_active-Counted c (s ∷ []) h = ((k s).1 ∙ h.0 ∙ ap (λ n. pos (c n)) (sym (k s).0), tt)
  update_active-Counted c (s ∷ t ∷ ss) h = (h.0, update_active-Counted c (t ∷ ss) h.1)

  pub has-update_active : (n : ℕ) (ss : List Segment) → has n (update_active f ss) ≡ has n ss
  unfolding update_active
  has-update_active n [] = refl
  has-update_active n (s ∷ []) = rw ((k s).0)
  has-update_active n (s ∷ t ∷ ss) = ap (λ b. s.seq == n || b) (has-update_active n (t ∷ ss))

  pub update_active-IsNonempty :
      (ss : List Segment) → IsNonempty ss → IsNonempty (update_active f ss)
  unfolding update_active
  update_active-IsNonempty [] h = h
  update_active-IsNonempty (s ∷ []) h = tt
  update_active-IsNonempty (s ∷ t ∷ ss) h = tt

-- A new segment at the end.
snoc-Ascending :
    (lo hi : ℕ) (ss : List Segment)
    → Ascending lo ss hi
    → Ascending lo (ss ++ create_segment hi ∷ []) (suc hi)
unfolding create_segment
snoc-Ascending lo hi [] a = ground arith
snoc-Ascending lo hi (s ∷ ss) a = (a.0, snoc-Ascending (suc s.seq) hi ss a.1)

snoc-Counted :
    (c : ℕ → ℕ) (hi : ℕ) (ss : List Segment)
    → c hi ≡ 0
    → Counted c ss
    → Counted c (ss ++ create_segment hi ∷ [])
unfolding create_segment
snoc-Counted c hi [] z h = (ap pos (sym z), tt)
snoc-Counted c hi (s ∷ ss) z h = (h.0, snoc-Counted c hi ss z h.1)

has_snoc : (n : ℕ) (t : Segment) (ss : List Segment) → has n ss ≡ true → has n (ss ++ t ∷ []) ≡ true
has_snoc n t [] h = ground arith
has_snoc n t (s ∷ ss) h = ground (arith, has_snoc n t ss)

pub snoc-IsNonempty : (t : Segment) (ss : List Segment) → IsNonempty (ss ++ t ∷ [])
snoc-IsNonempty t [] = tt
snoc-IsNonempty t (s ∷ ss) = tt

has-active_seq : (ss : List Segment) → IsNonempty ss → has (active_seq ss) ss ≡ true
unfolding active_seq
has-active_seq [] h = absurd h
has-active_seq (s ∷ []) h = ground arith
has-active_seq (s ∷ t ∷ ss) h = ground (arith, has-active_seq (t ∷ ss) tt)

-- A request that was written was written to one of the segments.
abbrev pub OutcomesHomed : List Segment → List Outcome → Type 0
OutcomesHomed ss [] = Unit {0}
OutcomesHomed ss (o ∷ os) = ((o.write_err ≡ true) ⊎ (has o.seg_seq ss ≡ true)) × OutcomesHomed ss os

pub OutcomesHomed-mono :
    (ss ts : List Segment) (os : List Outcome)
    → ((n : ℕ) → has n ss ≡ true → has n ts ≡ true)
    → OutcomesHomed ss os
    → OutcomesHomed ts os
OutcomesHomed-mono ss ts [] up h = tt
OutcomesHomed-mono ss ts (o ∷ os) up (inl e, h) = (inl e, OutcomesHomed-mono ss ts os up h)
OutcomesHomed-mono ss ts (o ∷ os) up (inr e, h) =
    (inr (up o.seg_seq e), OutcomesHomed-mono ss ts os up h)

OutcomesHomed-snoc :
    (ss : List Segment) (os : List Outcome) (o : Outcome)
    → OutcomesHomed ss os
    → (o.write_err ≡ true) ⊎ (has o.seg_seq ss ≡ true)
    → OutcomesHomed ss (os ++ o ∷ [])
OutcomesHomed-snoc ss [] o h e = (e, tt)
OutcomesHomed-snoc ss (p ∷ os) o h e = (h.0, OutcomesHomed-snoc ss os o h.1 e)

OutcomesHomed-mark :
    (ss : List Segment) (os : List Outcome)
    → OutcomesHomed ss os
    → OutcomesHomed ss (map mark_synced os)
unfolding mark_synced
OutcomesHomed-mark ss [] h = tt
OutcomesHomed-mark ss (o ∷ os) h = ground (arith, OutcomesHomed-mark ss os h.1)

-- The write loop leaves the index alone; its own part of the invariant.
pub record IsSound (index : Map EntryState) (st : Writing) : Type 0 where
  pub nonempty : IsNonempty st.segments
  pub ascending : Ascending 0 st.segments st.next_seq
  pub counted : Counted (λ n. seg_ref_count n index) st.segments
  pub homed : AllHomed st.segments index
  pub outcomes_homed : OutcomesHomed st.segments st.outcomes

module _ (index : Map EntryState) where
  write_active-IsSound :
      (frame : List ℕ) (fault : Option ℕ) (st : Writing)
      → IsSound index st
      → IsSound index (write_active frame fault st)
  unfolding write_active
  write_active-IsSound frame fault st v =
      let f = segment_append (written fault frame) in
      let k = append-KeepsHead (written fault frame) in
      let up = λ (n : ℕ) (h : has n st.segments ≡ true). has-update_active f k n st.segments ∙ h in
      record {
        nonempty = update_active-IsNonempty f k st.segments v.nonempty;
        ascending = update_active-Ascending f k 0 st.next_seq st.segments v.ascending;
        counted = update_active-Counted f k _ st.segments v.counted;
        homed = AllHomed-mono st.segments (update_active f st.segments) index up v.homed;
        outcomes_homed =
            OutcomesHomed-snoc (update_active f st.segments) st.outcomes _
              (OutcomesHomed-mono st.segments (update_active f st.segments) st.outcomes up
                v.outcomes_homed)
              (inr (up (active_seq st.segments) (has-active_seq st.segments v.nonempty)));
      }

  rotate-IsSound : (st : Writing) → IsSound index st → IsSound index (rotate st)
  unfolding rotate
  rotate-IsSound st v =
      let old = update_active segment_sync st.segments in
      let ascending =
        update_active-Ascending segment_sync sync-KeepsHead 0 st.next_seq st.segments v.ascending in
      let new = create_segment st.next_seq in
      let up = λ (n : ℕ) (h : has n st.segments ≡ true).
        has_snoc n new old (has-update_active segment_sync sync-KeepsHead n st.segments ∙ h) in
      let fresh =
        seg_ref_count_fresh st.next_seq st.next_seq st.segments index v.ascending v.homed
          (omega arith) in
      record {
        nonempty = snoc-IsNonempty new old;
        ascending = snoc-Ascending 0 st.next_seq old ascending;
        counted =
            snoc-Counted (λ n. seg_ref_count n index) st.next_seq old fresh
              (update_active-Counted segment_sync sync-KeepsHead _ st.segments v.counted);
        homed = AllHomed-mono st.segments (old ++ new ∷ []) index up v.homed;
        outcomes_homed =
            OutcomesHomed-mark (old ++ new ∷ []) st.outcomes
              (OutcomesHomed-mono st.segments (old ++ new ∷ []) st.outcomes up v.outcomes_homed);
      }

  write_request-IsSound :
      (limit : ℕ) (r : Request × Faults) (st : Writing)
      → IsSound index st
      → IsSound index (write_request limit r st)
  unfolding write_request
  write_request-IsSound limit (req, faults) st v =
      elim (Bool-cases (ltb limit (active_size st.segments + length req.frame))) [
        | inr fits ↦ rw fits (write_active-IsSound req.frame faults.write_fails st v)
        | inl full ↦ elim (Bool-cases faults.rotate_fails) [
          | inr turns ↦
              rw (full, turns)
                (write_active-IsSound req.frame faults.write_fails (rotate st)
                  (rotate-IsSound st v))
          | inl stuck ↦
              rw (full, stuck)
                record {
                  nonempty = v.nonempty;
                  ascending = v.ascending;
                  counted = v.counted;
                  homed = v.homed;
                  outcomes_homed =
                      OutcomesHomed-snoc st.segments st.outcomes _ v.outcomes_homed (inl refl);
                }
        ]
      ]

  pub write_requests-IsSound :
      (limit : ℕ) (rs : List (Request × Faults)) (st : Writing)
      → IsSound index st
      → IsSound index (write_requests limit rs st)
  unfolding write_requests
  write_requests-IsSound limit [] st v = v
  write_requests-IsSound limit (r ∷ rs) st v =
      write_requests-IsSound limit rs (write_request limit r st)
        (write_request-IsSound limit r st v)

  pub final_sync-IsSound :
      (sync_ok : Bool) (st : Writing)
      → IsSound index st
      → IsSound index (record st { segments = final_sync sync_ok st.segments })
  unfolding final_sync
  final_sync-IsSound true st v =
      let ss = update_active segment_sync st.segments in
      let up = λ (n : ℕ) (h : has n st.segments ≡ true).
        has-update_active segment_sync sync-KeepsHead n st.segments ∙ h in
      record {
        nonempty = update_active-IsNonempty segment_sync sync-KeepsHead st.segments v.nonempty;
        ascending =
            update_active-Ascending segment_sync sync-KeepsHead 0 st.next_seq st.segments
              v.ascending;
        counted = update_active-Counted segment_sync sync-KeepsHead _ st.segments v.counted;
        homed = AllHomed-mono st.segments ss index up v.homed;
        outcomes_homed = OutcomesHomed-mono st.segments ss st.outcomes up v.outcomes_homed;
      }
  final_sync-IsSound false st v = v
