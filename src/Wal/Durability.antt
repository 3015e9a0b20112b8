-- ===== src/Wal/Durability.antt =====
-- commitBatch of wal.go: a caller that gets a nil error has its frame behind an fsync.
pub mod Placing
use tallyd.Base.{
  ℕ, suc, ◌+◌, ◌≡◌, refl, sym, ap, ◌∙◌, subst, inl, inr, Bool, true, false, not, ◌&&◌, ◌||◌, Option,
  none, some, List, [], ◌∷◌, ◌++◌, map, ltb, if◌then◌else◌, length, take, arith, append_assoc,
  append-nil, Bool-cases, Option-cases,
}
use tallyd.Wal.Log.{Wal, Segment}
use tallyd.Wal.Commit.{
  Request, Faults, Outcome, Writing, update_active, active_size, active_seq, segment_append,
  segment_sync, create_segment, written, fails, write_active, mark_synced, rotate, write_request,
  write_requests, final_sync, succeeds, apply_requests, apply_change, write_batch, commit_batch,
}
use tallyd.Wal.Invariant.{IsNonempty}
use tallyd.Wal.Writes.{update_active-IsNonempty, snoc-IsNonempty, append-KeepsHead, sync-KeepsHead}
use tallyd.Wal.Durability.Placing.{
  Durable, InActive, Grows, append-Grows, sync-Grows, Durable-Grows, InActive-append, InActive-sync,
  Durable-more, InActive-new,
}

-- What an outcome of the write loop, `write_err` and `synced`, says of the frame.
abbrev Stored : Bool → Bool → List ℕ → List Segment → Type 0
Stored true synced frame ss = Unit {0}
Stored false true frame ss = Durable frame ss
Stored false false frame ss = InActive frame ss

abbrev AllStored : List (Request × Faults) → List Outcome → List Segment → Type 0
AllStored [] [] ss = Unit {0}
AllStored [] (o ∷ os) ss = ⊥
AllStored (r ∷ rs) [] ss = ⊥
AllStored ((r, faults) ∷ rs) (o ∷ os) ss =
    Stored o.write_err o.synced r.frame ss × AllStored rs os ss

AllStored-map :
    (ss ss' : List Segment)
    → ((err synced : Bool) (frame : List ℕ)
        → Stored err synced frame ss
        → Stored err synced frame ss')
    → (rs : List (Request × Faults)) (os : List Outcome) → AllStored rs os ss
    → AllStored rs os ss'
AllStored-map ss ss' f [] [] h = tt
AllStored-map ss ss' f [] (o ∷ os) h = h
AllStored-map ss ss' f (r ∷ rs) [] h = h
AllStored-map ss ss' f ((r, faults) ∷ rs) (o ∷ os) (h, hs) =
    (f o.write_err o.synced r.frame h, AllStored-map ss ss' f rs os hs)

AllStored-snoc :
    (rs : List (Request × Faults)) (os : List Outcome) (r : Request) (faults : Faults) (o : Outcome)
    (ss : List Segment)
    → AllStored rs os ss
    → Stored o.write_err o.synced r.frame ss
    → AllStored (rs ++ (r, faults) ∷ []) (os ++ o ∷ []) ss
AllStored-snoc [] [] r faults o ss h x = (x, tt)
AllStored-snoc [] (o' ∷ os) r faults o ss h x = absurd h
AllStored-snoc (r' ∷ rs) [] r faults o ss h x = absurd h
AllStored-snoc ((r', faults') ∷ rs) (o' ∷ os) r faults o ss (h, hs) x =
    (h, AllStored-snoc rs os r faults o ss hs x)

-- A write leaves the earlier frames where they are.
Stored-append :
    (data_ : List ℕ) (ss : List Segment) (err synced : Bool) (frame : List ℕ)
    → Stored err synced frame ss
    → Stored err synced frame (update_active (segment_append data_) ss)
Stored-append data_ ss true synced frame h = tt
Stored-append data_ ss false true frame h =
    Durable-Grows (segment_append data_) frame ss (append-Grows data_) h
Stored-append data_ ss false false frame h = InActive-append data_ frame ss h

-- The rotation makes every earlier frame durable, and marks it so.
Stored-rotate :
    (ss more : List Segment) (o : Outcome) (frame : List ℕ)
    → Stored o.write_err o.synced frame ss
    → Stored
        (mark_synced o).write_err
        (mark_synced o).synced
        frame
        (update_active segment_sync ss ++ more)
unfolding mark_synced
Stored-rotate ss more o frame h = go o.write_err o.synced h
  where
    go :
        (err synced : Bool)
        → Stored err synced frame ss
        → Stored
            (if err
              then record o { write_err = err; synced = synced }
              else record o { write_err = err; synced = true }).write_err
            (if err
              then record o { write_err = err; synced = synced }
              else record o { write_err = err; synced = true }).synced
            frame
            (update_active segment_sync ss ++ more)
    go true synced h = tt
    go false true h =
        Durable-more frame (update_active segment_sync ss) more
          (Durable-Grows segment_sync frame ss sync-Grows h)
    go false false h =
        Durable-more frame (update_active segment_sync ss) more (InActive-sync frame ss h)

AllStored-rotate :
    (rs : List (Request × Faults)) (os : List Outcome) (ss more : List Segment)
    → AllStored rs os ss
    → AllStored rs (map mark_synced os) (update_active segment_sync ss ++ more)
AllStored-rotate [] [] ss more h = tt
AllStored-rotate [] (o ∷ os) ss more h = h
AllStored-rotate (r ∷ rs) [] ss more h = h
AllStored-rotate ((r, faults) ∷ rs) (o ∷ os) ss more (h, hs) =
    (Stored-rotate ss more o r.frame h, AllStored-rotate rs os ss more hs)

-- The write loop behind the requests `rs`.
record Written (rs : List (Request × Faults)) (st : Writing) : Type 0 where
  nonempty : IsNonempty st.segments
  stored : AllStored rs st.outcomes st.segments

write_active-Written :
    (rs : List (Request × Faults)) (r : Request) (faults : Faults) (fault : Option ℕ) (st : Writing)
    → Written rs st
    → Written (rs ++ (r, faults) ∷ []) (write_active r.frame fault st)
unfolding write_active
write_active-Written rs r faults none st v =
    let old = st.segments in
    let new = update_active (segment_append r.frame) old in
    record {
      nonempty =
          update_active-IsNonempty (segment_append r.frame) (append-KeepsHead r.frame) old
            v.nonempty;
      stored =
          AllStored-snoc rs st.outcomes r faults _ new
            (AllStored-map old new (Stored-append r.frame old) rs st.outcomes v.stored)
            (InActive-new r.frame old v.nonempty);
    }
write_active-Written rs r faults (some n) st v =
    let old = st.segments in
    let part = take n r.frame in
    let new = update_active (segment_append part) old in
    record {
      nonempty =
          update_active-IsNonempty (segment_append part) (append-KeepsHead part) old v.nonempty;
      stored =
          AllStored-snoc rs st.outcomes r faults _ new
            (AllStored-map old new (Stored-append part old) rs st.outcomes v.stored) tt;
    }

rotate-Written :
    (rs : List (Request × Faults)) (st : Writing) → Written rs st → Written rs (rotate st)
unfolding rotate
rotate-Written rs st v = record {
  nonempty = snoc-IsNonempty (create_segment st.next_seq) (update_active segment_sync st.segments);
  stored = AllStored-rotate rs st.outcomes st.segments (create_segment st.next_seq ∷ []) v.stored;
}

write_request-Written :
    (limit : ℕ) (rs : List (Request × Faults)) (r : Request) (faults : Faults) (st : Writing)
    → Written rs st
    → Written (rs ++ (r, faults) ∷ []) (write_request limit (r, faults) st)
unfolding write_request
write_request-Written limit rs r faults st v =
    elim (Bool-cases (ltb limit (active_size st.segments + length r.frame))) [
      | inr fits ↦ rw fits (write_active-Written rs r faults faults.write_fails st v)
      | inl full ↦ rw full (elim (Bool-cases faults.rotate_fails) [
        | inr turns ↦ simp turns (
            write_active-Written rs r faults faults.write_fails (rotate st)
              (rotate-Written rs st v))
        | inl stuck ↦ simp stuck (record {
          nonempty = v.nonempty;
          stored = AllStored-snoc rs st.outcomes r faults _ st.segments v.stored tt;
        })
      ])
    ]

write_requests-Written :
    (limit : ℕ) (rs more : List (Request × Faults)) (st : Writing)
    → Written rs st
    → Written (rs ++ more) (write_requests limit more st)
unfolding write_requests
write_requests-Written limit rs [] st v = rw (append-nil rs) v
write_requests-Written limit rs ((r, faults) ∷ more) st v =
    subst (λ l. Written l (write_requests limit more (write_request limit (r, faults) st)))
      (append_assoc rs ((r, faults) ∷ []) more)
      (write_requests-Written limit (rs ++ (r, faults) ∷ []) more
        (write_request limit (r, faults) st) (write_request-Written limit rs r faults st v))

-- Each caller gets a result, and a nil error only when some segment holds its frame durably.
abbrev pub AllAnswered : List (Request × Faults) → List Bool → List Segment → Type 0
AllAnswered [] [] ss = Unit {0}
AllAnswered [] (b ∷ bs) ss = ⊥
AllAnswered (r ∷ rs) [] ss = ⊥
AllAnswered ((r, faults) ∷ rs) (fine ∷ bs) ss =
    (fine ≡ true → Durable r.frame ss) × AllAnswered rs bs ss

-- The last fsync of the batch.
Stored-final :
    (sync_ok err synced : Bool) (frame : List ℕ) (ss : List Segment)
    → Stored err synced frame ss
    → (not err && (synced || sync_ok)) ≡ true
    → Durable frame (final_sync sync_ok ss)
unfolding final_sync
Stored-final sync_ok true synced frame ss h ok = absurd (ground arith)
Stored-final true false true frame ss h ok = Durable-Grows segment_sync frame ss sync-Grows h
Stored-final false false true frame ss h ok = h
Stored-final true false false frame ss h ok = InActive-sync frame ss h
Stored-final false false false frame ss h ok = absurd (ground arith)

apply_requests-AllAnswered :
    (sync_ok : Bool) (rs : List (Request × Faults)) (os : List Outcome) (ss : List Segment)
    (w : Wal)
    → AllStored rs os ss
    → AllAnswered rs (apply_requests sync_ok rs os w).1 (final_sync sync_ok ss)
unfolding apply_requests
apply_requests-AllAnswered sync_ok [] [] ss w h = tt
apply_requests-AllAnswered sync_ok [] (o ∷ os) ss w h = absurd h
apply_requests-AllAnswered sync_ok (r ∷ rs) [] ss w h = absurd h
apply_requests-AllAnswered sync_ok ((r, faults) ∷ rs) (o ∷ os) ss w (h, hs) = (
  Stored-final sync_ok o.write_err o.synced r.frame ss h,
  apply_requests-AllAnswered sync_ok rs os ss _ hs,
)

-- On a log with a segment, whichever rotations, writes and syncs of a batch fail: each caller gets
-- an answer, and one that gets a nil error has its whole frame in a segment file, before the point
-- up to which an fsync has made that file durable. The files are those at the moment when the
-- callers are answered.
pub commit_batch-AllAnswered :
    (batch : List (Request × Faults)) (sync_ok : Bool) (w : Wal)
    → IsNonempty w.segments
    → AllAnswered batch
        (commit_batch batch sync_ok w).1
        (final_sync sync_ok (write_batch batch w).segments)
unfolding commit_batch write_batch
commit_batch-AllAnswered batch sync_ok w n =
    let start : Writing = record { segments = w.segments; next_seq = w.next_seq; outcomes = [] } in
    let done =
      write_requests-Written w.max_segment_bytes [] batch start
        (record { nonempty = n; stored = tt }) in
    apply_requests-AllAnswered sync_ok batch _ _ _ done.stored
