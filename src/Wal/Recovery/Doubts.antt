-- ===== src/Wal/Recovery/Doubts.antt =====
-- What a batch of internal/wal/wal.go leaves in doubt: if its final fsync fails, its frames are in the
-- files, but their changes are not made, and the callers get the error.
use tallyd.Base.{
  ℕ, ◌≡◌, refl, sym, ap, subst, ◌∙◌, inl, inr, String, Bool, true, false, not, ◌&&◌, ◌||◌, List, [],
  ◌∷◌, ◌++◌, str_eq, str_eq-cases, if◌then◌else◌, Map, lookup, arith, Bool-cases,
}
use tallyd.Wal.Log.{Wal, Segment, EntryState, member, gc_segments}
use tallyd.Wal.Commit.{
  Json, Change, appends, acks, Request, Faults, Outcome, apply_change, apply_requests, succeeds,
  final_sync, write_batch, commit_batch,
}
use tallyd.Wal.Replay.{replayed, replay_files, files_of}
use tallyd.Wal.Invariant.{IsValid}
use tallyd.Wal.Batches.{applied_batch, applied_batch-IsValid, commit_batch-IsValid}
use tallyd.Wal.Recovery.{JsonLaws, Clean, index_change, SameOn, AllWhole}
use tallyd.Wal.Recovery.Effects.{id_of, settled, lookup-index_change, index-apply_change}
use tallyd.Wal.Recovery.Appends.{replay_files-sync, AllWhole-sync}
use tallyd.Wal.Recovery.Frames.{places, effects, write_requests-effects}
use tallyd.Wal.Recovery.Commits.{IsRecoverable, files_of-apply_requests, AllWhole-gc}
use tallyd.Wal.Recovery.Drops.{replay-gc-on}

-- A change says nothing of the other ids, and the rest of its effect depends on its own id only.
lookup-index_change-other :
    (c : Change) (n : ℕ) (i : Map EntryState) (k : String)
    → str_eq (id_of c) k ≡ false
    → lookup k (index_change c n i) ≡ lookup k i
lookup-index_change-other (appends e ps) n i k other =
    lookup-index_change (appends e ps) n i k ∙ rw other refl
lookup-index_change-other (acks id p) n i k other =
    lookup-index_change (acks id p) n i k ∙ rw other refl

lookup-index_change-same :
    (c : Change) (n : ℕ) (i j : Map EntryState) (k : String)
    → lookup k i ≡ lookup k j
    → lookup k (index_change c n i) ≡ lookup k (index_change c n j)
lookup-index_change-same (appends e ps) n i j k same =
    rw (lookup-index_change (appends e ps) n i k, lookup-index_change (appends e ps) n j k, same)
      refl
lookup-index_change-same (acks id p) n i j k same = elim (str_eq-cases id k) [
  | inr (other, f) ↦
      lookup-index_change-other (acks id p) n i k f
      ∙ same
      ∙ sym (lookup-index_change-other (acks id p) n j k f)
  | inl (here, t) ↦
      rw (lookup-index_change (acks id p) n i k, lookup-index_change (acks id p) n j k, t, here)
        (ap (settled p) same)
]

-- The ids of the requests that are written, and then answered with an error.
abbrev pub doubtful : Bool → List (Request × Faults) → List Outcome → List String
doubtful sync_ok [] os = []
doubtful sync_ok (r ∷ rs) [] = []
doubtful sync_ok (r ∷ rs) (o ∷ os) =
    let rest = doubtful sync_ok rs os in
    if not o.write_err && not (succeeds sync_ok o) then id_of r.0.change ∷ rest else rest

-- At the other ids, the changes in memory and what is in the files have the same effect.
lookup-apply_requests :
    (sync_ok : Bool) (rs : List (Request × Faults)) (os : List Outcome) (i : Map EntryState)
    (w : Wal) (k : String)
    → member k (doubtful sync_ok rs os) ≡ false
    → lookup k i ≡ lookup k w.index
    → lookup k (effects rs (places os) i) ≡ lookup k (apply_requests sync_ok rs os w).0.index
unfolding apply_requests member
lookup-apply_requests sync_ok [] os i w k sure same = same
lookup-apply_requests sync_ok (r ∷ rs) [] i w k sure same = same
lookup-apply_requests sync_ok ((req, faults) ∷ rs) (o ∷ os) i w k sure same =
    elim (Bool-cases o.write_err) [
      | inl failed ↦ rw failed (lookup-apply_requests sync_ok rs os i w k (rw failed at sure) same)
      | inr fine ↦ elim (Bool-cases (o.synced || sync_ok)) [
        | inl durable ↦
            rw (fine, durable)
              (lookup-apply_requests sync_ok rs os (index_change req.change o.seg_seq i)
                (apply_change req.change o.seg_seq w) k (rw (fine, durable) at sure)
                (lookup-index_change-same req.change o.seg_seq i w.index k same
                  ∙ ap (lookup k) (sym (index-apply_change req.change o.seg_seq w))))
        | inr lost ↦
            let apart : (str_eq (id_of req.change) k || member k (doubtful sync_ok rs os)) ≡ false =
              rw (fine, lost) at sure in
            rw (fine, lost)
              (lookup-apply_requests sync_ok rs os (index_change req.change o.seg_seq i) w k
                (ground arith)
                (lookup-index_change-other req.change o.seg_seq i k (ground arith) ∙ same))
      ]
    ]

member-append :
    (k : String) (xs ys : List String)
    → member k (xs ++ ys) ≡ false
    → (member k xs ≡ false) × (member k ys ≡ false)
unfolding member
member-append k [] ys h = (refl, h)
member-append k (x ∷ xs) ys h =
    let (a, b) = member-append k xs ys (ground arith) in (ground arith, b)

-- The ids that a batch leaves in doubt.
unfoldable pub batch_doubts : List (Request × Faults) → Bool → Wal → List String
batch_doubts batch sync_ok w = doubtful sync_ok batch (write_batch batch w).outcomes

-- The ids that are not in doubt.
abbrev pub Sure : List String → String → Type 0
Sure ids k = member k ids ≡ false

-- The files hold whole frames, and replay to the index in memory except at the ids in doubt.
pub record IsRecoverableBut (json : Json) (ids : List String) (w : Wal) : Type 0 where
  pub valid : IsValid w
  pub whole : AllWhole (files_of w.segments)
  pub content :
      (j : Map EntryState) × (replay_files json (files_of w.segments) [] ≡ replayed j)
      × SameOn (Sure ids) j w.index

replay_files-final_sync :
    (json : Json) (sync_ok : Bool) (ss : List Segment) (i : Map EntryState)
    → replay_files json (files_of (final_sync sync_ok ss)) i ≡ replay_files json (files_of ss) i
unfolding final_sync
replay_files-final_sync json true ss i = replay_files-sync json ss i
replay_files-final_sync json false ss i = refl

AllWhole-final_sync :
    (sync_ok : Bool) (ss : List Segment)
    → AllWhole (files_of ss)
    → AllWhole (files_of (final_sync sync_ok ss))
unfolding final_sync
AllWhole-final_sync true ss whole = AllWhole-sync ss whole
AllWhole-final_sync false ss whole = whole

module _ (json : Json) (laws : JsonLaws json) where
  -- A batch, up to the deletion of segments.
  applied_batch-content :
      (ids : List String) (batch : List (Request × Faults)) (sync_ok : Bool) (w : Wal)
      → Clean json batch
      → IsRecoverableBut json ids w
      → let a = applied_batch batch sync_ok w in
        AllWhole (files_of a.segments)
        × ((j : Map EntryState) × (replay_files json (files_of a.segments) [] ≡ replayed j)
            × SameOn (Sure (batch_doubts batch sync_ok w ++ ids)) j a.index)
  unfolding applied_batch write_batch batch_doubts
  applied_batch-content ids batch sync_ok w clean r =
      let st = write_batch batch w in
      let (j, e, same) = r.content in
      let (ns, c, home, replays) =
        write_requests-effects json laws w.max_segment_bytes batch
          (record { segments = w.segments; next_seq = w.next_seq; outcomes = [] }) clean
          (record { nonempty = r.valid.nonempty; whole = r.whole }) in
      let to = record w { segments = final_sync sync_ok st.segments; next_seq = st.next_seq } in
      let files = files_of-apply_requests sync_ok batch st.outcomes to in
      (
        subst AllWhole (sym files) (AllWhole-final_sync sync_ok st.segments c.whole),
        (
          effects batch ns j,
          ap (λ fs. replay_files json fs []) files
              ∙ replay_files-final_sync json sync_ok st.segments []
              ∙ replays [] j e,
          λ k sure.
              let (here, before) = member-append k (doubtful sync_ok batch st.outcomes) ids sure in
              ap (λ l. lookup k (effects batch l j)) (sym home)
              ∙ lookup-apply_requests sync_ok batch st.outcomes j to k here (same k before),
        ),
      )

  pub commit_batch-IsRecoverableBut :
      (ids : List String) (batch : List (Request × Faults)) (sync_ok : Bool) (w : Wal)
      → Clean json batch
      → IsRecoverableBut json ids w
      → IsRecoverableBut json (batch_doubts batch sync_ok w ++ ids) (commit_batch batch sync_ok w).0
  unfolding commit_batch applied_batch gc_segments
  commit_batch-IsRecoverableBut ids batch sync_ok w clean r =
      let a = applied_batch batch sync_ok w in
      let (whole, (j, e, same)) = applied_batch-content ids batch sync_ok w clean r in
      record {
        valid = commit_batch-IsValid batch sync_ok w r.valid;
        whole = AllWhole-gc a.segments whole;
        content =
            replay-gc-on json (Sure (batch_doubts batch sync_ok w ++ ids)) a.index a.segments j
              (applied_batch-IsValid batch sync_ok w r.valid).counted e same;
      }

pub but_none : {json : Json} {w : Wal} → IsRecoverable json w → IsRecoverableBut json [] w
but_none r =
    let (j, e, same) = r.content in
    record { valid = r.valid; whole = r.whole; content = (j, e, λ k sure. same k) }

-- Nothing is in doubt behind an fsync that succeeds.
doubtful_synced : (rs : List (Request × Faults)) (os : List Outcome) → doubtful true rs os ≡ []
doubtful_synced [] os = refl
doubtful_synced (r ∷ rs) [] = refl
doubtful_synced (r ∷ rs) (o ∷ os) = ground (arith, doubtful_synced rs os)

-- A batch whose failures leave no bytes, with a final fsync that succeeds, keeps the files and the
-- index in step.
pub commit_batch-IsRecoverable :
    (json : Json) (laws : JsonLaws json) (batch : List (Request × Faults)) (w : Wal)
    → Clean json batch
    → IsRecoverable json w
    → IsRecoverable json (commit_batch batch true w).0
unfolding batch_doubts member
commit_batch-IsRecoverable json laws batch w clean r =
    let v = commit_batch-IsRecoverableBut json laws [] batch true w clean (but_none r) in
    let (j, e, same) = v.content in
    let none_in_doubt = doubtful_synced batch (write_batch batch w).outcomes in
    record {
      valid = v.valid;
      whole = v.whole;
      content = (j, e, λ k. same k (rw none_in_doubt refl));
    }
