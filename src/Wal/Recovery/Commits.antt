-- ===== src/Wal/Recovery/Commits.antt =====
-- A batch of internal/wal/wal.go whose failures leave no bytes keeps the files and the index in step.
use tallyd.Base.{
  ℕ, ◌≡◌, refl, ap, ◌∙◌, inl, inr, Bool, true, Option, none, some, List, [], ◌∷◌, ℤ, String, Map,
  lookup, arith, Bool-cases, is_zero_ℤ, inc_ℤ, dec_ℤ,
}
use tallyd.Wal.Log.{
  Wal, Segment, EntryState, adjust, apply_append, apply_ack, incref_segment, decref_segment,
  release, resolve_entry, gc,
}
use tallyd.Wal.Commit.{
  Json, Change, appends, acks, apply_change, Request, Faults, Outcome, succeeds, apply_requests,
}
use tallyd.Wal.Replay.{replayed, replay_files, files_of}
use tallyd.Wal.Invariant.{IsValid}
use tallyd.Wal.Recovery.{SameIndex, AllWhole}
use tallyd.Wal.Recovery.Effects.{index-apply_change, index_change-SameIndex}
use tallyd.Wal.Recovery.Frames.{places, placed_change, effects}

-- The files of a log hold whole frames, and replay to the index that it has in memory.
pub record IsRecoverable (json : Json) (w : Wal) : Type 0 where
  pub valid : IsValid w
  pub whole : AllWhole (files_of w.segments)
  pub content :
      (j : Map EntryState) × (replay_files json (files_of w.segments) [] ≡ replayed j)
      × SameIndex j w.index

-- The changes in memory write no file.
files_of-adjust :
    (f : ℤ → ℤ) (seq : ℕ) (ss : List Segment) → files_of (adjust f seq ss) ≡ files_of ss
unfolding files_of adjust
files_of-adjust f seq [] = refl
files_of-adjust f seq (s ∷ ss) = ground (arith, files_of-adjust f seq ss)

files_of-release :
    (old : Option EntryState) (w : Wal) → files_of (release old w).segments ≡ files_of w.segments
unfolding release decref_segment
files_of-release none w = refl
files_of-release (some prev) w = files_of-adjust dec_ℤ prev.seg_seq w.segments

files_of-resolve_entry :
    (id provider : String) (old : Option EntryState) (w : Wal)
    → files_of (resolve_entry id provider old w).segments ≡ files_of w.segments
unfolding resolve_entry
files_of-resolve_entry id provider none w = refl
files_of-resolve_entry id provider (some e) w =
    ground (arith, files_of-adjust dec_ℤ e.seg_seq w.segments)

files_of-apply_change :
    (c : Change) (seq : ℕ) (w : Wal)
    → files_of (apply_change c seq w).segments ≡ files_of w.segments
unfolding apply_change apply_append apply_ack incref_segment
files_of-apply_change (appends e ps) seq w =
    files_of-adjust inc_ℤ seq (release (lookup e.id w.index) w).segments
    ∙ files_of-release (lookup e.id w.index) w
files_of-apply_change (acks id provider) seq w =
    files_of-resolve_entry id provider (lookup id w.index) w

pub files_of-apply_requests :
    (sync_ok : Bool) (rs : List (Request × Faults)) (os : List Outcome) (w : Wal)
    → files_of (apply_requests sync_ok rs os w).0.segments ≡ files_of w.segments
unfolding apply_requests
files_of-apply_requests sync_ok [] os w = refl
files_of-apply_requests sync_ok (r ∷ rs) [] w = refl
files_of-apply_requests sync_ok ((req, faults) ∷ rs) (o ∷ os) w =
    elim (Bool-cases (succeeds sync_ok o)) [
      | inl fine ↦ rw fine (
          files_of-apply_requests sync_ok rs os (apply_change req.change o.seg_seq w)
          ∙ files_of-apply_change req.change o.seg_seq w)
      | inr refused ↦ rw refused (files_of-apply_requests sync_ok rs os w)
    ]

pub index-apply_requests :
    (rs : List (Request × Faults)) (os : List Outcome) (w : Wal)
    → (apply_requests true rs os w).0.index ≡ effects rs (places os) w.index
unfolding apply_requests
index-apply_requests [] os w = refl
index-apply_requests (r ∷ rs) [] w = refl
index-apply_requests ((req, faults) ∷ rs) (o ∷ os) w = elim (Bool-cases o.write_err) [
  | inl failed ↦ rw failed (index-apply_requests rs os w)
  | inr fine ↦
      let done : succeeds true o ≡ true = ground arith in
      rw (done, fine)
        (index-apply_requests rs os (apply_change req.change o.seg_seq w)
          ∙ ap (effects rs (places os)) (index-apply_change req.change o.seg_seq w))
]

placed_change-SameIndex :
    (c : Change) (n : Option ℕ) (i j : Map EntryState)
    → SameIndex i j
    → SameIndex (placed_change c n i) (placed_change c n j)
placed_change-SameIndex c none i j same = same
placed_change-SameIndex c (some n) i j same = index_change-SameIndex c n i j same

pub effects-SameIndex :
    (rs : List (Request × Faults)) (ns : List (Option ℕ)) (i j : Map EntryState)
    → SameIndex i j
    → SameIndex (effects rs ns i) (effects rs ns j)
effects-SameIndex [] ns i j same = same
effects-SameIndex (r ∷ rs) [] i j same = same
effects-SameIndex (r ∷ rs) (n ∷ ns) i j same =
    effects-SameIndex rs ns _ _ (placed_change-SameIndex r.0.change n i j same)

pub AllWhole-gc : (ss : List Segment) → AllWhole (files_of ss) → AllWhole (files_of (gc ss))
unfolding files_of gc
AllWhole-gc [] w = w
AllWhole-gc (s ∷ []) w = w
AllWhole-gc (s ∷ t ∷ ss) w = elim (Bool-cases (is_zero_ℤ s.ref_count)) [
  | inr held ↦ rw held w
  | inl free ↦ rw free (AllWhole-gc (t ∷ ss) w.1)
]
