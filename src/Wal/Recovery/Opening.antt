-- ===== src/Wal/Recovery/Opening.antt =====
-- Open of wal.go: the state that it builds from the files satisfies the invariant.
use tallyd.Base.{
  ℕ, suc, ◌≤◌, ◌≡◌, refl, ◌∙◌, inl, inr, String, true, Option, none, some, List, [], ◌∷◌, map, Map,
  lookup, insert, Unique, delete-Unique, insert-Unique, arith, Bool-cases, le→ltb,
}
use tallyd.Wal.Log.{Wal, Segment, EntryState, gc, without, is_empty, pending_set}
use tallyd.Wal.Commit.{Json, Change, appends, acks, update_active, create_segment}
use tallyd.Wal.Replay.{
  File, replayed, replay_event, replay_ack, settle, replay_files, next_after, seg_ref_count,
  replayed_segment, open_for_append, finish_open, open_wal,
}
use tallyd.Wal.Counting.{
  Ascending, Counted, AllHomed, has, delete-AllHomed, lookup-AllHomed, AllHomed-mono,
}
use tallyd.Wal.Invariant.{IsNonempty, IsValid}
use tallyd.Wal.Writes.{
  KeepsHead, update_active-Ascending, update_active-Counted, has-update_active,
  update_active-IsNonempty,
}
use tallyd.Wal.Batches.{SegmentsSound, gc-SegmentsSound}
use tallyd.Wal.Recovery.{index_change}
use tallyd.Wal.Recovery.Replaying.{>>=-eq-replayed, AllFiles, files_keep}

-- The listing sorts the files by number.
abbrev pub AscendingFiles : ℕ → List File → Type 0
AscendingFiles lo [] = Unit {0}
AscendingFiles lo (f ∷ fs) = (lo ≤ f.seq) × AscendingFiles (suc f.seq) fs

-- One entry to an id, each in one of the segments.
record IsPlaced (ss : List Segment) (i : Map EntryState) : Type 0 where
  unique : Unique i
  homed : AllHomed ss i

module _ (ss : List Segment) (seq : ℕ) (home : has seq ss ≡ true) where
  settle-IsPlaced :
      (id provider : String) (old : Option EntryState) (i : Map EntryState)
      → lookup id i ≡ old
      → IsPlaced ss i
      → IsPlaced ss (settle id provider old i)
  unfolding settle insert
  settle-IsPlaced id provider none i e p = p
  settle-IsPlaced id provider (some old) i e p =
      elim (Bool-cases (is_empty (without provider old.pending))) [
        | inl last ↦
            rw last record {
              unique = delete-Unique id i p.unique;
              homed = delete-AllHomed ss id i p.homed;
            }
        | inr more ↦ rw more record {
          unique =
              insert-Unique id (record old { pending = without provider old.pending }) i p.unique;
          homed = (lookup-AllHomed ss id old i p.homed e, delete-AllHomed ss id i p.homed);
        }
      ]

  index_change-IsPlaced :
      (c : Change) (i : Map EntryState) → IsPlaced ss i → IsPlaced ss (index_change c seq i)
  unfolding index_change replay_event replay_ack insert
  index_change-IsPlaced (appends ev ps) i p = record {
    unique =
        insert-Unique ev.id (record { event = ev; pending = pending_set ps; seg_seq = seq }) i
          p.unique;
    homed = (home, delete-AllHomed ss ev.id i p.homed);
  }
  index_change-IsPlaced (acks id provider) i p = settle-IsPlaced id provider (lookup id i) i refl p

abbrev FilesIn : List Segment → List File → Type 0
FilesIn ss = AllFiles (λ n. has n ss ≡ true)

module _ (index : Map EntryState) where
  FilesIn-mono :
      (s : Segment) (ss : List Segment) (fs : List File) → FilesIn ss fs → FilesIn (s ∷ ss) fs
  FilesIn-mono s ss [] h = tt
  FilesIn-mono s ss (f ∷ fs) h = (ground arith, FilesIn-mono s ss fs h.1)

  own_segments : (fs : List File) → FilesIn (map (replayed_segment index) fs) fs
  unfolding replayed_segment
  own_segments [] = tt
  own_segments (f ∷ fs) = (
    ground arith,
    FilesIn-mono (replayed_segment index f) (map (replayed_segment index) fs) fs (own_segments fs),
  )

  map-Ascending :
      (n : ℕ) (fs : List File)
      → AscendingFiles n fs
      → Ascending n (map (replayed_segment index) fs) (next_after fs n)
  unfolding replayed_segment next_after
  map-Ascending n [] a = omega arith
  map-Ascending n (f ∷ fs) a = rw (le→ltb f.seq n a.0) (a.0, map-Ascending (suc f.seq) fs a.1)

  pub map-Counted :
      (fs : List File) → Counted (λ n. seg_ref_count n index) (map (replayed_segment index) fs)
  unfolding replayed_segment
  map-Counted [] = tt
  map-Counted (f ∷ fs) = (refl, map-Counted fs)

pub gc-IsNonempty : (ss : List Segment) → IsNonempty ss → IsNonempty (gc ss)
unfolding gc
gc-IsNonempty [] h = h
gc-IsNonempty (s ∷ []) h = tt
gc-IsNonempty (s ∷ t ∷ ss) h = ground (arith, gc-IsNonempty (t ∷ ss) tt)

open-KeepsHead : KeepsHead open_for_append
unfolding open_for_append
open-KeepsHead s = (refl, refl)

finish_open-IsValid :
    (ms mb : ℕ) (index : Map EntryState) (next : ℕ) (ss : List Segment)
    → Unique index
    → SegmentsSound 0 next index ss
    → IsValid (finish_open ms mb index next ss)
unfolding finish_open
finish_open-IsValid ms mb index next [] u v = absurd v.nonempty
finish_open-IsValid ms mb index next (s ∷ ss) u v =
    let k = open-KeepsHead in
    record {
      unique = u;
      nonempty = update_active-IsNonempty open_for_append k (s ∷ ss) tt;
      ascending = update_active-Ascending open_for_append k 0 next (s ∷ ss) v.ascending;
      counted = update_active-Counted open_for_append k _ (s ∷ ss) v.counted;
      homed =
          AllHomed-mono (s ∷ ss) (update_active open_for_append (s ∷ ss)) index
            (λ n h. has-update_active open_for_append k n (s ∷ ss) ∙ h) v.homed;
    }

-- A fresh directory.
empty_open-IsValid : (ms mb : ℕ) → IsValid (finish_open ms mb [] 0 [])
unfolding finish_open create_segment seg_ref_count
empty_open-IsValid ms mb = record {
  unique = tt;
  nonempty = tt;
  ascending = omega arith;
  counted = (refl, tt);
  homed = tt;
}

-- The index that Open builds, and the rest of the state from it.
pub open_wal-index :
    (json : Json) (ms mb : ℕ) (fs : List File) (w : Wal)
    → open_wal json ms mb fs ≡ replayed w
    → (j : Map EntryState) × (replay_files json fs [] ≡ replayed j)
      × (w ≡ finish_open ms mb j (next_after fs 0) (gc (map (replayed_segment j) fs)))
unfolding open_wal
open_wal-index json ms mb fs w e =
    let (j, e₁, e₂) = >>=-eq-replayed (replay_files json fs []) _ e in (j, e₁, ground arith)

-- Whatever the files hold, as long as the listing is sorted: if Open returns a log, its state
-- satisfies the invariant. The counts that it takes from the replayed index are right, the numbers
-- rise below the next one, and no unresolved entry has lost its segment to the deletion at startup.
pub open_wal-IsValid :
    (json : Json) (ms mb : ℕ) (fs : List File) (w : Wal)
    → AscendingFiles 0 fs
    → open_wal json ms mb fs ≡ replayed w
    → IsValid w
unfolding replay_files next_after gc
open_wal-IsValid json ms mb [] w a e =
    let (j, e₁, e₂) = open_wal-index json ms mb [] w e in
    let empty : [] ≡ j = ground arith in rw (e₂, ← empty) (empty_open-IsValid ms mb)
open_wal-IsValid json ms mb (f ∷ fs) w a e =
    let (j, e₁, e₂) = open_wal-index json ms mb (f ∷ fs) w e in
    let ss = map (replayed_segment j) (f ∷ fs) in
    let placed =
      files_keep json (IsPlaced ss) (λ n. has n ss ≡ true)
        (λ seq c i home. index_change-IsPlaced ss seq home c i) (f ∷ fs) [] j
        (own_segments j (f ∷ fs)) (record { unique = tt; homed = tt }) e₁ in
    rw e₂ (
      finish_open-IsValid ms mb j (next_after (f ∷ fs) 0) (gc ss) placed.unique (
        gc-SegmentsSound 0 (next_after (f ∷ fs) 0) j ss (record {
          nonempty = tt;
          ascending = map-Ascending j 0 (f ∷ fs) a;
          counted = map-Counted j (f ∷ fs);
          homed = placed.homed;
        })))
