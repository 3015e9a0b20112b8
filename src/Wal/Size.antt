-- ===== src/Wal/Size.antt =====
-- TotalBytes of wal.go after Open: which bytes the limit of Append counts.
use tallyd.Base.{
  ℕ, ◌≡◌, refl, sym, ap, ◌∙◌, inl, inr, List, [], ◌∷◌, map, length, is_zero_ℤ, arith, Bool-cases,
  Map,
}
use tallyd.Wal.Log.{Wal, Segment, EntryState, sum_sizes, total_bytes, gc}
use tallyd.Wal.Commit.{Json, create_segment, update_active}
use tallyd.Wal.Replay.{
  File, replayed, replayed_segment, open_for_append, finish_open, open_wal, next_after,
}
use tallyd.Wal.Recovery.Opening.{open_wal-index}

abbrev pub newest_length : List File → ℕ
newest_length [] = 0
newest_length (f ∷ []) = length f.bytes
newest_length (f ∷ g ∷ fs) = newest_length (g ∷ fs)

-- Segments without a size, the newest of which holds `n` bytes.
abbrev Unsized : ℕ → List Segment → Type 0
Unsized n [] = n ≡ 0
Unsized n (s ∷ []) = (s.size ≡ 0) × (length s.bytes ≡ n)
Unsized n (s ∷ t ∷ ss) = (s.size ≡ 0) × Unsized n (t ∷ ss)

map-Unsized :
    (index : Map EntryState) (fs : List File)
    → Unsized (newest_length fs) (map (replayed_segment index) fs)
unfolding replayed_segment
map-Unsized index [] = refl
map-Unsized index (f ∷ []) = (refl, refl)
map-Unsized index (f ∷ g ∷ fs) = (refl, map-Unsized index (g ∷ fs))

gc-Unsized : (n : ℕ) (ss : List Segment) → Unsized n ss → Unsized n (gc ss)
unfolding gc
gc-Unsized n [] h = h
gc-Unsized n (s ∷ []) h = h
gc-Unsized n (s ∷ t ∷ ss) h = elim (Bool-cases (is_zero_ℤ s.ref_count)) [
  | inl free ↦ rw free (gc-Unsized n (t ∷ ss) h.1)
  | inr held ↦ rw held h
]

sum_sizes-reopened :
    (n : ℕ) (s : Segment) (ss : List Segment)
    → Unsized n (s ∷ ss)
    → sum_sizes (update_active open_for_append (s ∷ ss)) ≡ n
unfolding update_active open_for_append
sum_sizes-reopened n s [] h = omega (arith, h.1)
sum_sizes-reopened n s (t ∷ ss) h = omega (arith, h.0, sum_sizes-reopened n t ss h.1)

total_bytes-finish_open :
    (ms mb : ℕ) (index : Map EntryState) (next n : ℕ) (ss : List Segment)
    → Unsized n ss
    → total_bytes (finish_open ms mb index next ss) ≡ n
unfolding finish_open total_bytes create_segment
total_bytes-finish_open ms mb index next n [] h = sym h
total_bytes-finish_open ms mb index next n (s ∷ ss) h = sum_sizes-reopened n s ss h

-- After Open, TotalBytes is the size of the newest file alone, however many older files the log
-- still holds.
pub total_bytes-open_wal :
    (json : Json) (ms mb : ℕ) (fs : List File) (w : Wal)
    → open_wal json ms mb fs ≡ replayed w
    → total_bytes w ≡ newest_length fs
total_bytes-open_wal json ms mb fs w e =
    let (j, e₁, e₂) = open_wal-index json ms mb fs w e in
    ap total_bytes e₂
    ∙ total_bytes-finish_open ms mb j (next_after fs 0) (newest_length fs)
        (gc (map (replayed_segment j) fs))
        (gc-Unsized (newest_length fs) (map (replayed_segment j) fs) (map-Unsized j fs))
