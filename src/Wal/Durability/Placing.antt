-- ===== src/Wal/Durability/Placing.antt =====
-- Where a frame lies in the segments of wal.go, and what a write, an fsync and a rotation do to it.
use tallyd.Base.{
  ℕ, ◌+◌, ◌≤◌, ◌≡◌, refl, sym, ap, ◌∙◌, ◌⊎◌, inl, inr, List, [], ◌∷◌, ◌++◌, length, length-append,
  append_assoc, append-nil, arith,
}
use tallyd.Wal.Log.{Segment}
use tallyd.Wal.Commit.{update_active, segment_append, segment_sync}
use tallyd.Wal.Invariant.{IsNonempty}

-- The frame lies in the segment, from some offset on.
abbrev pub Within : List ℕ → Segment → Type 0
Within frame s = (pre : List ℕ) × (post : List ℕ) × (s.bytes ≡ pre ++ (frame ++ post))

-- It lies there before the point up to which an fsync has made the file durable.
abbrev Fixed : List ℕ → Segment → Type 0
Fixed frame s =
    (pre : List ℕ) × (post : List ℕ) × (s.bytes ≡ pre ++ (frame ++ post))
    × (length pre + length frame ≤ s.durable)

-- Some segment of the log holds the frame durably.
abbrev pub Durable : List ℕ → List Segment → Type 0
Durable frame [] = ⊥
Durable frame (s ∷ ss) = Fixed frame s ⊎ Durable frame ss

abbrev pub InActive : List ℕ → List Segment → Type 0
InActive frame [] = ⊥
InActive frame (s ∷ []) = Within frame s
InActive frame (s ∷ t ∷ ss) = InActive frame (t ∷ ss)

-- A change of a segment that adds bytes at the end and takes back no fsync.
abbrev pub Grows : (Segment → Segment) → Type 0
Grows g =
    (s : Segment)
    → ((more : List ℕ) × ((g s).bytes ≡ s.bytes ++ more))
      × ((n : ℕ) → n ≤ s.durable → n ≤ length s.bytes → n ≤ (g s).durable)

pub append-Grows : (data_ : List ℕ) → Grows (segment_append data_)
unfolding segment_append
append-Grows data_ s = ((data_, refl), λ n h l. h)

pub sync-Grows : Grows segment_sync
unfolding segment_sync
sync-Grows s = (([], sym (append-nil s.bytes)), λ n h l. l)

placed_length :
    (bytes pre frame post : List ℕ)
    → bytes ≡ pre ++ (frame ++ post)
    → length pre + length frame ≤ length bytes
placed_length bytes pre frame post e =
    rw e (omega (arith, length-append pre (frame ++ post), length-append frame post))

grown :
    (bytes bytes' pre frame post more : List ℕ)
    → bytes ≡ pre ++ (frame ++ post)
    → bytes' ≡ bytes ++ more
    → bytes' ≡ pre ++ (frame ++ (post ++ more))
grown bytes bytes' pre frame post more e e' =
    e'
    ∙ ap (λ b. b ++ more) e
    ∙ append_assoc pre (frame ++ post) more
    ∙ ap (λ b. pre ++ b) (append_assoc frame post more)

Fixed-Grows :
    (g : Segment → Segment) (frame : List ℕ) (s : Segment)
    → Grows g
    → Fixed frame s
    → Fixed frame (g s)
Fixed-Grows g frame s grows (pre, post, e, d) =
    let ((more, e'), keeps) = grows s in
    (
      pre,
      post ++ more,
      grown s.bytes (g s).bytes pre frame post more e e',
      keeps (length pre + length frame) d (placed_length s.bytes pre frame post e),
    )

pub Durable-Grows :
    (g : Segment → Segment) (frame : List ℕ) (ss : List Segment)
    → Grows g
    → Durable frame ss
    → Durable frame (update_active g ss)
unfolding update_active
Durable-Grows g frame [] grows d = d
Durable-Grows g frame (s ∷ []) grows (inl f) = inl (Fixed-Grows g frame s grows f)
Durable-Grows g frame (s ∷ []) grows (inr n) = absurd n
Durable-Grows g frame (s ∷ t ∷ ss) grows (inl f) = inl f
Durable-Grows g frame (s ∷ t ∷ ss) grows (inr d) = inr (Durable-Grows g frame (t ∷ ss) grows d)

pub InActive-append :
    (data_ frame : List ℕ) (ss : List Segment)
    → InActive frame ss
    → InActive frame (update_active (segment_append data_) ss)
unfolding update_active segment_append
InActive-append data_ frame [] h = h
InActive-append data_ frame (s ∷ []) (pre, post, e) =
    (pre, post ++ data_, grown s.bytes _ pre frame post data_ e refl)
InActive-append data_ frame (s ∷ t ∷ []) h = InActive-append data_ frame (t ∷ []) h
InActive-append data_ frame (s ∷ t ∷ u ∷ ss) h = InActive-append data_ frame (t ∷ u ∷ ss) h

-- An fsync of the active segment makes durable what it holds.
pub InActive-sync :
    (frame : List ℕ) (ss : List Segment)
    → InActive frame ss
    → Durable frame (update_active segment_sync ss)
unfolding update_active segment_sync
InActive-sync frame [] h = h
InActive-sync frame (s ∷ []) (pre, post, e) =
    inl (pre, post, e, placed_length s.bytes pre frame post e)
InActive-sync frame (s ∷ t ∷ ss) h = inr (InActive-sync frame (t ∷ ss) h)

pub Durable-more :
    (frame : List ℕ) (ss more : List Segment) → Durable frame ss → Durable frame (ss ++ more)
Durable-more frame [] more d = absurd d
Durable-more frame (s ∷ ss) more (inl f) = inl f
Durable-more frame (s ∷ ss) more (inr d) = inr (Durable-more frame ss more d)

-- The frame of a request that is being written.
pub InActive-new :
    (frame : List ℕ) (ss : List Segment)
    → IsNonempty ss
    → InActive frame (update_active (segment_append frame) ss)
unfolding update_active segment_append
InActive-new frame [] n = n
InActive-new frame (s ∷ []) n = (s.bytes, [], ap (λ b. s.bytes ++ b) (sym (append-nil frame)))
InActive-new frame (s ∷ t ∷ []) n = InActive-new frame (t ∷ []) tt
InActive-new frame (s ∷ t ∷ u ∷ ss) n = InActive-new frame (t ∷ u ∷ ss) tt
