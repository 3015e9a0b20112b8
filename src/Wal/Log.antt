-- ===== src/Wal/Log.antt =====
-- internal/wal/wal.go and segment.go: the state of a log, and the changes that a request makes to it
-- once its frame is durable (the `apply` closures of Append and Ack, incref, decref and gc).
use tallyd.Base.{
  ℕ, ◌+◌, String, Bool, true, false, ◌||◌, Option, none, some, List, [], ◌∷◌, ◌==◌, str_eq,
  if◌then◌else◌, ℤ, inc_ℤ, dec_ℤ, is_zero_ℤ, Map, lookup, insert, delete, length,
}
use tallyd.Adapter.{Event}

pub record EntryState : Type 0 where
  pub event : Event
  pub pending : List String
  pub seg_seq : ℕ

-- A segment and its file: all bytes written, and how many of them an fsync has made durable.
pub record Segment : Type 0 where
  pub seq : ℕ
  pub size : ℕ
  pub ref_count : ℤ
  pub bytes : List ℕ
  pub durable : ℕ

-- The oldest segment is first, the active one last. A `max_bytes` of 0 stands for every value <= 0.
pub record Wal : Type 0 where
  pub max_segment_bytes : ℕ
  pub max_bytes : ℕ
  pub index : Map EntryState
  pub segments : List Segment
  pub next_seq : ℕ
  pub closed : Bool

-- A set of provider names, `map[string]struct{}`.
unfoldable pub member : String → List String → Bool
member p [] = false
member p (q ∷ ps) = str_eq q p || member p ps

unfoldable pub without : String → List String → List String
without p [] = []
without p (q ∷ ps) = let rest = without p ps in if str_eq q p then rest else q ∷ rest

unfoldable pub pending_set : List String → List String
unfolding member
pending_set [] = []
pending_set (p ∷ ps) = let rest = pending_set ps in if member p rest then rest else p ∷ rest

-- The `for` loops of incref and decref: the first segment of this number is changed.
unfoldable pub adjust : (ℤ → ℤ) → ℕ → List Segment → List Segment
adjust f seq [] = []
adjust f seq (s ∷ ss) =
    if s.seq == seq then record s { ref_count = f s.ref_count } ∷ ss else s ∷ adjust f seq ss

unfoldable pub incref_segment : ℕ → Wal → Wal
incref_segment seq w = record w { segments = adjust inc_ℤ seq w.segments }

unfoldable pub decref_segment : ℕ → Wal → Wal
decref_segment seq w = record w { segments = adjust dec_ℤ seq w.segments }

-- `if prev, ok := w.index[event.ID]; ok { w.decrefSegment(prev.segSeq) }`
unfoldable pub release : Option EntryState → Wal → Wal
release none w = w
release (some prev) w = decref_segment prev.seg_seq w

-- The closure of Append.
unfoldable pub apply_append : Event → List String → ℕ → Wal → Wal
unfolding release incref_segment decref_segment
apply_append event providers seg_seq w =
    let entry : EntryState = record {
      event = event;
      pending = pending_set providers;
      seg_seq = seg_seq;
    } in
    let w' = release (lookup event.id w.index) w in
    incref_segment seg_seq (record w' { index = insert event.id entry w'.index })

unfoldable pub is_empty {ℓ} : {A : Type ℓ} → List A → Bool
is_empty [] = true
is_empty (x ∷ xs) = false

unfoldable pub resolve_entry : String → String → Option EntryState → Wal → Wal
unfolding decref_segment is_empty
resolve_entry id provider none w = w
resolve_entry id provider (some entry) w =
    let pending = without provider entry.pending in
    if is_empty pending
    then decref_segment entry.seg_seq (record w { index = delete id w.index })
    else record w { index = insert id (record entry { pending = pending }) w.index }

-- The closure of Ack.
unfoldable pub apply_ack : String → String → Wal → Wal
unfolding resolve_entry
apply_ack id provider w = resolve_entry id provider (lookup id w.index) w

-- gcSegments: a prefix of resolved segments goes, and never the active one. The result of os.Remove
-- is dropped by the code; here the file goes with its segment.
unfoldable pub gc : List Segment → List Segment
gc [] = []
gc (s ∷ []) = s ∷ []
gc (s ∷ t ∷ ss) = let rest = gc (t ∷ ss) in if is_zero_ℤ s.ref_count then rest else s ∷ t ∷ ss

unfoldable pub gc_segments : Wal → Wal
unfolding gc
gc_segments w = record w { segments = gc w.segments }

-- Entry, the snapshot of an unresolved entry
pub record Entry : Type 0 where
  pub event : Event
  pub pending : List String

unfoldable pub entries_of : Map EntryState → List Entry
entries_of [] = []
entries_of ((id, e) ∷ index) = record { event = e.event; pending = e.pending } ∷ entries_of index

-- Pending, in some order
unfoldable pub pending_entries : Wal → List Entry
unfolding entries_of
pending_entries w = entries_of w.index

unfoldable pub unacked_count : Wal → ℕ
unacked_count w = length w.index

abbrev pub sum_sizes : List Segment → ℕ
sum_sizes [] = 0
sum_sizes (s ∷ ss) = s.size + sum_sizes ss

unfoldable pub total_bytes : Wal → ℕ
total_bytes w = sum_sizes w.segments
