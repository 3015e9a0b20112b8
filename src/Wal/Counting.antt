-- ===== src/Wal/Counting.antt =====
-- Segment numbers and reference counts of wal.go: what `adjust` does to a list of segments, and how
-- the number of entries of a segment changes with the index.
use tallyd.Base.{
  ℕ, suc, ◌+◌, ◌≤◌, ◌<◌, ◌≡◌, refl, sym, ap, ◌∙◌, subst, inl, inr, Bool, true, false, ◌||◌, Option,
  none, some, List, [], ◌∷◌, String, str_eq, eq_iff, if◌then◌else◌, ◌==◌, ℤ, pos, inc_ℤ, dec_ℤ, Map,
  lookup, insert, delete, Unique, arith, Bool-cases, delete_absent,
}
use tallyd.Wal.Log.{Segment, EntryState, adjust}
use tallyd.Wal.Replay.{seg_ref_count}

-- The numbers rise along the list, from `lo` on and below `hi`.
abbrev pub Ascending : ℕ → List Segment → ℕ → Type 0
Ascending lo [] hi = lo ≤ hi
Ascending lo (s ∷ ss) hi = (lo ≤ s.seq) × Ascending (suc s.seq) ss hi

-- Each segment's reference count is the number that `c` gives for it.
abbrev pub Counted : (ℕ → ℕ) → List Segment → Type 0
Counted c [] = Unit {0}
Counted c (s ∷ ss) = (s.ref_count ≡ pos (c s.seq)) × Counted c ss

-- There is a segment of this number.
abbrev pub has : ℕ → List Segment → Bool
has seq [] = false
has seq (s ∷ ss) = s.seq == seq || has seq ss

-- Every entry's event record lies in one of the segments.
abbrev pub AllHomed : List Segment → Map EntryState → Type 0
AllHomed ss [] = Unit {0}
AllHomed ss ((id, e) ∷ m) = (has e.seg_seq ss ≡ true) × AllHomed ss m

abbrev pub contribution : ℕ → Option EntryState → ℕ
contribution seq none = 0
contribution seq (some e) = if e.seg_seq == seq then 1 else 0

pub Ascending-le : (lo hi : ℕ) (ss : List Segment) → Ascending lo ss hi → lo ≤ hi
Ascending-le lo hi [] a = a
Ascending-le lo hi (s ∷ ss) a = omega (arith, Ascending-le (suc s.seq) hi ss a.1)

pub has-range :
    (seq lo hi : ℕ) (ss : List Segment)
    → Ascending lo ss hi
    → has seq ss ≡ true
    → (lo ≤ seq) × (seq < hi)
has-range seq lo hi [] a h = ground arith
has-range seq lo hi (s ∷ ss) a h =
    ground (arith, has-range seq (suc s.seq) hi ss a.1, Ascending-le (suc s.seq) hi ss a.1)

pub adjust-Ascending :
    (f : ℤ → ℤ) (seq lo hi : ℕ) (ss : List Segment)
    → Ascending lo ss hi
    → Ascending lo (adjust f seq ss) hi
unfolding adjust
adjust-Ascending f seq lo hi [] a = a
adjust-Ascending f seq lo hi (s ∷ ss) a =
    ground (arith, adjust-Ascending f seq (suc s.seq) hi ss a.1)

pub has-adjust : (f : ℤ → ℤ) (seq n : ℕ) (ss : List Segment) → has n (adjust f seq ss) ≡ has n ss
unfolding adjust
has-adjust f seq n [] = refl
has-adjust f seq n (s ∷ ss) = ground (arith, has-adjust f seq n ss)

-- Counts that agree from `lo` on.
pub Counted-ext :
    (c c' : ℕ → ℕ) (lo hi : ℕ) (ss : List Segment)
    → Ascending lo ss hi
    → ((n : ℕ) → lo ≤ n → c' n ≡ c n)
    → Counted c ss
    → Counted c' ss
Counted-ext c c' lo hi [] a same k = tt
Counted-ext c c' lo hi (s ∷ ss) a same k = (
  k.0 ∙ ap pos (sym (same s.seq a.0)),
  Counted-ext c c' (suc s.seq) hi ss a.1 (λ n h. same n (omega arith)) k.1,
)

pub Counted-inc :
    (c c' : ℕ → ℕ) (seq lo hi : ℕ) (ss : List Segment)
    → Ascending lo ss hi
    → ((n : ℕ) → c' n ≡ (if n == seq then suc (c n) else c n))
    → Counted c ss
    → Counted c' (adjust inc_ℤ seq ss)
unfolding adjust
Counted-inc c c' seq lo hi [] a step k = tt
Counted-inc c c' seq lo hi (s ∷ ss) a step k = elim (Bool-cases (s.seq == seq)) [
  | inl hit ↦
      let tail = Counted-ext c c' (suc s.seq) hi ss a.1 (λ n h. ground (arith, step n)) k.1 in
      ground (arith, tail, step s.seq)
  | inr miss ↦ ground (arith, Counted-inc c c' seq (suc s.seq) hi ss a.1 step k.1, step s.seq)
]

pub Counted-dec :
    (c c' : ℕ → ℕ) (seq lo hi : ℕ) (ss : List Segment)
    → Ascending lo ss hi
    → ((n : ℕ) → c n ≡ (if n == seq then suc (c' n) else c' n))
    → Counted c ss
    → Counted c' (adjust dec_ℤ seq ss)
unfolding adjust
Counted-dec c c' seq lo hi [] a step k = tt
Counted-dec c c' seq lo hi (s ∷ ss) a step k = elim (Bool-cases (s.seq == seq)) [
  | inl hit ↦
      let tail = Counted-ext c c' (suc s.seq) hi ss a.1 (λ n h. ground (arith, step n)) k.1 in
      ground (arith, tail, step s.seq)
  | inr miss ↦ ground (arith, Counted-dec c c' seq (suc s.seq) hi ss a.1 step k.1, step s.seq)
]

-- The entries of a segment, without and with one key.
pub seg_ref_count-delete :
    (seq : ℕ) (k : String) (m : Map EntryState)
    → Unique m
    → seg_ref_count seq m ≡ contribution seq (lookup k m) + seg_ref_count seq (delete k m)
unfolding seg_ref_count lookup delete
seg_ref_count-delete seq k [] u = omega arith
seg_ref_count-delete seq k ((j, e) ∷ m) u = elim (Bool-cases (str_eq j k)) [
  | inl hit ↦
      let gone : delete k m ≡ m =
        delete_absent k m (subst (λ x. lookup x m ≡ none) ((eq_iff j k).0 hit) u.0) in
      ground (arith, gone)
  | inr miss ↦ ground (arith, seg_ref_count-delete seq k m u.1)
]

pub seg_ref_count-insert :
    (seq : ℕ) (k : String) (e : EntryState) (m : Map EntryState)
    → seg_ref_count seq (insert k e m) ≡ contribution seq (some e) + seg_ref_count seq (delete k m)
unfolding seg_ref_count insert
seg_ref_count-insert seq k e m = ground arith

pub delete-AllHomed :
    (ss : List Segment) (k : String) (m : Map EntryState) → AllHomed ss m → AllHomed ss (delete k m)
unfolding delete
delete-AllHomed ss k [] h = tt
delete-AllHomed ss k ((j, e) ∷ m) h = ground (arith, delete-AllHomed ss k m h.1)

pub lookup-AllHomed :
    (ss : List Segment) (k : String) (e : EntryState) (m : Map EntryState)
    → AllHomed ss m
    → lookup k m ≡ some e
    → has e.seg_seq ss ≡ true
unfolding lookup
lookup-AllHomed ss k e [] h p = ground arith
lookup-AllHomed ss k e ((j, e') ∷ m) h p = ground (arith, lookup-AllHomed ss k e m h.1)

pub AllHomed-mono :
    (ss ts : List Segment) (m : Map EntryState)
    → ((n : ℕ) → has n ss ≡ true → has n ts ≡ true)
    → AllHomed ss m
    → AllHomed ts m
AllHomed-mono ss ts [] up h = tt
AllHomed-mono ss ts ((j, e) ∷ m) up h = (up e.seg_seq h.0, AllHomed-mono ss ts m up h.1)

-- A number that no segment has yet has no entries.
pub seg_ref_count_fresh :
    (seq hi : ℕ) (ss : List Segment) (m : Map EntryState)
    → Ascending 0 ss hi
    → AllHomed ss m
    → hi ≤ seq
    → seg_ref_count seq m ≡ 0
unfolding seg_ref_count
seg_ref_count_fresh seq hi ss [] a h p = refl
seg_ref_count_fresh seq hi ss ((j, e) ∷ m) a h p =
    ground (arith, has-range e.seg_seq 0 hi ss a h.0, seg_ref_count_fresh seq hi ss m a h.1 p)
