-- ===== src/Wal/Listing.antt =====
-- internal/wal/segment.go: segmentPath and listSegmentSeqs, the names of the segment files. fmt and
-- filepath are arguments, and so is the directory.
pub mod Opening
use tallyd.Base.{
  ℕ, zero, suc, ◌+◌, ◌≤◌, ◌<◌, ◌≡◌, refl, ap, ◌∙◌, inl, inr, String, Bool, true, false, not, ◌||◌,
  Option, none, some, List, [], ◌∷◌, ltb, leb, ◌==◌, if◌then◌else◌, arith, Bool-cases,
}

-- An entry of os.ReadDir.
pub record DirEntry : Type 0 where
  pub name : String
  pub is_dir : Bool

-- fmt.Sprintf and fmt.Sscanf with "%020d.wal", and filepath.Ext(name) == ".wal".
pub record Names : Type 0 where
  pub print : ℕ → String
  pub scan : String → Option ℕ
  pub is_wal : String → Bool

-- segmentPath, within the directory.
unfoldable pub segment_path : Names → ℕ → String
segment_path names seq = names.print seq

abbrev pub cons_scanned : Option ℕ → List ℕ → List ℕ
cons_scanned none seqs = seqs
cons_scanned (some seq) seqs = seq ∷ seqs

-- The loop over the entries.
unfoldable pub scan_entries : Names → List DirEntry → List ℕ
scan_entries names [] = []
scan_entries names (e ∷ es) =
    let rest = scan_entries names es in
    if e.is_dir || not (names.is_wal e.name) then rest else cons_scanned (names.scan e.name) rest

-- sort.Slice by <
unfoldable pub insert_seq : ℕ → List ℕ → List ℕ
insert_seq n [] = n ∷ []
insert_seq n (m ∷ ms) = let rest = insert_seq n ms in if ltb m n then m ∷ rest else n ∷ m ∷ ms

unfoldable pub sort_seqs : List ℕ → List ℕ
unfolding insert_seq
sort_seqs [] = []
sort_seqs (n ∷ ns) = insert_seq n (sort_seqs ns)

-- listSegmentSeqs, on a directory that can be read; one that does not exist has no entries.
unfoldable pub list_segment_seqs : Names → List DirEntry → List ℕ
unfolding sort_seqs
list_segment_seqs names entries = sort_seqs (scan_entries names entries)

-- How often a number stands in a list.
abbrev pub occurrences : ℕ → List ℕ → ℕ
occurrences n [] = 0
occurrences n (m ∷ ms) = (if m == n then 1 else 0) + occurrences n ms

-- Numbers that rise, from a least one on.
abbrev pub Rising : ℕ → List ℕ → Type 0
Rising low [] = Unit {0}
Rising low (n ∷ ns) = (low ≤ n) × Rising (suc n) ns

-- Sorted, from a least number on; numbers may stand twice.
abbrev pub SortedFrom : ℕ → List ℕ → Type 0
SortedFrom low [] = Unit {0}
SortedFrom low (n ∷ ns) = (low ≤ n) × SortedFrom n ns

insert_seq-SortedFrom :
    (low n : ℕ) (ns : List ℕ) → low ≤ n → SortedFrom low ns → SortedFrom low (insert_seq n ns)
unfolding insert_seq
insert_seq-SortedFrom low n [] h s = (h, tt)
insert_seq-SortedFrom low n (m ∷ ms) h s = elim (Bool-cases (ltb m n)) [
  | inl above ↦ rw above (s.0, insert_seq-SortedFrom m n ms (ground arith) s.1)
  | inr below ↦ rw below (h, (ground arith, s.1))
]

sort_seqs-SortedFrom : (ns : List ℕ) → SortedFrom 0 (sort_seqs ns)
unfolding sort_seqs
sort_seqs-SortedFrom [] = tt
sort_seqs-SortedFrom (n ∷ ns) =
    insert_seq-SortedFrom 0 n (sort_seqs ns) (omega arith) (sort_seqs-SortedFrom ns)

occurrences-insert_seq :
    (k n : ℕ) (ns : List ℕ) → occurrences k (insert_seq n ns) ≡ occurrences k (n ∷ ns)
unfolding insert_seq
occurrences-insert_seq k n [] = refl
occurrences-insert_seq k n (m ∷ ms) = elim (Bool-cases (ltb m n)) [
  | inl above ↦ rw above (omega (arith, occurrences-insert_seq k n ms))
  | inr below ↦ rw below refl
]

occurrences-sort_seqs : (k : ℕ) (ns : List ℕ) → occurrences k (sort_seqs ns) ≡ occurrences k ns
unfolding sort_seqs
occurrences-sort_seqs k [] = refl
occurrences-sort_seqs k (n ∷ ns) =
    omega (arith, occurrences-insert_seq k n (sort_seqs ns), occurrences-sort_seqs k ns)

-- A sorted list without repetition rises.
SortedFrom-Rising :
    (low : ℕ) (ns : List ℕ) → SortedFrom low ns → ((k : ℕ) → occurrences k ns ≤ 1) → Rising low ns
SortedFrom-Rising low [] s once = tt
SortedFrom-Rising low (n ∷ []) s once = (s.0, tt)
SortedFrom-Rising low (n ∷ m ∷ ns) s once =
    let apart : suc n ≤ m = ground (arith, once n) in
    (s.0, SortedFrom-Rising (suc n) (m ∷ ns) (apart, s.1.1) (λ k. omega (arith, once k)))

-- Open takes the segments in their order. Whatever order the directory is listed in, the numbers of
-- its segment files come out from the smallest to the largest, each as often as the names have it;
-- and if no two names have the same number, each is larger than the one before, as replay needs it.
pub list_segment_seqs-Rising :
    (names : Names) (entries : List DirEntry)
    → let seqs = list_segment_seqs names entries in
      ((k : ℕ) → occurrences k seqs ≡ occurrences k (scan_entries names entries))
      × SortedFrom 0 seqs
      × (((k : ℕ) → occurrences k (scan_entries names entries) ≤ 1) → Rising 0 seqs)
unfolding list_segment_seqs
list_segment_seqs-Rising names entries =
    let found = scan_entries names entries in
    let sorted = sort_seqs-SortedFrom found in
    (
      λ k. occurrences-sort_seqs k found,
      sorted,
      λ once.
          SortedFrom-Rising 0 (sort_seqs found) sorted
            (λ k. omega (arith, once k, occurrences-sort_seqs k found)),
    )
