-- ===== src/Dlq/Depth.antt =====
-- What the rewrites of dlq.go keep and count, and when the depth of every provider is right.
use tallyd.Base.{
  ◌+◌, ◌-◌, ◌≤◌, ◌≡◌, refl, ap, inl, inr, String, some, List, [], ◌∷◌, pos, length, arith,
  Bool-cases,
}
use tallyd.Dlq.{
  Dlq, DeadLetter, depth, list_regular, list_poison, keep_others, remove_from_file, removed_fine,
  contains,
}

pub length-keep_others :
    (ids : List String) (rs : List DeadLetter) → length (keep_others ids rs) ≤ length rs
unfolding keep_others
length-keep_others ids [] = omega arith
length-keep_others ids (r ∷ rs) = ground (arith, length-keep_others ids rs)

-- A rewrite that keeps every record keeps the file as it is.
pub keep_others_all :
    (ids : List String) (rs : List DeadLetter)
    → length rs ≤ length (keep_others ids rs)
    → keep_others ids rs ≡ rs
unfolding keep_others
keep_others_all ids [] h = refl
keep_others_all ids (r ∷ rs) h = elim (Bool-cases (contains r.event.id ids)) [
  | inl gone ↦ absurd (ground (arith, length-keep_others ids rs))
  | inr kept ↦ rw kept (ap (λ l. r ∷ l) (keep_others_all ids rs (ground arith)))
]

-- Without a fault the rewrite returns the others and counts the rest.
pub remove_from_file_fine :
    (ids : List String) (rs : List DeadLetter)
    → remove_from_file removed_fine ids rs
      ≡ (keep_others ids rs, some (length rs - length (keep_others ids rs)))
unfolding remove_from_file
remove_from_file_fine ids rs = ground (arith, keep_others_all ids rs, length-keep_others ids rs)

-- The counter of every provider is right.
abbrev pub IsCounted : Dlq → Type 0
IsCounted d = (p : String) → depth d p ≡ pos (length (list_regular p d) + length (list_poison p d))
