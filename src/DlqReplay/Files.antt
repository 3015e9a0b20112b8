-- ===== src/DlqReplay/Files.antt =====
-- Remove of dlq.go under any faults, as the replay handler calls it: which records stay.
use text.Mathlib.TextPositions.{eq_refl}
use tallyd.Base.{
  ℕ, ◌≡◌, refl, ap, ◌∙◌, ◌⊎◌, inl, inr, String, true, Option, none, some, List, [], ◌∷◌, arith,
  Bool-cases, Map, insert, lookup-insert,
}
use tallyd.Dlq.{
  DeadLetter, Dlq, RemoveFault, removed_fine, read_failed, rewrite_failed, reopen_failed,
  list_regular, list_poison, records_of, remove, remove_from_file, keep_others, contains,
  remove_poison, count_removed,
}

abbrev pub Holds : DeadLetter → List DeadLetter → Type 0
Holds x [] = ⊥
Holds x (r ∷ rs) = (x ≡ r) ⊎ Holds x rs

keep_others-Holds :
    (ids : List String) (x : DeadLetter) (rs : List DeadLetter)
    → Holds x rs
    → Holds x (keep_others ids rs) ⊎ (contains x.event.id ids ≡ true)
unfolding keep_others
keep_others-Holds ids x [] h = absurd h
keep_others-Holds ids x (r ∷ rs) (inl same) = elim (Bool-cases (contains r.event.id ids)) [
  | inl gone ↦ rw gone (inr (ap (λ (y : DeadLetter). contains y.event.id ids) same ∙ gone))
  | inr kept ↦ rw kept (inl (inl same))
]
keep_others-Holds ids x (r ∷ rs) (inr later) =
    let before = keep_others-Holds ids x rs later in
    elim (Bool-cases (contains r.event.id ids)) [
      | inl gone ↦ rw gone before
      | inr kept ↦ rw kept (elim before [ inl there ↦ inl (inr there) | inr named ↦ inr named ])
    ]

-- However a rewrite ends, the file is as before or without the records of these events.
remove_from_file-cases :
    (fault : RemoveFault) (ids : List String) (rs : List DeadLetter)
    → ((remove_from_file fault ids rs).0 ≡ rs)
      ⊎ ((remove_from_file fault ids rs).0 ≡ keep_others ids rs)
unfolding remove_from_file
remove_from_file-cases read_failed ids rs = inl refl
remove_from_file-cases rewrite_failed ids rs = ground arith
remove_from_file-cases reopen_failed ids rs = ground arith
remove_from_file-cases removed_fine ids rs = ground arith

remove_from_file-Holds :
    (fault : RemoveFault) (ids : List String) (x : DeadLetter) (rs : List DeadLetter)
    → Holds x rs
    → Holds x ((remove_from_file fault ids rs).0) ⊎ (contains x.event.id ids ≡ true)
remove_from_file-Holds fault ids x rs h = elim (remove_from_file-cases fault ids rs) [
  | inl same ↦ rw same (inl h)
  | inr kept ↦ rw kept (keep_others-Holds ids x rs h)
]

records_of-insert :
    (p : String) (rs : List DeadLetter) (files : Map (List DeadLetter))
    → records_of p (insert p rs files) ≡ rs
records_of-insert p rs files = simp (lookup-insert, eq_refl)

count_removed-files :
    (n : ℕ) (m : Option ℕ) (provider : String) (d : Dlq)
    → ((count_removed n m provider d).0.regular ≡ d.regular)
      × ((count_removed n m provider d).0.poison ≡ d.poison)
unfolding count_removed
count_removed-files n none provider d = (refl, refl)
count_removed-files n (some m) provider d = (refl, refl)

remove_poison-files :
    (n : Option ℕ) (fault : RemoveFault) (provider : String) (ids : List String) (d : Dlq)
    → (list_regular provider (remove_poison n fault provider ids d).0 ≡ list_regular provider d)
      × ((list_poison provider (remove_poison n fault provider ids d).0 ≡ list_poison provider d)
          ⊎ (list_poison provider (remove_poison n fault provider ids d).0
              ≡ (remove_from_file fault ids (list_poison provider d)).0))
unfolding remove_poison list_regular list_poison
remove_poison-files none fault provider ids d = (refl, inl refl)
remove_poison-files (some n) fault provider ids d =
    let (left, m) = remove_from_file fault ids (records_of provider d.poison) in
    let d' = record d { poison = insert provider left d.poison } in
    let (same_regular, same_poison) = count_removed-files n m provider d' in
    (
      ap (λ fs. records_of provider fs) same_regular,
      inr (
          ap (λ fs. records_of provider fs) same_poison ∙ records_of-insert provider left d.poison),
    )

remove-files :
    (regular_fault poison_fault : RemoveFault) (provider id : String) (ids : List String) (d : Dlq)
    → let d' = (remove regular_fault poison_fault provider (id ∷ ids) d).0 in
      (list_regular provider d'
        ≡ (remove_from_file regular_fault (id ∷ ids) (list_regular provider d)).0)
      × ((list_poison provider d' ≡ list_poison provider d)
          ⊎ (list_poison provider d'
              ≡ (remove_from_file poison_fault (id ∷ ids) (list_poison provider d)).0))
unfolding remove list_regular list_poison
remove-files regular_fault poison_fault provider id ids d =
    let (left, n) = remove_from_file regular_fault (id ∷ ids) (records_of provider d.regular) in
    let d' = record d { regular = insert provider left d.regular } in
    let (regular, poison) = remove_poison-files n poison_fault provider (id ∷ ids) d' in
    (regular ∙ records_of-insert provider left d.regular, poison)

-- A record of the store before a Remove is there afterwards, or its event is one of those named.
abbrev pub Stays : String → List String → Dlq → Dlq → Type 0
Stays provider ids d d' =
    (x : DeadLetter)
    → (Holds x (list_regular provider d)
        → Holds x (list_regular provider d') ⊎ (contains x.event.id ids ≡ true))
      × (Holds x (list_poison provider d)
          → Holds x (list_poison provider d') ⊎ (contains x.event.id ids ≡ true))

pub remove-Stays :
    (regular_fault poison_fault : RemoveFault) (provider id : String) (ids : List String) (d : Dlq)
    → Stays provider (id ∷ ids) d ((remove regular_fault poison_fault provider (id ∷ ids) d).0)
remove-Stays regular_fault poison_fault provider id ids d x =
    let (regular, poison) = remove-files regular_fault poison_fault provider id ids d in
    (
      λ h.
          rw regular
            (remove_from_file-Holds regular_fault (id ∷ ids) x (list_regular provider d) h),
      λ h. elim poison [
        | inl same ↦ rw same (inl h)
        | inr kept ↦
            rw kept (remove_from_file-Holds poison_fault (id ∷ ids) x (list_poison provider d) h)
      ],
    )
