-- ===== src/Dlq/Restart.antt =====
-- Open of dlq.go: what a restart reconstructs from the files, and what it cannot.
use text.Mathlib.TextPositions.{eq_refl}
use tallyd.Base.{
  ℕ, suc, ◌+◌, ◌≡◌, refl, ap, ◌∙◌, ◌≢◌, ◌⊎◌, inl, inr, String, true, false, List, [], ◌∷◌, str_eq,
  eq_iff, ltb, if◌then◌else◌, Map, Unique, lookup, insert, delete, lookup-insert, length, arith,
  Bool-cases, str_eq-cases, pos, inc_ℤ,
}
use tallyd.Dlq.{
  Dlq, DeadLetter, depth, records_of, list_regular, list_poison, removed_fine, remove, contains,
  attempts_of, set_attempts, count_removed, remove_poison, scan_record, scan_records, scan_files,
  open_dlq,
}
use tallyd.Dlq.Depth.{IsCounted, remove_from_file_fine}
use tallyd.Dlq.Poison.{NoneOf, keep_others-NoneOf, attempts_of-set}

-- The files of one provider, among others, have no record of an event.
abbrev NoneIn : String → String → Map (List DeadLetter) → Type 0
NoneIn p id [] = Unit {0}
NoneIn p id ((q, rs) ∷ files) = ((str_eq q p ≡ false) ⊎ NoneOf id rs) × NoneIn p id files

scan_record_silent :
    (p q id : String) (r : DeadLetter) (d : Dlq)
    → (str_eq q p ≡ false) ⊎ (r.event.id ≢ id)
    → attempts_of (scan_record q r d).attempts p id ≡ attempts_of d.attempts p id
unfolding scan_record
scan_record_silent p q id r d h =
    elim (Bool-cases (ltb (attempts_of d.attempts q r.event.id) r.attempts)) [
      | inr known ↦ rw known
      | inl more ↦ rw more (other h)
    ]
  where
    other :
        (str_eq q p ≡ false) ⊎ (r.event.id ≢ id)
        → attempts_of (set_attempts q r.event.id r.attempts d.attempts) p id
          ≡ attempts_of d.attempts p id
    other (inl f) = simp (attempts_of-set, f)
    other (inr f) = rw attempts_of-set (ground (arith, eq_iff r.event.id id))

scan_records_silent :
    (p q id : String) (rs : List DeadLetter) (d : Dlq)
    → (str_eq q p ≡ false) ⊎ NoneOf id rs
    → attempts_of (scan_records q rs d).attempts p id ≡ attempts_of d.attempts p id
unfolding scan_records
scan_records_silent p q id [] d h = refl
scan_records_silent p q id (r ∷ rs) d (inl f) =
    scan_records_silent p q id rs (scan_record q r d) (inl f)
    ∙ scan_record_silent p q id r d (inl f)
scan_records_silent p q id (r ∷ rs) d (inr h) =
    scan_records_silent p q id rs (scan_record q r d) (inr h.1)
    ∙ scan_record_silent p q id r d (inr h.0)

scan_files_silent :
    (p id : String) (files : Map (List DeadLetter)) (d : Dlq)
    → NoneIn p id files
    → attempts_of (scan_files files d).attempts p id ≡ attempts_of d.attempts p id
unfolding scan_files
scan_files_silent p id [] d h = refl
scan_files_silent p id ((q, rs) ∷ files) d h =
    scan_files_silent p id files (scan_records q rs d) h.1 ∙ scan_records_silent p q id rs d h.0

-- After a write to the provider's file only that file is the provider's.
delete-NoneIn : (p id : String) (files : Map (List DeadLetter)) → NoneIn p id (delete p files)
unfolding delete
delete-NoneIn p id [] = tt
delete-NoneIn p id ((q, rs) ∷ files) = elim (Bool-cases (str_eq q p)) [
  | inl hit ↦ rw hit (delete-NoneIn p id files)
  | inr miss ↦ rw miss (inl miss, delete-NoneIn p id files)
]

attempts_of-empty : (p id : String) → attempts_of [] p id ≡ 0
unfolding attempts_of lookup
attempts_of-empty p id = refl

contains-cons-ne-nil : (id : String) → contains id [] ≢ true
unfolding contains
contains-cons-ne-nil id = λ e. ground arith

-- An event that Remove, without faults, has taken out keeps its attempt counter in memory, but Open
-- on the files that are left finds no trace of it and starts it at zero.
pub restart_forgets_removed :
    (provider id : String) (ids : List String) (d : Dlq)
    → contains id ids ≡ true
    → let d' = (remove removed_fine removed_fine provider ids d).0 in
      (attempts_of d'.attempts provider id ≡ attempts_of d.attempts provider id)
      × (attempts_of (open_dlq d'.regular d'.poison).attempts provider id ≡ 0)
unfolding remove remove_poison count_removed open_dlq insert
restart_forgets_removed provider id [] d h = absurd (contains-cons-ne-nil id h)
restart_forgets_removed provider id (x ∷ ids) d h =
    let kept = λ (rs : List DeadLetter). keep_others-NoneOf (x ∷ ids) id rs h in
    rw
      (
        remove_from_file_fine (x ∷ ids) (records_of provider d.regular),
        remove_from_file_fine (x ∷ ids) (records_of provider d.poison),
      )
      (
        refl,
        scan_files_silent provider id _ _
              (inr (kept (records_of provider d.poison)), delete-NoneIn provider id d.poison)
            ∙ scan_files_silent provider id _ _
                (inr (kept (records_of provider d.regular)), delete-NoneIn provider id d.regular)
            ∙ attempts_of-empty provider id,
      )

depth-scan_record :
    (p q : String) (r : DeadLetter) (d : Dlq)
    → depth (scan_record q r d) p ≡ (if str_eq q p then inc_ℤ (depth d p) else depth d p)
unfolding depth scan_record
depth-scan_record p q r d = elim (str_eq-cases q p) [
  | inl (same, t) ↦ rw (← same) (simp (lookup-insert, eq_refl))
  | inr (other, f) ↦ simp (lookup-insert, f)
]

depth-scan_records :
    (p q : String) (rs : List DeadLetter) (d : Dlq) (k : ℕ)
    → depth d p ≡ pos k
    → depth (scan_records q rs d) p ≡ pos (if str_eq q p then k + length rs else k)
unfolding scan_records
depth-scan_records p q [] d k h = elim (Bool-cases (str_eq q p)) [
  | inl t ↦ rw t (h ∙ ap pos (omega arith))
  | inr f ↦ rw f h
]
depth-scan_records p q (r ∷ rs) d k h = elim (Bool-cases (str_eq q p)) [
  | inl t ↦
      let next : depth (scan_record q r d) p ≡ pos (suc k) =
        depth-scan_record p q r d ∙ ground arith in
      depth-scan_records p q rs (scan_record q r d) (suc k) next ∙ rw t (ap pos (omega arith))
  | inr f ↦
      let next : depth (scan_record q r d) p ≡ pos k = depth-scan_record p q r d ∙ ground arith in
      depth-scan_records p q rs (scan_record q r d) k next ∙ rw f
]

depth_empty : (p : String) (d : Dlq) → d.depths ≡ [] → depth d p ≡ pos 0
unfolding depth lookup
depth_empty p d e = rw e

records_of-absent :
    (p q : String) (rs : List DeadLetter) (files : Map (List DeadLetter))
    → Unique ((q, rs) ∷ files)
    → str_eq q p ≡ true
    → records_of p files ≡ []
records_of-absent p q rs files u t = ground (arith, eq_iff q p)

depth-scan_files :
    (p : String) (files : Map (List DeadLetter)) (d : Dlq) (k : ℕ)
    → Unique files
    → depth d p ≡ pos k
    → depth (scan_files files d) p ≡ pos (k + length (records_of p files))
unfolding scan_files lookup
depth-scan_files p [] d k u h = h ∙ ap pos (omega arith)
depth-scan_files p ((q, rs) ∷ files) d k u h =
    let now = depth-scan_records p q rs d k h in
    elim (Bool-cases (str_eq q p)) [
      | inl t ↦
          depth-scan_files p files (scan_records q rs d) (k + length rs) u.1 (now ∙ rw t)
          ∙ rw (t, records_of-absent p q rs files u t) (ap pos (omega arith))
      | inr f ↦ depth-scan_files p files (scan_records q rs d) k u.1 (now ∙ rw f) ∙ rw f
    ]

-- The scan leaves the files alone.
files-scan_records :
    (q : String) (rs : List DeadLetter) (d : Dlq)
    → ((scan_records q rs d).regular ≡ d.regular) × ((scan_records q rs d).poison ≡ d.poison)
unfolding scan_records scan_record
files-scan_records q [] d = (refl, refl)
files-scan_records q (r ∷ rs) d = files-scan_records q rs (scan_record q r d)

files-scan_files :
    (files : Map (List DeadLetter)) (d : Dlq)
    → ((scan_files files d).regular ≡ d.regular) × ((scan_files files d).poison ≡ d.poison)
unfolding scan_files
files-scan_files [] d = (refl, refl)
files-scan_files ((q, rs) ∷ files) d =
    let a = files-scan_records q rs d in
    let b = files-scan_files files (scan_records q rs d) in (b.0 ∙ a.0, b.1 ∙ a.1)

-- After Open, the depth of every provider is the number of records in its two files, whatever they
-- hold, as long as no file is listed twice.
pub open_dlq-IsCounted :
    (regular poison : Map (List DeadLetter))
    → Unique regular
    → Unique poison
    → IsCounted (open_dlq regular poison)
unfolding open_dlq list_regular list_poison
open_dlq-IsCounted regular poison u v p =
    let start : Dlq = record { regular = regular; poison = poison; depths = []; attempts = [] } in
    let a = files-scan_files regular start in
    let b = files-scan_files poison (scan_files regular start) in
    simp (b.0, b.1, a.0, a.1)
      (depth-scan_files p poison (scan_files regular start) (length (records_of p regular)) v
        (depth-scan_files p regular start 0 u (depth_empty p start refl) ∙ ap pos (omega arith)))
