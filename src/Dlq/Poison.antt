-- ===== src/Dlq/Poison.antt =====
-- Put and Remove of dlq.go: which file an event is in, and what its attempt counter says.
use text.Mathlib.TextPositions.{eq_refl}
use tallyd.Base.{
  ℕ, suc, ◌≤◌, ◌<◌, ◌≡◌, refl, ap, ◌≢◌, inl, inr, String, Bool, true, List, [], ◌∷◌, ◌++◌, str_eq,
  leb, if◌then◌else◌, Map, lookup-insert, arith, Bool-cases, str_eq-cases, le→leb, lt→leb,
}
use tallyd.Adapter.{Event}
use tallyd.Dlq.{
  Dlq, DeadLetter, records_of, list_regular, list_poison, keep_others, removed_fine, append_record,
  put, remove, no_faults, threshold_of, contains, attempts_of, set_attempts, count_append,
  append_regular, append_poison, put_poisoned, count_removed, remove_poison,
}
use tallyd.Dlq.Depth.{remove_from_file_fine}

pub attempts_of-set :
    (p q : String) (id j : String) (n : ℕ) (m : Map (Map ℕ))
    → attempts_of (set_attempts p id n m) q j
      ≡ (if str_eq p q then (if str_eq id j then n else attempts_of m q j) else attempts_of m q j)
unfolding attempts_of set_attempts
attempts_of-set p q id j n m = elim (str_eq-cases p q) [
  | inl (same, t) ↦ rw (← same) (
      simp (lookup-insert, eq_refl)
        (elim (Bool-cases (str_eq id j)) [ inl e ↦ rw e | inr e ↦ rw e ]))
  | inr (other, f) ↦ rw f (simp (lookup-insert, f))
]

self_contained : (id : String) → contains id (id ∷ []) ≡ true
unfolding contains
self_contained id = simp eq_refl

keep_others-nil : (rs : List DeadLetter) → keep_others [] rs ≡ rs
unfolding keep_others contains
keep_others-nil [] = refl
keep_others-nil (r ∷ rs) = ap (λ l. r ∷ l) (keep_others-nil rs)

-- No record of this event.
abbrev pub NoneOf : String → List DeadLetter → Type 0
NoneOf id [] = Unit {0}
NoneOf id (r ∷ rs) = (r.event.id ≢ id) × NoneOf id rs

pub keep_others-NoneOf :
    (ids : List String) (id : String) (rs : List DeadLetter)
    → contains id ids ≡ true
    → NoneOf id (keep_others ids rs)
unfolding keep_others
keep_others-NoneOf ids id [] h = tt
keep_others-NoneOf ids id (r ∷ rs) h = elim (Bool-cases (contains r.event.id ids)) [
  | inl gone ↦ rw gone (keep_others-NoneOf ids id rs h)
  | inr kept ↦ rw kept (
    (λ (e : r.event.id ≡ id). absurd (ground (arith, ap (λ x. contains x ids) e))),
    keep_others-NoneOf ids id rs h,
  )
]

abbrev pub dead_letter_of : ℕ → String → Event → String → Bool → ℕ → DeadLetter
dead_letter_of now provider event reason permanent n = record {
  provider = provider;
  event = event;
  reason = reason;
  timestamp = now;
  attempts = n;
  poisoned = leb (threshold_of permanent) n;
}

pub attempts_of-set_self :
    (p id : String) (n : ℕ) (m : Map (Map ℕ)) → attempts_of (set_attempts p id n m) p id ≡ n
attempts_of-set_self p id n m = simp (attempts_of-set, eq_refl)

module _ (now : ℕ) (provider : String) (event : Event) (reason : String) (permanent : Bool)
    (d : Dlq) where
  -- A Put without faults whose record reaches the threshold of its failure's kind: it goes to the
  -- poison file, behind what is there, with the counter one up and the flag set; the event's
  -- earlier records, and no others, leave the regular file. Put returns no error.
  pub put_poisons :
      threshold_of permanent ≤ suc (attempts_of d.attempts provider event.id)
      → let n = suc (attempts_of d.attempts provider event.id) in
        let (d', ok) = put no_faults now provider event reason permanent d in
        (list_regular provider d' ≡ keep_others (event.id ∷ []) (list_regular provider d))
        × NoneOf event.id (list_regular provider d')
        × (list_poison provider d'
            ≡ list_poison provider d ++ dead_letter_of now provider event reason permanent n ∷ [])
        × (attempts_of d'.attempts provider event.id ≡ n)
        × (ok ≡ true)
  unfolding put append_regular append_poison put_poisoned count_append append_record list_regular
      list_poison
  put_poisons h =
      let n = suc (attempts_of d.attempts provider event.id) in
      let none_left =
        keep_others-NoneOf (event.id ∷ []) event.id (records_of provider d.regular)
          (self_contained event.id) in
      rw
        (
          remove_from_file_fine (event.id ∷ []) (records_of provider d.regular),
          le→leb (threshold_of permanent) n h,
        )
        (simp (lookup-insert, eq_refl)
          (refl, none_left, refl, attempts_of-set_self provider event.id n d.attempts, refl))

  -- A Put without faults below the threshold: the record is added to the regular file, with the
  -- counter one up and the flag clear, and the poison file stays. Put returns no error.
  pub put_parks :
      suc (attempts_of d.attempts provider event.id) < threshold_of permanent
      → let n = suc (attempts_of d.attempts provider event.id) in
        let (d', ok) = put no_faults now provider event reason permanent d in
        (list_regular provider d'
          ≡ list_regular provider d ++ dead_letter_of now provider event reason permanent n ∷ [])
        × (list_poison provider d' ≡ list_poison provider d)
        × (attempts_of d'.attempts provider event.id ≡ n)
        × (ok ≡ true)
  unfolding put append_regular append_poison put_poisoned count_append append_record list_regular
      list_poison
  put_parks h =
      let n = suc (attempts_of d.attempts provider event.id) in
      rw (lt→leb (threshold_of permanent) n h) (
        simp (lookup-insert, eq_refl)
          (refl, refl, attempts_of-set_self provider event.id n d.attempts, refl))

-- Remove without faults takes the records of these events, and no others, out of both files of the
-- provider, leaves the files of every other provider and all attempt counters, and returns no error.
remove_lem :
    (provider p : String) (ids : List String) (d : Dlq)
    → let (d', ok) = remove removed_fine removed_fine provider ids d in
      (list_regular p d'
        ≡ (if str_eq provider p then keep_others ids (list_regular p d) else list_regular p d))
      × (list_poison p d'
          ≡ (if str_eq provider p then keep_others ids (list_poison p d) else list_poison p d))
      × (d'.attempts ≡ d.attempts)
      × (ok ≡ true)
unfolding remove remove_poison count_removed list_regular list_poison
remove_lem provider p [] d = simp keep_others-nil (ground arith)
remove_lem provider p (id ∷ ids) d =
    rw
      (
        remove_from_file_fine (id ∷ ids) (records_of provider d.regular),
        remove_from_file_fine (id ∷ ids) (records_of provider d.poison),
      )
      (elim (str_eq-cases provider p) [
        | inl (same, t) ↦ rw (← same) (simp (lookup-insert, eq_refl) (refl, refl, refl, refl))
        | inr (other, f) ↦ simp (lookup-insert, f) (refl, refl, refl, refl)
      ])
