-- ===== src/DlqReplay/Safety.antt =====
-- The replay handler of dlqreplay.go: a dead letter leaves its file only for the log.
use tallyd.Base.{
  ◌≡◌, refl, ap, ◌⊎◌, inl, inr, String, Bool, true, false, ◌&&◌, Option, none, some, List, [], ◌∷◌,
  ◌++◌, str_eq, eq_iff, arith, Bool-cases,
}
use tallyd.Receiver.{Sink}
use tallyd.Dlq.{DeadLetter, Dlq, list_regular, list_poison, contains}
use tallyd.DlqReplay.{StoreFaults, replay_records, sorted_by, finish, listed, replay_listed, serve}
use tallyd.DlqReplay.Files.{Holds, remove-Stays}

named-sorted_by :
    (id rid : String) (failure : Option String) (lists : List String × List String)
    → contains id ((sorted_by rid failure lists).0) ≡ true
    → ((failure ≡ none) × (str_eq rid id ≡ true)) ⊎ (contains id (lists.0) ≡ true)
unfolding contains
named-sorted_by id rid none (replayed, failed) h = elim (Bool-cases (str_eq rid id)) [
  | inl same ↦ inl (refl, same)
  | inr other ↦ inr (ground arith)
]
named-sorted_by id rid (some cause) (replayed, failed) h = inr h

module _ {S : Type 0} (sink : Sink S) (provider : String) where
  -- The sink was handed these records one after the other, for this provider only, whatever it
  -- answered, and went from `s` to `t`.
  abbrev pub Offered : List DeadLetter → S → S → Type 0
  Offered [] s t = s ≡ t
  Offered (r ∷ rs) s t = Offered rs ((sink r.event (provider ∷ []) s).0) t

  -- The sink was handed the records, and took one of this event when that one's turn came.
  abbrev pub Accepted : List DeadLetter → S → S → String → Type 0
  Accepted rs s t id =
      (before : List DeadLetter) × (y : DeadLetter) × (after : List DeadLetter) × (u : S) × (v : S)
      × (rs ≡ before ++ y ∷ after)
      × (y.event.id ≡ id)
      × Offered before s u
      × (sink y.event (provider ∷ []) u ≡ (v, none))
      × Offered after v t

  Accepted-later :
      (r : DeadLetter) (rs : List DeadLetter) (s t : S) (id : String)
      → Accepted rs ((sink r.event (provider ∷ []) s).0) t id
      → Accepted (r ∷ rs) s t id
  Accepted-later r rs s t id (before, y, after, u, v, shape, same, earlier, taken, later) =
      (r ∷ before, y, after, u, v, ap (λ l. r ∷ l) shape, same, earlier, taken, later)

  replay_records-Offered :
      (rs : List DeadLetter) (s : S) → Offered rs s ((replay_records sink provider rs s).0)
  unfolding replay_records
  replay_records-Offered [] s = refl
  replay_records-Offered (r ∷ rs) s = replay_records-Offered rs ((sink r.event (provider ∷ []) s).0)

  replay_records-Accepted :
      (rs : List DeadLetter) (s : S) (id : String)
      → contains id ((replay_records sink provider rs s).1.0) ≡ true
      → Accepted rs s ((replay_records sink provider rs s).0) id
  unfolding replay_records contains
  replay_records-Accepted [] s id h = absurd (ground arith)
  replay_records-Accepted (r ∷ rs) s id h =
      let (u, failure) = sink r.event (provider ∷ []) s in
      elim (named-sorted_by id r.event.id failure ((replay_records sink provider rs u).1) h) [
        | inl (fine, same) ↦ (
          [],
          r,
          rs,
          s,
          u,
          refl,
          (eq_iff r.event.id id).0 same,
          refl,
          ap (λ f. (u, f)) fine,
          replay_records-Offered rs u,
        )
        | inr later ↦
            Accepted-later r rs s ((replay_records sink provider rs u).0) id
              (replay_records-Accepted rs u id later)
      ]

  -- A record of the store is there afterwards, or its event was accepted while the sink went from
  -- `s` to `t`.
  abbrev pub Safe : List DeadLetter → S → Dlq → S → Dlq → Type 0
  Safe rs s d t d' =
      (x : DeadLetter)
      → (Holds x (list_regular provider d)
          → Holds x (list_regular provider d') ⊎ Accepted rs s t x.event.id)
        × (Holds x (list_poison provider d)
            → Holds x (list_poison provider d') ⊎ Accepted rs s t x.event.id)

  untouched-Safe : (rs : List DeadLetter) (s : S) (d : Dlq) (t : S) → Safe rs s d t d
  untouched-Safe rs s d t x = (λ h. inl h, λ h. inl h)

  -- `finish` leaves the sink alone.
  finish-state :
      (faults : StoreFaults) (t : S) (lists : List String × List String) (d : Dlq)
      → (finish sink provider faults t lists d).0.0 ≡ t
  unfolding finish
  finish-state faults t ([], failed) d = refl
  finish-state faults t (id ∷ ids, failed) d = refl

  finish-Safe :
      (faults : StoreFaults) (rs : List DeadLetter) (s t : S) (lists : List String × List String)
      (d : Dlq)
      → ((id : String) → contains id (lists.0) ≡ true → Accepted rs s t id)
      → Safe rs s d t ((finish sink provider faults t lists d).0.1)
  unfolding finish
  finish-Safe faults rs s t ([], failed) d taken x = untouched-Safe rs s d t x
  finish-Safe faults rs s t (id ∷ ids, failed) d taken x =
      let (regular, poison) =
        remove-Stays faults.regular_fault faults.poison_fault provider id ids d x in
      (
        λ h. elim (regular h) [ inl there ↦ inl there | inr named ↦ inr (taken x.event.id named) ],
        λ h. elim (poison h) [ inl there ↦ inl there | inr named ↦ inr (taken x.event.id named) ],
      )

  replay_listed-Safe :
      (faults : StoreFaults) (include_poison : Bool) (s : S) (d : Dlq)
      → let after = (replay_listed sink provider faults include_poison s d).0 in
        Safe (listed provider include_poison d) s d after.0 after.1
  unfolding replay_listed
  replay_listed-Safe faults include_poison s d =
      let rs = listed provider include_poison d in
      let (t, lists) = replay_records sink provider rs s in
      rw (finish-state faults t lists d)
        (finish-Safe faults rs s t lists d (replay_records-Accepted rs s))

  -- Whatever the request and whichever store operations fail, after the handler each record that was
  -- in the regular or the poison file of the provider is still in that file, or its event was
  -- accepted: the sink was handed the records listed for this request one after the other, each for
  -- this provider only, in the state in which the one before had left it, and took one of the same
  -- event without an error when that one's turn came; the rest brought it to the state in which the
  -- handler leaves it.
  pub serve-Safe :
      (known : String → Bool) (faults : StoreFaults) (is_post include_poison : Bool) (s : S)
      (d : Dlq)
      → let after = (serve sink provider known faults is_post include_poison s d).0 in
        Safe (listed provider include_poison d) s d after.0 after.1
  unfolding serve
  serve-Safe known faults false include_poison s d = untouched-Safe _ s d s
  serve-Safe known faults true include_poison s d =
      let idle = untouched-Safe (listed provider include_poison d) s d s in
      elim (Bool-cases (str_eq provider "")) [
        | inl missing ↦ rw missing idle
        | inr named ↦ rw named (elim (Bool-cases (known provider)) [
          | inr unknown ↦ rw unknown idle
          | inl there ↦ rw there (elim (Bool-cases faults.list_fails) [
            | inl broken ↦ simp broken idle
            | inr fine ↦ simp fine (elim (Bool-cases (include_poison && faults.list_poison_fails)) [
              | inl broken ↦ simp broken idle
              | inr fine' ↦ simp fine' (replay_listed-Safe faults include_poison s d)
            ])
          ])
        ])
      ]
