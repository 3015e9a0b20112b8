-- ===== src/Pipeline/Custody/Owed/Commits.antt =====
-- What commitBatch of wal.go, and the acks of a flush as batches of their own, do to what is owed.
use text.Mathlib.TextPositions.{eq_refl}
use tallyd.Dispatcher.{Enqueued}
use tallyd.Base.{
  if_both, ℕ, suc, ◌+◌, ◌<◌, ◌≡◌, ◌⊎◌, refl, sym, ap, ◌∙◌, inl, inr, String, Bool, true, false,
  ◌&&◌, Option, none, some, List, [], ◌∷◌, ◌++◌, str_eq, if◌then◌else◌, arith, Bool-cases,
}
use tallyd.Adapter.{Disposition}
use tallyd.Wal.Log.{Wal, member, gc_segments}
use tallyd.Wal.Commit.{
  Json, Change, Request, Faults, Outcome, Prepared, submitted, rejected, prepare_ack, ack_request,
  apply_change, apply_requests, succeeds, write_batch, commit_batch,
}
use tallyd.Wal.Recovery.{index_change}
use tallyd.Wal.Recovery.Effects.{index-apply_change}
use tallyd.Batcher.{Call, puts_dlq, acks, records_ack, records_send_error, schedules_retry}
use tallyd.Batcher.Workers.Turns.{acked}
use tallyd.Pipeline.Custody.{
  events_for, dispatched_change, dispatched, Routed, commit_ack, first_answer, ack_log, make_acks,
}
use tallyd.Pipeline.Custody.Owed.{
  owes, count, count-append, events_for-append, owes-ack, owes-change,
}

module _ (name k : String) where
  calls_append :
      (xs ys : Enqueued)
      → count k (events_for name (xs ++ ys))
        ≡ count k (events_for name xs) + count k (events_for name ys)
  calls_append xs ys =
      ap (count k) (events_for-append name xs ys)
      ∙ count-append k (events_for name xs) (events_for name ys)

  owes-apply_requests :
      (known : String → Bool) (sync_ok : Bool) (rs : List (Request × Faults)) (os : List Outcome)
      (w : Wal)
      → Routed known rs
      → let (w', answers) = apply_requests sync_ok rs os w in
        owes name k w'.index ≡ true
        → (owes name k w.index ≡ true)
          ⊎ (0 < count k (events_for name (dispatched known rs answers)))
  unfolding apply_requests dispatched
  owes-apply_requests known sync_ok [] os w routed = λ h. inl h
  owes-apply_requests known sync_ok (r ∷ rs) [] w routed = λ h. inl h
  owes-apply_requests known sync_ok ((req, faults) ∷ rs) (o ∷ os) w routed =
      elim (Bool-cases (succeeds sync_ok o)) [
        | inr refused ↦ rw refused (λ h.
            elim (owes-apply_requests known sync_ok rs os w routed.1 h) [
              | inl before ↦ inl before
              | inr sent ↦ inr (
                  omega (
                    arith,
                    calls_append (dispatched_change known req.change false)
                        (dispatched known rs (apply_requests sync_ok rs os w).1),
                  ))
            ])
        | inl fine ↦
            let w₁ = apply_change req.change o.seg_seq w in
            let both =
              calls_append (dispatched_change known req.change true)
                (dispatched known rs (apply_requests sync_ok rs os w₁).1) in
            rw fine (λ h. elim (owes-apply_requests known sync_ok rs os w₁ routed.1 h) [
              | inr sent ↦ inr (omega (arith, both))
              | inl between ↦
                  elim (owes-change known name k req.change o.seg_seq w.index routed.0 (
                    ap (owes name k) (sym (index-apply_change req.change o.seg_seq w)) ∙ between)) [
                      | inl before ↦ inl before
                      | inr sent ↦ inr (omega (arith, both))
                    ]
            ])
      ]

  -- A batch: what is owed behind it was owed before it, or is to be enqueued.
  pub owes-commit_batch :
      (known : String → Bool) (batch : List (Request × Faults)) (sync_ok : Bool) (w : Wal)
      → Routed known batch
      → let (w', answers) = commit_batch batch sync_ok w in
        owes name k w'.index ≡ true
        → (owes name k w.index ≡ true)
          ⊎ (0 < count k (events_for name (dispatched known batch answers)))
  unfolding commit_batch gc_segments
  owes-commit_batch known batch sync_ok w routed =
      owes-apply_requests known sync_ok batch (write_batch batch w).outcomes _ routed

  -- An ack alone: nothing is owed behind it that was not before, and not its event if it succeeds.
  abbrev Acks : String → Wal → Wal × Bool → Type 0
  Acks id w (w', ok) =
      (owes name k w'.index ≡ true → owes name k w.index ≡ true)
      × (ok ≡ true → str_eq id k ≡ true → owes name k w'.index ≡ false)

  one_ack :
      (r : Request) (faults : Faults) (sync_ok : Bool) (os : List Outcome) (w : Wal) (id : String)
      → r.change ≡ Change.acks id name
      → let (w', answers) = apply_requests sync_ok ((r, faults) ∷ []) os w in
        Acks id w (w', first_answer answers)
  unfolding apply_requests
  one_ack r faults sync_ok [] w id c = (λ h. h, λ ok. absurd (ground arith))
  one_ack r faults sync_ok (o ∷ os) w id c = elim (Bool-cases (succeeds sync_ok o)) [
    | inr refused ↦ rw refused (λ h. h, λ ok. absurd (ground arith))
    | inl fine ↦
        let index : owes name k (apply_change r.change o.seg_seq w).index
            ≡ (if str_eq id k && str_eq name name then false else owes name k w.index) =
          ap (owes name k) (index-apply_change r.change o.seg_seq w)
          ∙ ap (λ c. owes name k (index_change c o.seg_seq w.index)) c
          ∙ owes-ack name k id name o.seg_seq w.index in
        rw fine (λ h. ground arith, λ ok same. index ∙ rw (same, eq_refl name) refl)
  ]

  commit_ack-Acks :
      (p : Prepared) (faults : Faults) (sync_ok : Bool) (w : Wal) (id : String)
      → ((r : Request) → p ≡ submitted r → r.change ≡ Change.acks id name)
      → Acks id w (commit_ack p (faults, sync_ok) w)
  unfolding commit_ack commit_batch gc_segments
  commit_ack-Acks (rejected e) faults sync_ok w id c = (λ h. h, λ ok. absurd (ground arith))
  commit_ack-Acks (submitted r) faults sync_ok w id c =
      one_ack r faults sync_ok (write_batch ((r, faults) ∷ []) w).outcomes _ id (c r refl)

  ack_request-change :
      (payload : Option (List ℕ)) (c : Change) (r : Request)
      → ack_request payload c ≡ submitted r
      → r.change ≡ c
  unfolding ack_request
  ack_request-change none c r h = absurd (ground arith)
  ack_request-change (some payload) c r h = ground arith

  prepare_ack-change :
      (json : Json) (w : Wal) (id : String) (d : Disposition) (r : Request)
      → prepare_ack json w id name d ≡ submitted r
      → r.change ≡ Change.acks id name
  unfolding prepare_ack
  prepare_ack-change json w id d r = elim (Bool-cases w.closed) [
    | inl closed ↦ rw closed (λ h. absurd (ground arith))
    | inr opened ↦
        rw opened (ack_request-change (json.marshal_ack id name d) (Change.acks id name) r)
  ]

  ack_log-Acks :
      (json : Json) (outside : Faults × Bool) (id : String) (d : Disposition) (w : Wal)
      → Acks id w (ack_log json name outside id d w)
  unfolding ack_log
  ack_log-Acks json (faults, sync_ok) id d w =
      commit_ack-Acks (prepare_ack json w id name d) faults sync_ok w id
        (prepare_ack-change json w id d)

  member_head : (id : String) (ids : List String) → str_eq id k ≡ true → member k (id ∷ ids) ≡ true
  unfolding member
  member_head id ids h = rw h refl

  -- The failed acks are kept.
  pub make_acks-failed :
      (json : Json) (outside : ℕ → Faults × Bool) (calls : List Call) (w : Wal)
      (failed : List String)
      → member k failed ≡ true
      → member k (make_acks json name outside calls w failed).1 ≡ true
  unfolding make_acks member
  make_acks-failed json outside [] w failed h = h
  make_acks-failed json outside (acks id d ∷ calls) w failed h =
      let (w', ok) = ack_log json name (outside 0) id d w in
      make_acks-failed json (λ n. outside (suc n)) calls w' (if ok then failed else id ∷ failed)
        (if_both (λ l. member k l ≡ true) ok failed (id ∷ failed) (λ t. h) (λ f. ground arith))
  make_acks-failed json outside (puts_dlq e reason permanent ∷ calls) w failed h =
      make_acks-failed json outside calls w failed h
  make_acks-failed json outside (records_ack d ∷ calls) w failed h =
      make_acks-failed json outside calls w failed h
  make_acks-failed json outside (records_send_error d ∷ calls) w failed h =
      make_acks-failed json outside calls w failed h
  make_acks-failed json outside (schedules_retry q ∷ calls) w failed h =
      make_acks-failed json outside calls w failed h

  -- The acks of a flush: what is owed behind them was owed before, and was not among them, or its
  -- ack has failed.
  pub owes-make_acks :
      (json : Json) (outside : ℕ → Faults × Bool) (calls : List Call) (w : Wal)
      (failed : List String)
      → let (w', failed') = make_acks json name outside calls w failed in
        owes name k w'.index ≡ true
        → (owes name k w.index ≡ true) × ((acked k calls ≡ 0) ⊎ (member k failed' ≡ true))
  unfolding make_acks
  owes-make_acks json outside [] w failed = λ h. (h, inl refl)
  owes-make_acks json outside (acks id d ∷ calls) w failed = λ h.
      let (w₁, ok) = ack_log json name (outside 0) id d w in
      let failed₁ = if ok then failed else id ∷ failed in
      let (before, gone) = ack_log-Acks json (outside 0) id d w in
      let (owed, rest) = owes-make_acks json (λ n. outside (suc n)) calls w₁ failed₁ h in
      (
        before owed,
        elim (Bool-cases (str_eq id k)) [
          | inr other ↦ elim rest [
            | inl none_there ↦ inl (rw other (omega (arith, none_there)))
            | inr lost ↦ inr lost
          ]
          | inl same ↦ inr (elim (Bool-cases ok) [
            | inl fine ↦ absurd (ground (arith, gone fine same))
            | inr refused ↦
                make_acks-failed json (λ n. outside (suc n)) calls w₁ failed₁
                  (rw refused (member_head id failed same))
          ])
        ],
      )
  owes-make_acks json outside (puts_dlq e reason permanent ∷ calls) w failed =
      owes-make_acks json outside calls w failed
  owes-make_acks json outside (records_ack d ∷ calls) w failed =
      owes-make_acks json outside calls w failed
  owes-make_acks json outside (records_send_error d ∷ calls) w failed =
      owes-make_acks json outside calls w failed
  owes-make_acks json outside (schedules_retry q ∷ calls) w failed =
      owes-make_acks json outside calls w failed
