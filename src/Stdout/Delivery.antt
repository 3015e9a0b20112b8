-- ===== src/Stdout/Delivery.antt =====
-- A flush of batcher.go with the adapter of stdout.go.
use tallyd.Base.{
  ℕ, ◌≡◌, refl, ap, ◌⊎◌, inl, inr, String, Option, none, some, List, [], ◌∷◌, map, ℤ, Map, lookup,
  insert, lookup-insert, Option-cases, arith,
}
use tallyd.Adapter.{Event, ok, EventResult}
use tallyd.Batcher.{
  RetryPolicy, Queued, encoded, Call, acks, records_ack, records_send_error, ack, resolve,
  resolve_all, resolve_failed, by_id, result_of, flush, flush_sent, flush_encoded,
}
use tallyd.Batcher.Flush.{for_each}
use tallyd.Stdout.{EventsJson, accept_all, send, send_decoded, stdout}

-- Every entry is an acceptance.
abbrev AllAccepting : Map EventResult → Type 0
AllAccepting m = (k : String) (r : EventResult) → lookup k m ≡ some r → r.disposition ≡ ok

insert-AllAccepting :
    (e : Event) (m : Map EventResult)
    → AllAccepting m
    → AllAccepting (insert e.id (record { event_id = e.id; disposition = ok; error = none }) m)
insert-AllAccepting e m h k r found = ground (
  arith,
  lookup-insert e.id k (record { event_id = e.id; disposition = ok; error = none }) m,
  h k r,
)

nil-AllAccepting : AllAccepting []
unfolding lookup
nil-AllAccepting k r found = absurd (ground arith)

by_id-AllAccepting :
    (es : List Event) (m : Map EventResult)
    → AllAccepting m
    → AllAccepting (by_id (accept_all es) m)
unfolding by_id accept_all
by_id-AllAccepting [] m h = h
by_id-AllAccepting (e ∷ es) m h = by_id-AllAccepting es _ (insert-AllAccepting e m h)

result_of-ok :
    (q : Queued) (m : Map EventResult)
    → AllAccepting m
    → (result_of q (lookup q.event.id m)).disposition ≡ ok
result_of-ok q m h = elim (Option-cases (lookup q.event.id m)) [
  | inl absent ↦ rw absent refl
  | inr (r, found) ↦ rw found (h q.event.id r found)
]

-- Each event is acked as accepted.
abbrev pub acked : List Queued → List Call
acked batch = for_each (λ q. acks q.event.id ok ∷ records_ack ok ∷ []) batch

module _ (join : String → String) (policy : RetryPolicy) (now : ℕ) where
  resolve-acks :
      (q : Queued) (r : EventResult)
      → r.disposition ≡ ok
      → resolve join policy now q r.disposition r.error ≡ acks q.event.id ok ∷ records_ack ok ∷ []
  unfolding resolve ack
  resolve-acks q r e = rw e refl

  resolve_all-acked :
      (m : Map EventResult) (batch : List Queued)
      → AllAccepting m
      → resolve_all join policy now m batch ≡ acked batch
  unfolding resolve_all
  resolve_all-acked m [] h = refl
  resolve_all-acked m (q ∷ qs) h = rw (
    resolve-acks q (result_of q (lookup q.event.id m)) (result_of-ok q m h),
    resolve_all-acked m qs h,
  )

  resolve_failed-acked :
      (cause : String) (batch : List Queued)
      → resolve_failed join policy now ok cause batch ≡ acked batch
  unfolding resolve_failed resolve ack
  resolve_failed-acked cause [] = refl
  resolve_failed-acked cause (q ∷ qs) =
      ap (λ l. acks q.event.id ok ∷ records_ack ok ∷ l) (resolve_failed-acked cause qs)

  module _ (json : EventsJson) (limit : ℤ) where
    send_decoded-acked :
        (failure : String) (decoded : Option (List Event)) (batch : List Queued)
        → (flush_sent (stdout json limit) join policy now (send_decoded failure decoded) batch
            ≡ acked batch)
          ⊎ (flush_sent (stdout json limit) join policy now (send_decoded failure decoded) batch
              ≡ records_send_error ok ∷ acked batch)
    unfolding flush_sent send_decoded stdout
    send_decoded-acked failure none batch =
        inr (ap (λ l. records_send_error ok ∷ l) (resolve_failed-acked failure batch))
    send_decoded-acked failure (some events) batch =
        inl (resolve_all-acked _ batch (by_id-AllAccepting events [] nil-AllAccepting))

    -- A flush to stdout whose events could be encoded acks every event of the batch as accepted, in
    -- order, and does nothing else, but for the count of a send error where the body cannot be
    -- decoded again: then too every event is accepted.
    pub stdout-acked :
        (batch : List Queued) (body : List ℕ)
        → json.marshal (map (λ q. q.event) batch) ≡ encoded body
        → (flush (stdout json limit) join policy now batch ≡ acked batch)
          ⊎ (flush (stdout json limit) join policy now batch ≡ records_send_error ok ∷ acked batch)
    unfolding flush flush_encoded stdout send
    stdout-acked batch body e =
        rw e (send_decoded-acked (json.failure body) (json.unmarshal body) batch)
