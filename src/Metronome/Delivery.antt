-- ===== src/Metronome/Delivery.antt =====
-- A flush of batcher.go with the adapter of metronome.go: what an HTTP answer means for the batch.
use tallyd.Base.{
  ℕ, zero, suc, ◌≤◌, ◌<◌, ◌≡◌, refl, ap, inl, inr, String, str_append, Bool, true, not, ◌&&◌, some,
  List, [], ◌∷◌, ◌++◌, map, ltb, leb, ltb→ge, ◌==◌, if◌then◌else◌, ℤ, pos, negsuc, arith,
  Bool-cases, lookup,
}
use tallyd.Adapter.{Disposition, ok, retry, dead_letter}
use tallyd.Batcher.{
  RetryPolicy, Queued, encoded, Call, puts_dlq, acks, records_ack, records_send_error, ack,
  dead_letters, retry_or_park, resolve, resolve_all, resolve_failed, by_id, flush, flush_sent,
  flush_encoded, max_batch, Input, run,
}
use tallyd.Batcher.Flush.{for_each}
use tallyd.Batcher.Queue.{IsOpen, AllAtMost, run_bounded}
use tallyd.Metronome.{
  max_batch_size, Formats, encode, Http, no_answer, answers, is_success, status_error, send,
  classify_status, classify, metronome,
}

-- 4xx but 429
abbrev is_rejection : ℕ → Bool
is_rejection status = leb 400 status && (ltb status 500 && not (status == 429))

classify_status-rejection :
    (status : ℕ) → classify_status status ≡ (if is_rejection status then dead_letter else retry)
unfolding classify_status
classify_status-rejection status = ground arith

module _ (join : String → String) (policy : RetryPolicy) (now : ℕ) where
  resolve_failed-for_each :
      (d : Disposition) (cause : String) (batch : List Queued)
      → resolve_failed join policy now d cause batch
        ≡ for_each (λ q. resolve join policy now q d (some cause)) batch
  unfolding resolve_failed
  resolve_failed-for_each d cause [] = refl
  resolve_failed-for_each d cause (q ∷ qs) =
      ap (λ l. resolve join policy now q d (some cause) ++ l) (resolve_failed-for_each d cause qs)

  resolve_all-for_each :
      (batch : List Queued)
      → resolve_all join policy now [] batch
        ≡ for_each (λ q. acks q.event.id ok ∷ records_ack ok ∷ []) batch
  unfolding resolve_all resolve ack lookup
  resolve_all-for_each [] = refl
  resolve_all-for_each (q ∷ qs) =
      ap (λ l. acks q.event.id ok ∷ records_ack ok ∷ l) (resolve_all-for_each qs)

  -- What an answer does to the events of a batch, by the range of its status.
  abbrev pub delivered : Formats → Http → List Queued → List Call
  delivered formats (no_answer cause) batch =
      records_send_error retry
      ∷ for_each (λ q. retry_or_park join policy now q (some (str_append "metronome: " cause)))
          batch
  delivered formats (answers status body) batch =
      let cause = status_error formats status body in
      if leb 200 status && ltb status 300
      then for_each (λ q. acks q.event.id ok ∷ records_ack ok ∷ []) batch
      else if is_rejection status
      then records_send_error dead_letter
        ∷ for_each
            (λ q.
              puts_dlq q.event cause true
              ∷ acks q.event.id dead_letter
              ∷ records_ack dead_letter
              ∷ [])
            batch
      else records_send_error retry
        ∷ for_each (λ q. retry_or_park join policy now q (some cause)) batch

  module _ (formats : Formats) (http : List ℕ → Http) (limit : ℤ) where
    flush_sent-delivered :
        (answer : Http) (batch : List Queued)
        → flush_sent (metronome formats http limit) join policy now (send formats answer) batch
          ≡ delivered formats answer batch
    unfolding flush_sent send metronome classify is_success resolve dead_letters ack by_id
        classify_status
    flush_sent-delivered (no_answer cause) batch =
        ap (λ l. records_send_error retry ∷ l)
          (resolve_failed-for_each retry (str_append "metronome: " cause) batch)
    flush_sent-delivered (answers status body) batch =
        elim (Bool-cases (leb 200 status && ltb status 300)) [
          | inl success ↦ rw success (resolve_all-for_each batch)
          | inr failure ↦ elim (Bool-cases (is_rejection status)) [
            | inl rejected ↦
                rw (failure, classify_status-rejection status, rejected)
                  (ap (λ l. records_send_error dead_letter ∷ l)
                    (resolve_failed-for_each dead_letter (status_error formats status body) batch))
            | inr passing ↦
                rw (failure, classify_status-rejection status, passing)
                  (ap (λ l. records_send_error retry ∷ l)
                    (resolve_failed-for_each retry (status_error formats status body) batch))
          ]
        ]

    -- A flush whose events could be encoded, by what the HTTP client answers to the body. A 2xx
    -- status acks every event of the batch as accepted. A 4xx status other than 429 puts every event
    -- into the dead-letter queue as a permanent failure, with the status in the reason, and then acks
    -- it as dead letter. Any other status, 429 and 5xx among them, and no answer at all, leave every
    -- event to the retry budget: one more attempt, or the dead-letter queue if it is spent. The
    -- events are in the order of the batch, and none is left out.
    pub metronome-delivered :
        (batch : List Queued) (body : List ℕ)
        → encode formats (map (λ q. q.event) batch) ≡ encoded body
        → flush (metronome formats http limit) join policy now batch
          ≡ delivered formats (http body) batch
    unfolding flush flush_encoded metronome
    metronome-delivered batch body e = rw e (flush_sent-delivered (http body) batch)

-- A size that a batcher takes as it is, and at most Metronome's limit.
limited :
    (limit : ℤ)
    → (0 < max_batch (pos (max_batch_size limit))) × (max_batch (pos (max_batch_size limit)) ≤ 100)
unfolding max_batch_size max_batch
limited (pos zero) = omega arith
limited (pos (suc n)) = elim (Bool-cases (ltb 100 (suc n))) [
  | inl above ↦ rw above (omega arith, omega arith)
  | inr below ↦ rw below (omega arith, ltb→ge 100 (suc n) below)
]
limited (negsuc n) = omega arith

AllAtMost-weaken : (a b : ℕ) (bs : List (List Queued)) → a ≤ b → AllAtMost a bs → AllAtMost b bs
AllAtMost-weaken a b [] h k = tt
AllAtMost-weaken a b (x ∷ bs) h k = (omega (arith, k.0), AllAtMost-weaken a b bs h k.1)

-- The batches of a batcher with this adapter, until it is closed: whatever batch size is configured,
-- also none or one above Metronome's limit, none has more than 100 events.
pub metronome_bounded :
    (formats : Formats) (http : List ℕ → Http) (limit : ℤ) (inputs : List Input)
    → IsOpen inputs
    → AllAtMost 100 (run (max_batch ((metronome formats http limit).max_batch_size)) [] inputs).1
unfolding metronome
metronome_bounded formats http limit inputs o =
    let limited_size = limited limit in
    let size = max_batch (pos (max_batch_size limit)) in
    AllAtMost-weaken size 100 (run size [] inputs).1 limited_size.1
      (run_bounded size [] inputs limited_size.0 o).0
