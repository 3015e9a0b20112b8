-- ===== src/Batcher/Workers/Draining.antt =====
-- The drain loop behind closeCh in run of batcher.go: the batch that it ends with.
use tallyd.Base.{
  ℕ, suc, ◌+◌, ◌<◌, ◌≡◌, refl, sym, ap, ◌∙◌, subst, String, true, some, List, [], ◌∷◌, ◌++◌,
  append_assoc, append-nil, length, length-append, arith,
}
use tallyd.Batcher.{RetryPolicy, Queued}
use tallyd.Batcher.Workers.{
  selecting, acquiring, emptying, Workers, close_ready, begin_flush, select_case, empty_channel,
  phase_turn, turn, Run,
}
use tallyd.Batcher.Workers.Closing.{Schedule, begins, moves, Schedule-Run}

begin_flush-acquiring :
    (ps : List Queued) (s : Workers)
    → 0 < length ps
    → (begin_flush ps true s).phase ≡ acquiring ps true
unfolding begin_flush
begin_flush-acquiring [] s h = absurd (omega arith)
begin_flush-acquiring (q ∷ qs) s h = refl

turn-selecting :
    (limit : ℕ) (s : Workers)
    → s.closing ≡ true
    → s.phase ≡ selecting
    → turn limit close_ready s ≡ some (record s { phase = emptying })
unfolding turn phase_turn select_case
turn-selecting limit s c p = rw (p, c) refl

turn-emptying :
    (limit : ℕ) (s : Workers) (ch : List Queued)
    → s.phase ≡ emptying
    → s.channel ≡ ch
    → turn limit close_ready s ≡ empty_channel ch s
unfolding turn phase_turn
turn-emptying limit s ch p c =
    ap (λ ph. phase_turn limit close_ready ph s) p ∙ ap (λ l. empty_channel l s) c

module _ (join : String → String) (policy : RetryPolicy) (limit : ℕ) (s : Workers) where
  -- The drain loop takes the whole channel before it flushes.
  drains :
      (n : ℕ) (ch : List Queued) (t : Workers)
      → t.phase ≡ emptying
      → t.channel ≡ ch
      → 0 < length t.pending + length ch
      → Schedule join policy limit s n 0 [] t
      → (u : Workers) × Schedule join policy limit s (n + suc (length ch)) 0 [] u
        × (u.phase ≡ acquiring (t.pending ++ ch) true)
  unfolding empty_channel
  drains n [] t p c h d =
      let u = begin_flush t.pending true t in
      (
        u,
        subst (λ m. Schedule join policy limit s m 0 [] u) (omega arith)
            (moves close_ready tt (turn-emptying limit t [] p c) d),
        begin_flush-acquiring t.pending t (omega arith)
            ∙ ap (λ l. acquiring l true) (sym (append-nil t.pending)),
      )
  drains n (q ∷ ch) t p c h d =
      let t' : Workers = record t { channel = ch; pending = t.pending ++ q ∷ [] } in
      let (u, run, phase) =
        drains (suc n) ch t' p refl (omega (arith, length-append t.pending (q ∷ [])))
          (moves close_ready tt (turn-emptying limit t (q ∷ ch) p c) d) in
      (
        u,
        subst (λ m. Schedule join policy limit s m 0 [] u) (omega arith) run,
        phase ∙ ap (λ l. acquiring l true) (append_assoc t.pending (q ∷ []) ch),
      )

  -- At the close the provider's limit is not looked at: whenever a batcher that is being closed stands
  -- in its select with more events pending and in its channel than the limit, the loop can take the
  -- close case and then comes to a flush of all of them as one batch, which exceeds the limit.
  pub drain_exceeds_limit :
      (qs : List Queued)
      → Run join policy limit qs s
      → s.closing ≡ true
      → s.phase ≡ selecting
      → limit < length s.pending + length s.channel
      → (t : Workers) × Schedule join policy limit s (2 + length s.channel) 0 [] t
        × Run join policy limit qs t
        × (t.phase ≡ acquiring (s.pending ++ s.channel) true)
        × (limit < length (s.pending ++ s.channel))
  drain_exceeds_limit qs r c p h =
      let s' : Workers = record s { phase = emptying } in
      let (t, run, phase) =
        drains 1 s.channel s' refl refl (omega arith)
          (moves close_ready tt (turn-selecting limit s c p) begins) in
      let steps : Schedule join policy limit s (2 + length s.channel) 0 [] t =
        subst (λ m. Schedule join policy limit s m 0 [] t) (omega arith) run in
      (
        t,
        steps,
        subst (λ l. Run join policy limit l t) (append-nil qs)
            (Schedule-Run join policy limit qs r steps),
        phase,
        omega (arith, length-append s.pending s.channel),
      )
