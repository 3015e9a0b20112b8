-- ===== src/Wal/Writer/Late.antt =====
-- A request that reaches the channel of wal.go when writerLoop has returned.
use tallyd.Base.{
  ◌<◌, ◌≡◌, refl, sym, ap, ◌∙◌, Bool, none, some, List, [], ◌∷◌, ◌++◌, length, append_assoc,
  append-nil, arith,
}
use tallyd.Wal.Writer.{
  Job, returned, Writer, channel_capacity, send, signal_close, phase_turn, turn,
}

-- What may come after a state.
pub data Later (s : Writer) : Writer → Type 0 where
  now : Later s s
  then_sends :
      {t : Writer} (j : Job) → length t.channel < channel_capacity → Later s t → Later s (send j t)
  then_closes : {t : Writer} → Later s t → Later s (signal_close t)
  then_turns :
      {t u : Writer} (close_first sync_ok : Bool)
      → turn close_first sync_ok t ≡ some u
      → Later s t
      → Later s u

turn_returned :
    (close_first sync_ok : Bool) (s : Writer)
    → s.phase ≡ returned
    → turn close_first sync_ok s ≡ none
unfolding turn phase_turn
turn_returned close_first sync_ok s p = ap (λ q. phase_turn close_first sync_ok q s) p

record Stuck (s t : Writer) : Type 0 where
  phase : t.phase ≡ returned
  answered : t.answered ≡ s.answered
  kept : (more : List Job) × (t.channel ≡ s.channel ++ more)

Later-Stuck : (s t : Writer) → s.phase ≡ returned → Later s t → Stuck s t
unfolding send signal_close
Later-Stuck s t p now = record {
  phase = p;
  answered = refl;
  kept = ([], sym (append-nil s.channel));
}
Later-Stuck s t p (then_sends {t = u} j room l) =
    let k = Later-Stuck s u p l in
    record {
      phase = k.phase;
      answered = k.answered;
      kept = (
        k.kept.0 ++ j ∷ [],
        ap (λ c. c ++ j ∷ []) k.kept.1 ∙ append_assoc s.channel k.kept.0 (j ∷ []),
      );
    }
Later-Stuck s t p (then_closes {t = u} l) =
    let k = Later-Stuck s u p l in record { phase = k.phase; answered = k.answered; kept = k.kept }
Later-Stuck s t p (then_turns {t = u} close_first sync_ok e l) =
    let k = Later-Stuck s u p l in
    absurd (ground (arith, turn_returned close_first sync_ok u k.phase))

-- A request that passes the check of `closed` before Close sets it, but reaches the channel when the
-- writer has returned, is never answered: in every later state the answers are the same, the writer
-- has returned, and the request stands in the channel, so its caller waits for ever.
pub late_send_unanswered :
    (s t : Writer) (j : Job)
    → s.phase ≡ returned
    → Later (send j s) t
    → (t.answered ≡ s.answered)
      × (t.phase ≡ returned)
      × ((more : List Job) × (t.channel ≡ s.channel ++ j ∷ more))
unfolding send
late_send_unanswered s t j p l =
    let k = Later-Stuck (send j s) t p l in
    (k.answered, k.phase, (k.kept.0, k.kept.1 ∙ append_assoc s.channel (j ∷ []) k.kept.0))
