-- ===== src/Wal/Writer/Stopping.antt =====
-- Every request that reaches writerLoop of wal.go before it returns is answered, in order.
use tallyd.Base.{
  OnSome, OnSome-if, some-OnSome, ℕ, zero, suc, ◌≤◌, ◌≡◌, refl, sym, ap, ◌∙◌, ◌⊎◌, inl, inr, Bool,
  true, false, ◌&&◌, none, some, List, [], ◌∷◌, ◌++◌, append-nil, arith, Option-cases,
}
use tallyd.Wal.Log.{Wal}
use tallyd.Wal.Invariant.{IsValid}
use tallyd.Wal.Writer.{
  Job, Phase, selecting, draining, returned, Writer, commit, select_turn, shutting_turn, drain_turn,
  phase_turn, turn, Run,
}
use tallyd.Wal.Writer.Turns.{in_hand, jobs_of, all_sent, phase_work_zero, work, Kept, turn-Kept}
use tallyd.Wal.Writer.Answers.{run-Linear}

-- writerLoop by itself: turn after turn, until it blocks or returns, for the choices of the scheduler
-- and of the disk.

unfoldable pub drive : ℕ → (ℕ → Bool × Bool) → Writer → Writer
drive zero choices s = s
drive (suc fuel) choices s = elim (turn (choices fuel).0 (choices fuel).1 s) [
  | none ↦ s
  | some t ↦ drive fuel choices t
]

-- The writer has not returned past a request.
abbrev pub IsLive : Writer → Type 0
IsLive s = s.phase ≡ returned → s.channel ≡ []

-- Where the select has no ready case.
abbrev IsIdle : Writer → Type 0
IsIdle s = (s.phase ≡ returned) ⊎ ((s.phase ≡ selecting) × (s.channel ≡ []) × (s.closing ≡ false))

drain_turn-IsLive :
    (sync_ok : Bool) (batch ch : List Job) (s : Writer)
    → OnSome IsLive (drain_turn sync_ok batch ch s)
unfolding drain_turn commit
drain_turn-IsLive sync_ok batch [] s = λ e. cc
drain_turn-IsLive sync_ok batch (j ∷ js) s = λ e. cc

shutting_turn-IsLive :
    (ch : List Job) (s : Writer) → s.channel ≡ ch → OnSome IsLive (shutting_turn ch s)
unfolding shutting_turn
shutting_turn-IsLive [] s c = λ e. c
shutting_turn-IsLive (j ∷ js) s c = λ e. cc

select_turn-IsLive :
    (close_first : Bool) (ch : List Job) (s : Writer)
    → s.phase ≡ selecting
    → OnSome IsLive (select_turn close_first ch s)
unfolding select_turn
select_turn-IsLive close_first [] s p =
    OnSome-if IsLive s.closing _ none (λ closed e. cc) (λ quiet. tt)
select_turn-IsLive close_first (j ∷ js) s p =
    OnSome-if IsLive (s.closing && close_first) _ _ (λ closed e. cc) (λ taken e. cc)

phase_turn-IsLive :
    (close_first sync_ok : Bool) (phase : Phase) (s : Writer)
    → s.phase ≡ phase
    → OnSome IsLive (phase_turn close_first sync_ok phase s)
unfolding phase_turn
phase_turn-IsLive close_first sync_ok selecting s p =
    OnSome-if IsLive s.shutting _ _ (λ d. shutting_turn-IsLive s.channel s refl)
      (λ d. select_turn-IsLive close_first s.channel s p)
phase_turn-IsLive close_first sync_ok (draining batch) s p =
    drain_turn-IsLive sync_ok batch s.channel s
phase_turn-IsLive close_first sync_ok returned s p = tt

turn-IsLive : (close_first sync_ok : Bool) (s : Writer) → OnSome IsLive (turn close_first sync_ok s)
unfolding turn
turn-IsLive close_first sync_ok s = phase_turn-IsLive close_first sync_ok s.phase s refl

select_turn-IsIdle :
    (close_first : Bool) (ch : List Job) (s : Writer)
    → s.phase ≡ selecting
    → s.channel ≡ ch
    → select_turn close_first ch s ≡ none
    → IsIdle s
unfolding select_turn
select_turn-IsIdle close_first [] s p c e = inr (p, c, ground arith)
select_turn-IsIdle close_first (j ∷ js) s p c e = absurd (ground arith)

phase_turn-IsIdle :
    (close_first sync_ok : Bool) (phase : Phase) (s : Writer)
    → s.phase ≡ phase
    → phase_turn close_first sync_ok phase s ≡ none
    → IsIdle s
unfolding phase_turn
phase_turn-IsIdle close_first sync_ok selecting s p e = selecting-IsIdle s.shutting refl
  where
    selecting-IsIdle : (b : Bool) → s.shutting ≡ b → IsIdle s
    selecting-IsIdle true d = absurd (not_none s.channel (ground arith))
      where
        not_none : (ch : List Job) → ¬ (shutting_turn ch s ≡ none)
        not_none [] q = ground arith
        not_none (j ∷ js) q = ground arith
    selecting-IsIdle false d = select_turn-IsIdle close_first s.channel s p refl (ground arith)
phase_turn-IsIdle close_first sync_ok (draining batch) s p e = absurd (not_none s.channel e)
  where
    not_none : (ch : List Job) → ¬ (drain_turn sync_ok batch ch s ≡ none)
    not_none [] q = ground arith
    not_none (j ∷ js) q = ground arith
phase_turn-IsIdle close_first sync_ok returned s p e = inl p

turn-IsIdle :
    (close_first sync_ok : Bool) (s : Writer) → turn close_first sync_ok s ≡ none → IsIdle s
unfolding turn
turn-IsIdle close_first sync_ok s e = phase_turn-IsIdle close_first sync_ok s.phase s refl e

out_of_work : (s : Writer) → work s ≡ 0 → s.phase ≡ returned
out_of_work s e = phase_work_zero s.shutting s.phase (omega arith)

-- The writer that has stopped.
record Stopped (s t : Writer) : Type 0 where
  order : all_sent t ≡ all_sent s
  empty : (in_hand t.phase ≡ []) × (t.channel ≡ [])
  returns : s.closing ≡ true → t.phase ≡ returned

idle-Stopped : (s : Writer) → IsLive s → IsIdle s → Stopped s s
idle-Stopped s live (inl p) = record {
  order = refl;
  empty = (ap in_hand p, live p);
  returns = λ c. p;
}
idle-Stopped s live (inr (p, c, quiet)) = record {
  order = refl;
  empty = (ap in_hand p, c);
  returns = λ closed. absurd (ground arith);
}

drive-Stopped :
    (fuel : ℕ) (choices : ℕ → Bool × Bool) (s : Writer)
    → IsLive s
    → work s ≤ fuel
    → Stopped s (drive fuel choices s)
unfolding drive
drive-Stopped zero choices s live h = idle-Stopped s live (inl (out_of_work s (omega arith)))
drive-Stopped (suc fuel) choices s live h =
    let (close_first, sync_ok) = choices fuel in
    elim (Option-cases (turn close_first sync_ok s)) [
      | inl e ↦ rw (drive, e) (idle-Stopped s live (turn-IsIdle close_first sync_ok s e))
      | inr (t, e) ↦
          let k = some-OnSome (Kept s) _ t e (turn-Kept close_first sync_ok s) in
          let rest =
            drive-Stopped fuel choices t
              (some-OnSome IsLive _ t e (turn-IsLive close_first sync_ok s))
              (omega (arith, k.less)) in
          rw (drive, e)
            record {
              order = rest.order ∙ k.order;
              empty = rest.empty;
              returns = λ c. rest.returns (k.closing ∙ c);
            }
    ]

-- When no more requests are sent, the writer answers all that were: in a state that is reached from
-- a valid one, and in which it has not returned past a request, it stops after at most three turns
-- for each request in the channel and three more, whatever the scheduler picks and the disk
-- refuses; then every request that was ever sent has been answered, in the order of sending, and if
-- Close has been called the writer has returned.
pub drive-answers :
    {w : Wal} {js : List Job} {s : Writer} (choices : ℕ → Bool × Bool)
    → IsValid w
    → Run w js s
    → IsLive s
    → let t = drive (work s) choices s in
      (jobs_of t.answered ≡ js) × (s.closing ≡ true → t.phase ≡ returned)
drive-answers {w} {js} {s} choices v r live =
    let stop = drive-Stopped (work s) choices s live (omega arith) in
    let t = drive (work s) choices s in
    let nothing : in_hand t.phase ++ t.channel ≡ [] = rw (stop.empty.0, stop.empty.1) refl in
    (
      sym (append-nil (jobs_of t.answered))
          ∙ ap (λ l. jobs_of t.answered ++ l) (sym nothing)
          ∙ stop.order
          ∙ (run-Linear v r).order,
      stop.returns,
    )
