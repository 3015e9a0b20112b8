-- ===== src/Wal/Writer/Turns.antt =====
-- What one turn of writerLoop does to everything that its callers can see.
use tallyd.Base.{
  OnSome, OnSome-if, ℕ, ◌+◌, ◌*◌, ◌<◌, ◌≡◌, refl, sym, ap, ◌∙◌, Bool, true, false, ◌&&◌, none, List,
  [], ◌∷◌, ◌++◌, map, if◌then◌else◌, length, append_assoc, arith,
}
use tallyd.Wal.Commit.{commit_batch}
use tallyd.Wal.Invariant.{IsValid}
use tallyd.Wal.Batches.{commit_batch-IsValid}
use tallyd.Wal.Ledger.{Ledger, ledger_of, ledger_change, ledger_batch}
use tallyd.Wal.Ledger.Refinement.{commit_batch-ledger}
use tallyd.Wal.Writer.{
  Job, Phase, selecting, draining, returned, Writer, answers, commit, select_turn, shutting_turn,
  drain_turn, phase_turn, turn,
}
use tallyd.Wal.Writer.Batch.{answers-commit_batch}

-- Everything that was sent: answered, in a batch, or in the channel.
abbrev pub in_hand : Phase → List Job
in_hand selecting = []
in_hand (draining batch) = batch
in_hand returned = []

abbrev pub jobs_of : List (Job × Bool) → List Job
jobs_of answered = map (λ x. x.0) answered

abbrev pub all_sent : Writer → List Job
all_sent s = jobs_of s.answered ++ (in_hand s.phase ++ s.channel)

-- What the answers say of the ledger.
abbrev pub promised : List (Job × Bool) → Ledger → Ledger
promised [] ledger = ledger
promised (((r, faults), fine) ∷ xs) ledger =
    promised xs (if fine then ledger_change r.change ledger else ledger)

promised-append :
    (xs ys : List (Job × Bool)) (l : Ledger) → promised (xs ++ ys) l ≡ promised ys (promised xs l)
promised-append [] ys l = refl
promised-append (((r, faults), fine) ∷ xs) ys l = promised-append xs ys _

promised-answers :
    (batch : List Job) (results : List Bool) (l : Ledger)
    → promised (answers batch results) l ≡ ledger_batch batch results l
unfolding answers ledger_batch
promised-answers [] results l = refl
promised-answers (j ∷ batch) [] l = refl
promised-answers ((r, faults) ∷ batch) (fine ∷ results) l = promised-answers batch results _

-- How many turns are left at most, if nothing more is sent.
abbrev pub phase_work : Bool → Phase → ℕ
phase_work shutting selecting = if shutting then 1 else 2
phase_work shutting (draining batch) = 3
phase_work shutting returned = 0

pub phase_work_zero :
    (shutting : Bool) (phase : Phase) → phase_work shutting phase ≡ 0 → phase ≡ returned
phase_work_zero true selecting e = absurd (omega arith)
phase_work_zero false selecting e = absurd (omega arith)
phase_work_zero shutting (draining batch) e = absurd (omega arith)
phase_work_zero shutting returned e = refl

abbrev pub work : Writer → ℕ
work s = 3 * length s.channel + phase_work s.shutting s.phase

pub record Kept (s t : Writer) : Type 0 where
  pub order : all_sent t ≡ all_sent s
  pub closing : t.closing ≡ s.closing
  pub less : work t < work s
  pub valid : IsValid s.wal → IsValid t.wal
  pub ledger :
      (l : Ledger)
      → ledger_of s.wal.index ≡ promised s.answered l
      → ledger_of t.wal.index ≡ promised t.answered l

jobs_of-append : (xs ys : List (Job × Bool)) → jobs_of (xs ++ ys) ≡ jobs_of xs ++ jobs_of ys
jobs_of-append [] ys = refl
jobs_of-append (x ∷ xs) ys = ap (λ l. x.0 ∷ l) (jobs_of-append xs ys)

commit-Kept :
    (sync_ok : Bool) (batch : List Job) (s : Writer)
    → s.phase ≡ draining batch
    → s.channel ≡ []
    → Kept s (commit sync_ok batch s)
unfolding commit
commit-Kept sync_ok batch s p c =
    let results = (commit_batch batch sync_ok s.wal).1 in
    record {
      order =
          rw (p, c, jobs_of-append s.answered (answers batch results))
            (ap (λ l. (jobs_of s.answered ++ l) ++ []) (answers-commit_batch batch sync_ok s.wal)
              ∙ append_assoc (jobs_of s.answered) batch []);
      closing = refl;
      less = rw p (ground arith);
      valid = commit_batch-IsValid batch sync_ok s.wal;
      ledger = λ l e.
          commit_batch-ledger batch sync_ok s.wal
          ∙ ap (ledger_batch batch results) e
          ∙ sym (promised-answers batch results (promised s.answered l))
          ∙ sym (promised-append s.answered (answers batch results) l);
    }

take-Kept :
    (batch js : List Job) (j : Job) (s : Writer)
    → in_hand s.phase ≡ batch
    → s.channel ≡ j ∷ js
    → 0 < phase_work s.shutting s.phase
    → Kept s (record s { channel = js; phase = draining (batch ++ j ∷ []) })
take-Kept batch js j s p c awake = record {
  order = rw (p, c) (ap (λ l. jobs_of s.answered ++ l) (append_assoc batch (j ∷ []) js));
  closing = refl;
  less = rw c (omega arith);
  valid = λ v. v;
  ledger = λ l e. e;
}

-- A turn that moves no request.
move-Kept :
    (shutting : Bool) (phase : Phase) (s : Writer)
    → in_hand phase ≡ in_hand s.phase
    → phase_work shutting phase < phase_work s.shutting s.phase
    → Kept s (record s { shutting = shutting; phase = phase })
move-Kept shutting phase s p h = record {
  order = ap (λ l. jobs_of s.answered ++ (l ++ s.channel)) p;
  closing = refl;
  less = omega (arith, h);
  valid = λ v. v;
  ledger = λ l e. e;
}

drain_turn-Kept :
    (sync_ok : Bool) (batch ch : List Job) (s : Writer)
    → s.phase ≡ draining batch
    → s.channel ≡ ch
    → OnSome (Kept s) (drain_turn sync_ok batch ch s)
unfolding drain_turn
drain_turn-Kept sync_ok batch [] s p c = commit-Kept sync_ok batch s p c
drain_turn-Kept sync_ok batch (j ∷ js) s p c =
    take-Kept batch js j s (ap in_hand p) c (rw p (omega arith))

shutting_turn-Kept :
    (ch : List Job) (s : Writer)
    → s.phase ≡ selecting
    → s.shutting ≡ true
    → s.channel ≡ ch
    → OnSome (Kept s) (shutting_turn ch s)
unfolding shutting_turn
shutting_turn-Kept [] s p d c =
    move-Kept s.shutting returned s (sym (ap in_hand p)) (rw (p, d) (omega arith))
shutting_turn-Kept (j ∷ js) s p d c = take-Kept [] js j s (ap in_hand p) c (rw (p, d) (omega arith))

select_turn-Kept :
    (close_first : Bool) (ch : List Job) (s : Writer)
    → s.phase ≡ selecting
    → s.shutting ≡ false
    → s.channel ≡ ch
    → OnSome (Kept s) (select_turn close_first ch s)
unfolding select_turn
select_turn-Kept close_first [] s p d c =
    OnSome-if (Kept s) s.closing _ none
      (λ closed. move-Kept true s.phase s refl (rw (p, d) (omega arith))) (λ quiet. tt)
select_turn-Kept close_first (j ∷ js) s p d c =
    OnSome-if (Kept s) (s.closing && close_first) _ _
      (λ closed. move-Kept true s.phase s refl (rw (p, d) (omega arith)))
      (λ taken. take-Kept [] js j s (ap in_hand p) c (rw (p, d) (omega arith)))

phase_turn-Kept :
    (close_first sync_ok : Bool) (phase : Phase) (s : Writer)
    → s.phase ≡ phase
    → OnSome (Kept s) (phase_turn close_first sync_ok phase s)
unfolding phase_turn
phase_turn-Kept close_first sync_ok selecting s p =
    OnSome-if (Kept s) s.shutting _ _ (λ d. shutting_turn-Kept s.channel s p d refl)
      (λ d. select_turn-Kept close_first s.channel s p d refl)
phase_turn-Kept close_first sync_ok (draining batch) s p =
    drain_turn-Kept sync_ok batch s.channel s p refl
phase_turn-Kept close_first sync_ok returned s p = tt

-- A turn loses no request and keeps their order, leaves the invariant of the state and what the
-- answers promise, and there are only so many turns before the next request is needed.
pub turn-Kept :
    (close_first sync_ok : Bool) (s : Writer) → OnSome (Kept s) (turn close_first sync_ok s)
unfolding turn
turn-Kept close_first sync_ok s = phase_turn-Kept close_first sync_ok s.phase s refl
