-- ===== src/Pipeline/Custody/Invariant.antt =====
-- Every event that the log owes to a provider is in somebody's hands.
use tallyd.Base.{
  OnSome, OnSome-if, some-OnSome, if_both, ℕ, ◌+◌, ◌≤◌, ◌<◌, ◌≡◌, ◌⊎◌, refl, ap, inl, inr, String,
  Bool, true, false, ◌&&◌, ◌||◌, not, none, List, [], ◌∷◌, ◌++◌, length, ltb, leb, arith,
}
use tallyd.Wal.Log.{member}
use tallyd.Wal.Commit.{Json, commit_batch}
use tallyd.Batcher.{RetryPolicy, Queued, flush}
use tallyd.Batcher.Workers.{
  RunPhase, selecting, acquiring, emptying, returned, Workers, new_workers, queue_capacity,
  default_max_in_flight, enqueue, signal_close, begin_flush, Ready, event_ready, timer_ready,
  close_ready, receive, select_case, empty_channel, acquire, phase_turn, turn, end_flush, fire, Run,
}
use tallyd.Batcher.Workers.Turns.{copies, copies_in, copies-append, acked, acked-append, held}
use tallyd.Batcher.Workers.Conservation.{run-everywhere}
use tallyd.Pipeline.Custody.{
  Daemon, events_for, dispatched, new_queued, begun, after_commit, after_flush, Serving, begins,
  commits, enqueues, closes, turns, ends_flush, fires,
}
use tallyd.Pipeline.Custody.Owed.{owes, count, count-append}
use tallyd.Pipeline.Custody.Owed.Commits.{make_acks-failed, owes-commit_batch, owes-make_acks}
use tallyd.Pipeline.Custody.Keys.{open_wal-enqueues}

-- A turn of the run loop, and enqueue, make no calls.
abbrev SameCalls : Workers → Workers → Type 0
SameCalls s t = t.calls ≡ s.calls

calls-begin_flush :
    (ps : List Queued) (leaving : Bool) (s : Workers) → SameCalls s (begin_flush ps leaving s)
unfolding begin_flush
calls-begin_flush [] leaving s = refl
calls-begin_flush (q ∷ qs) leaving s = refl

receive-SameCalls :
    (limit : ℕ) (ch : List Queued) (s : Workers) → OnSome (SameCalls s) (receive limit ch s)
unfolding receive
receive-SameCalls limit [] s = tt
receive-SameCalls limit (q ∷ qs) s =
    let grown = s.pending ++ q ∷ [] in
    let s' = record s { channel = qs; pending = grown } in
    if_both (SameCalls s) (leb limit (length grown)) _ s' (λ full. calls-begin_flush grown false s')
      (λ room. refl)

empty_channel-SameCalls :
    (ch : List Queued) (s : Workers) → OnSome (SameCalls s) (empty_channel ch s)
unfolding empty_channel
empty_channel-SameCalls [] s = calls-begin_flush s.pending true s
empty_channel-SameCalls (q ∷ qs) s = refl

phase_turn-SameCalls :
    (limit : ℕ) (ready : Ready) (phase : RunPhase) (s : Workers)
    → OnSome (SameCalls s) (phase_turn limit ready phase s)
unfolding phase_turn select_case acquire
phase_turn-SameCalls limit event_ready selecting s = receive-SameCalls limit s.channel s
phase_turn-SameCalls limit timer_ready selecting s = calls-begin_flush s.pending false s
phase_turn-SameCalls limit close_ready selecting s =
    OnSome-if (SameCalls s) s.closing _ none (λ closed. refl) (λ quiet. tt)
phase_turn-SameCalls limit ready (acquiring batch leaving) s =
    OnSome-if (SameCalls s) (ltb (length s.in_flight) default_max_in_flight) _ none (λ room. refl)
      (λ full. tt)
phase_turn-SameCalls limit ready emptying s = empty_channel-SameCalls s.channel s
phase_turn-SameCalls limit ready returned s = tt

turn-SameCalls :
    (limit : ℕ) (ready : Ready) (s : Workers) → OnSome (SameCalls s) (turn limit ready s)
unfolding turn
turn-SameCalls limit ready s = phase_turn-SameCalls limit ready s.phase s

enqueue-SameCalls :
    (close_first : Bool) (q : Queued) (s : Workers) → OnSome (SameCalls s) (enqueue close_first q s)
unfolding enqueue
enqueue-SameCalls close_first q s =
    let room = ltb (length s.channel) queue_capacity in
    OnSome-if (SameCalls s) (s.closing && (close_first || not room)) _ _ (λ drops. refl)
      (λ keeps. OnSome-if (SameCalls s) room _ none (λ fits. refl) (λ full. tt))

-- Events with this id that some goroutine, the batcher's channel, its batches or its timers have, or
-- that enqueue gave up at the close.
abbrev pub in_hands : String → Daemon → ℕ
in_hands k d =
    count k d.waiting
    + (copies k d.workers.channel
        + (copies k d.workers.pending
            + (copies k (held d.workers.phase)
                + (copies_in k d.workers.in_flight
                    + (copies k d.workers.timers + copies k d.workers.dropped)))))

-- More events with this id have come to the batcher, or are on their way, than it has acked.
abbrev IsKept : String → String → Daemon → Type 0
IsKept name k d =
    owes name k d.log.index ≡ true
    → (acked k d.workers.calls < copies k d.enqueued + count k d.waiting)
      ⊎ (member k d.failed_acks ≡ true)

same_calls :
    (name k : String) (d : Daemon) (t : Workers)
    → t.calls ≡ d.workers.calls
    → IsKept name k d
    → IsKept name k (record d { workers = t })
same_calls name k d t e kept h = elim (kept h) [
  | inl more ↦ inl (omega (arith, ap (acked k) e, more))
  | inr lost ↦ inr lost
]

module _ {json : Json} {known : String → Bool} {join : String → String} {policy : RetryPolicy}
    {limit : ℕ} {name : String} where
  -- What the batcher has been through.
  Serving-Run :
      {d : Daemon}
      → Serving json known join policy limit name d
      → Run join policy limit d.enqueued d.workers
  unfolding begun after_commit after_flush
  Serving-Run (begins ms mb fs e) = Run.started
  Serving-Run (commits batch sync_ok routed r) = Serving-Run r
  Serving-Run (enqueues close_first now before e after w q r) =
      Run.enqueues close_first (new_queued e now) q (Serving-Run r)
  Serving-Run (closes r) = Run.closes (Serving-Run r)
  Serving-Run (turns ready e r) = Run.turns ready e (Serving-Run r)
  Serving-Run (ends_flush adapter outside now before batch after e r) =
      Run.ends_flush adapter now before batch after e (Serving-Run r)
  Serving-Run (fires close_first before q after e fired r) =
      Run.fires close_first before q after e fired (Serving-Run r)

  acked_before :
      (k : String) {d : Daemon}
      → Serving json known join policy limit name d
      → acked k d.workers.calls ≤ copies k d.enqueued
  acked_before k r = omega (arith, run-everywhere k (Serving-Run r))

  Serving-IsKept :
      (k : String) {d : Daemon}
      → known name ≡ true
      → Serving json known join policy limit name d
      → IsKept name k d
  unfolding begun after_commit after_flush new_workers signal_close fire end_flush new_queued
  Serving-IsKept k configured (begins {w = w} ms mb fs e) =
      λ h. inl (omega (arith, open_wal-enqueues json known name k ms mb fs w configured e h))
  Serving-IsKept k configured (commits {d = d} batch sync_ok routed r) = λ h.
      let calls = events_for name (dispatched known batch (commit_batch batch sync_ok d.log).1) in
      let grown = count-append k d.waiting calls in
      elim (owes-commit_batch name k known batch sync_ok d.log routed h) [
        | inr sent ↦ inl (omega (arith, grown, acked_before k r))
        | inl before ↦ elim (Serving-IsKept k configured r before) [
          | inl more ↦ inl (omega (arith, grown, more))
          | inr lost ↦ inr lost
        ]
      ]
  Serving-IsKept k configured (enqueues {d = d} {t = t} close_first now before e after w q r) = λ h.
      let same =
        some-OnSome (SameCalls d.workers) _ t q
          (enqueue-SameCalls close_first (new_queued e now) d.workers) in
      elim (Serving-IsKept k configured r h) [
        | inl more ↦ inl (
            omega (
              arith,
              more,
              ap (acked k) same,
              ap (count k) w,
              count-append k before (e ∷ after),
              count-append k before after,
              copies-append k d.enqueued (new_queued e now ∷ []),
            ))
        | inr lost ↦ inr lost
      ]
  Serving-IsKept k configured (closes {d = d} r) =
      same_calls name k d (signal_close d.workers) refl (Serving-IsKept k configured r)
  Serving-IsKept k configured (turns {d = d} {t = t} ready e r) =
      same_calls name k d t
        (some-OnSome (SameCalls d.workers) _ t e (turn-SameCalls limit ready d.workers))
        (Serving-IsKept k configured r)
  Serving-IsKept k configured (ends_flush {d = d} adapter outside now before batch after e r) = λ h.
      let made = flush adapter join policy now batch in
      let (owed, rest) = owes-make_acks name k json outside made d.log d.failed_acks h in
      elim rest [
        | inr lost ↦ inr lost
        | inl none_there ↦ elim (Serving-IsKept k configured r owed) [
          | inl more ↦ inl (omega (arith, more, none_there, acked-append k d.workers.calls made))
          | inr lost ↦ inr (make_acks-failed name k json outside made d.log d.failed_acks lost)
        ]
      ]
  Serving-IsKept k configured (fires {d = d} {t = t} close_first before q after e fired r) =
      same_calls name k d t
        (some-OnSome (SameCalls d.workers) _ t fired
          (enqueue-SameCalls close_first q (record d.workers { timers = before ++ after })))
        (Serving-IsKept k configured r)

  -- No event that the log owes to a configured provider is forgotten while the daemon runs. From any
  -- Open that returns a log, through any batches of commits with any failures of the operating system,
  -- whose appends name configured providers only, any turns of the batcher, flushes, retries and a
  -- close: an event that is pending for the provider is about to be put on its queue, is in its
  -- channel, in one of its batches or with one of its timers, or was given up by enqueue at the
  -- close, or an ack of this id returned an error. Neither a failed commit nor a second append of
  -- the same id can strand it.
  pub owed-in_hands :
      (k : String) {d : Daemon}
      → known name ≡ true
      → Serving json known join policy limit name d
      → owes name k d.log.index ≡ true
      → (0 < in_hands k d) ⊎ (member k d.failed_acks ≡ true)
  owed-in_hands k configured r h = elim (Serving-IsKept k configured r h) [
    | inl more ↦ inl (omega (arith, more, run-everywhere k (Serving-Run r)))
    | inr lost ↦ inr lost
  ]
