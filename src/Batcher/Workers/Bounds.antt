-- ===== src/Batcher/Workers/Bounds.antt =====
-- The bounds of the batcher's channel, semaphore and batches.
use tallyd.Base.{
  some-OnSome, ltb→lt, OnSome, OnSome-if, ℕ, ◌≤◌, ◌<◌, refl, subst, String, Bool, true, false, ◌&&◌,
  ◌||◌, not, none, List, ◌∷◌, ◌++◌, ltb, length, length-append, length_snoc, arith,
}
use tallyd.Batcher.{RetryPolicy, Queued}
use tallyd.Batcher.Workers.{
  RunPhase, selecting, acquiring, emptying, returned, Workers, queue_capacity,
  default_max_in_flight, enqueue, end_flush, fire,
}
use tallyd.Batcher.Workers.{
  Run, started, enqueues, closes, turns, ends_flush, fires, signal_close, new_workers,
}
use tallyd.Batcher.Workers.Limits.{
  AllWithin, AllWithin-drop, PhaseFits, IsBounded, moved-IsBounded, turn-IsBounded,
}

module _ (limit : ℕ) (positive : 0 < limit) where
  enqueue-IsBounded :
      (close_first : Bool) (q : Queued) (s : Workers)
      → IsBounded limit s
      → OnSome (IsBounded limit) (enqueue close_first q s)
  unfolding enqueue
  enqueue-IsBounded close_first q s b =
      let room = ltb (length s.channel) queue_capacity in
      OnSome-if (IsBounded limit) (s.closing && (close_first || not room)) _ _
        (λ drops. moved-IsBounded limit positive s _ b refl refl b.queue b.phase)
        (λ keeps.
          OnSome-if (IsBounded limit) room _ none
            (λ fits.
              moved-IsBounded limit positive s _ b refl refl
                (omega (arith, length_snoc s.channel q, ltb→lt _ _ fits)) b.phase)
            (λ full. tt))

  PhaseFits-close :
      (closing : Bool) (phase : RunPhase) (pending : List Queued)
      → PhaseFits limit closing phase pending
      → PhaseFits limit true phase pending
  PhaseFits-close closing selecting pending h = h
  PhaseFits-close closing (acquiring batch false) pending h = h
  PhaseFits-close closing (acquiring batch true) pending h = (h.0, h.1, refl)
  PhaseFits-close closing emptying pending h = refl
  PhaseFits-close closing returned pending h = (h.0, refl)

  length-drop :
      (before : List (List Queued)) (b : List Queued) (after : List (List Queued))
      → length (before ++ after) ≤ length (before ++ b ∷ after)
  length-drop before b after =
      omega (arith, length-append before after, length-append before (b ∷ after))

  -- At every moment, whatever the scheduler picks and the provider answers, for an adapter whose limit
  -- is positive: the channel holds at most 1024 events and at most four flushes are in flight; until
  -- Close is called each of them has at least one event and no more than the limit; the run loop
  -- waits in its select with fewer events pending than the limit, and with none while it waits for a
  -- slot; and it leaves its select for the drain loop only behind a close.
  pub run-IsBounded :
      {join : String → String} {policy : RetryPolicy} {qs : List Queued} {s : Workers}
      → Run join policy limit qs s
      → IsBounded limit s
  unfolding new_workers signal_close end_flush fire
  run-IsBounded started = record {
    queue = omega arith;
    flights = omega arith;
    phase = positive;
    batches = λ quiet. tt;
  }
  run-IsBounded (enqueues {s = s} {t = t} close_first q e r) =
      some-OnSome (IsBounded limit) _ t e (enqueue-IsBounded close_first q s (run-IsBounded r))
  run-IsBounded (closes {s = s} r) =
      let b = run-IsBounded r in
      record {
        queue = b.queue;
        flights = b.flights;
        phase = PhaseFits-close s.closing s.phase s.pending b.phase;
        batches = λ quiet. absurd (ground arith);
      }
  run-IsBounded (turns {s = s} {t = t} ready e r) =
      some-OnSome (IsBounded limit) _ t e (turn-IsBounded limit positive ready s (run-IsBounded r))
  run-IsBounded (ends_flush {s = s} adapter now before batch after e r) =
      let b = run-IsBounded r in
      let flights : length (before ++ batch ∷ after) ≤ default_max_in_flight =
        subst (λ l. length l ≤ default_max_in_flight) e b.flights in
      record {
        queue = b.queue;
        flights = omega (arith, length-drop before batch after);
        phase = b.phase;
        batches = λ quiet.
            AllWithin-drop limit before batch after (subst (AllWithin limit) e (b.batches quiet));
      }
  run-IsBounded (fires {s = s} {t = t} close_first before q after e fired r) =
      let b = run-IsBounded r in
      some-OnSome (IsBounded limit) _ t fired (
        enqueue-IsBounded close_first q (record s { timers = before ++ after })
          (moved-IsBounded limit positive s _ b refl refl b.queue b.phase))
