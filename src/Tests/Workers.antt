-- ===== src/Tests/Workers.antt =====
-- A batcher with a limit of two events, that is sent one and then closed.
use tallyd.Base.{◌<◌, ◌≡◌, refl, String, true, false, List, [], ◌∷◌, arith}
use tallyd.Batcher.{Queued}
use tallyd.Batcher.Workers.{
  Workers, selecting, new_workers, enqueue, signal_close, event_ready, turn, phase_turn,
  select_case, receive, acquiring, emptying, Run, started, enqueues, closes, turns,
}
use tallyd.Batcher.Workers.Turns.{copies, everywhere}
use tallyd.Batcher.Workers.Conservation.{run-everywhere}
use tallyd.Batcher.Workers.Limits.{IsBounded}
use tallyd.Batcher.Workers.Bounds.{run-IsBounded}
use tallyd.Batcher.Workers.Closing.{Schedule}
use tallyd.Batcher.Workers.Draining.{drain_exceeds_limit}
use tallyd.Tests.Batching.{policy, queued}

abbrev pub same_text : String → String
same_text s = s

abbrev with_channel : List Queued → List Queued → Workers
with_channel channel pending = record {
  channel = channel;
  closing = false;
  phase = selecting;
  pending = pending;
  in_flight = [];
  timers = [];
  dropped = [];
  calls = [];
}

one_queued : Run same_text policy 2 (queued ∷ []) (with_channel (queued ∷ []) [])
unfolding enqueue new_workers
one_queued = enqueues false queued refl started

one_pending : Run same_text policy 2 (queued ∷ []) (with_channel [] (queued ∷ []))
unfolding turn phase_turn select_case receive
one_pending = turns event_ready refl one_queued

run-everywhere_example : everywhere "e1" (with_channel [] (queued ∷ [])) ≡ copies "e1" (queued ∷ [])
run-everywhere_example = run-everywhere "e1" one_pending

run-IsBounded_example : IsBounded 2 (with_channel [] (queued ∷ []))
run-IsBounded_example = run-IsBounded 2 (omega arith) one_pending

abbrev closing : Workers
closing = signal_close (with_channel [] (queued ∷ []))

-- The loop takes the close case.
abbrev drained : Workers
drained = record (with_channel [] (queued ∷ [])) { closing = true; phase = emptying }

-- Three events in the channel of a batcher that is closed.
three :
    Run same_text policy 2
      (queued ∷ queued ∷ queued ∷ [])
      (signal_close (with_channel (queued ∷ queued ∷ queued ∷ []) []))
unfolding enqueue new_workers
three = closes (enqueues false queued refl (enqueues false queued refl one_queued))

abbrev full : Workers
full = signal_close (with_channel (queued ∷ queued ∷ queued ∷ []) [])

drain_exceeds_limit_example :
    (t : Workers) × Schedule same_text policy 2 full 5 0 [] t
    × Run same_text policy 2 (queued ∷ queued ∷ queued ∷ []) t
    × (t.phase ≡ acquiring (queued ∷ queued ∷ queued ∷ []) true)
    × (2 < 3)
unfolding signal_close
drain_exceeds_limit_example =
    drain_exceeds_limit same_text policy 2 full (queued ∷ queued ∷ queued ∷ []) three refl refl
      (omega arith)
