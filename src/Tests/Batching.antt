-- ===== src/Tests/Batching.antt =====
-- A batcher with a limit of two events, and flushes of one event.
use tallyd.Base.{◌-◌, ◌≡◌, refl, some, [], ◌∷◌, arith, pos}
use tallyd.Adapter.{retry}
use tallyd.Batcher.{
  RetryPolicy, with_defaults, backoff, Queued, Adapter, send_failed, encoded, flush,
}
use tallyd.Batcher.Backoff.{backoff_lem}
use tallyd.Batcher.Flush.{Flushes, flush-Flushes}
use tallyd.Tests.Samples.{signup, purchase}

abbrev pub policy : RetryPolicy
policy = record { initial_backoff = pos 10; max_backoff = pos 60; max_elapsed = pos 0 }

abbrev pub queued : Queued
queued = record { event = signup; attempt = 1; first_queue = 100 }

abbrev later : Queued
later = record { event = purchase; attempt = 3; first_queue = 50 }

abbrev pub adapter : Adapter
adapter = record {
  encode = λ es. encoded [];
  send = λ body. send_failed (record { message = "status 503"; http_status = some 503 });
  classify = λ e s. retry;
  max_batch_size = pos 2;
}

backoff_lem_example : backoff (λ n. n - 1) policy 5 ≡ some 60
unfolding with_defaults
backoff_lem_example = backoff_lem (λ n. n - 1) policy 5 10 60 refl refl (omega arith) (omega arith)

flush-Flushes_example :
    Flushes
      (λ s. s)
      policy
      200
      (queued ∷ later ∷ [])
      (flush adapter (λ s. s) policy 200 (queued ∷ later ∷ []))
flush-Flushes_example = flush-Flushes adapter (λ s. s) policy 200 (queued ∷ later ∷ [])
