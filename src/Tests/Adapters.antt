-- ===== src/Tests/Adapters.antt =====
-- Flushes through the metronome and the stdout adapter.
use tallyd.Base.{ℕ, ◌≡◌, refl, List, [], ◌∷◌, pos}
use tallyd.Batcher.{RetryPolicy, Queued, encoded, flush}
use tallyd.Metronome.{Formats, Http, answers, metronome, encode}
use tallyd.Metronome.Delivery.{delivered, metronome-delivered}
use tallyd.Tests.Samples.{signup, purchase}

abbrev pub formats : Formats
formats = record {
  format_float = λ bits. "1.5";
  format_status = λ status. "429";
  format_time = λ t. "2026-01-01T00:00:00Z";
  marshal_wire = λ events. encoded (91 ∷ 93 ∷ []);
}

abbrev pub overloaded : List ℕ → Http
overloaded body = answers 429 "slow down"

abbrev pub policy : RetryPolicy
policy = record { initial_backoff = pos 10; max_backoff = pos 60; max_elapsed = pos 1000 }

abbrev pub batch : List Queued
batch =
    record { event = signup; attempt = 1; first_queue = 100 }
    ∷ record { event = purchase; attempt = 3; first_queue = 50 }
    ∷ []

metronome-delivered_example :
    flush (metronome formats overloaded (pos 0)) (λ s. s) policy 1075 batch
    ≡ delivered (λ s. s) policy 1075 formats (answers 429 "slow down") batch
unfolding encode
metronome-delivered_example =
    metronome-delivered (λ s. s) policy 1075 formats overloaded (pos 0) batch (91 ∷ 93 ∷ []) refl
