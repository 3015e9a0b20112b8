-- ===== src/Tests/Custody.antt =====
-- A start on a log that holds one event, which ReplayPending puts on its queue.
use tallyd.Base.{◌<◌, ◌≡◌, ◌⊎◌, refl, String, Bool, true, false, [], ◌∷◌, lookup, str_eq}
use tallyd.Wal.Log.{member, pending_entries, entries_of, gc}
use tallyd.Wal.Replay.{files_of, finish_open, replayed_segment, seg_ref_count}
use tallyd.Dispatcher.{replay_pending, replay_entry}
use tallyd.Batcher.Workers.{new_workers, enqueue}
use tallyd.Pipeline.Custody.{Daemon, Serving, begins, enqueues, begun, events_for, new_queued}
use tallyd.Pipeline.Custody.Owed.{owes}
use tallyd.Pipeline.Custody.Invariant.{in_hands, owed-in_hands}
use tallyd.Tests.Samples.{signup, one_event}
use tallyd.Tests.Recovery.{opened_again, opens_again, segments}
use tallyd.Tests.Batching.{policy}
use tallyd.Tests.Workers.{same_text}

abbrev is_metronome : String → Bool
is_metronome name = str_eq name "metronome"

abbrev start : Daemon
start = begun is_metronome "metronome" opened_again

start-Serving : Serving one_event is_metronome same_text policy 2 "metronome" start
start-Serving = begins 16 0 (files_of segments) opens_again

-- `signup` is in the channel.
abbrev one_queued : Daemon
one_queued = record start {
  waiting = [];
  enqueued = new_queued signup 100 ∷ [];
  workers = record new_workers { channel = new_queued signup 100 ∷ [] };
}

one_queued-Serving : Serving one_event is_metronome same_text policy 2 "metronome" one_queued
unfolding begun events_for replay_pending replay_entry pending_entries entries_of finish_open
    enqueue new_workers gc files_of replayed_segment seg_ref_count
one_queued-Serving = enqueues false 100 [] signup [] refl refl start-Serving

still_owed : owes "metronome" "e1" one_queued.log.index ≡ true
unfolding begun finish_open gc files_of replayed_segment seg_ref_count lookup member
still_owed = refl

owed-in_hands_example : (0 < in_hands "e1" one_queued) ⊎ (member "e1" one_queued.failed_acks ≡ true)
owed-in_hands_example = owed-in_hands "e1" refl one_queued-Serving still_owed
