-- ===== src/Dispatcher.antt =====
-- internal/dispatcher/dispatcher.go: the fan-out to one queue for each provider. The queues are the
-- sequence of all enqueued pairs, in the order of the calls.
pub mod Routing
pub mod Startup
pub mod Promise
use tallyd.Base.{String, Bool, true, false, Option, none, some, List, [], ◌∷◌, ◌++◌, if◌then◌else◌}
use tallyd.Adapter.{Event}
use tallyd.Wal.Log.{Entry}

abbrev pub Enqueued : Type 0
Enqueued = List (String × Event)

-- Dispatch, over the test for a configured provider: what it enqueues, and the name in its error.
unfoldable pub dispatch : (String → Bool) → Event → List String → Enqueued × Option String
dispatch known event [] = ([], none)
dispatch known event (p ∷ ps) =
    let (queued, failure) = dispatch known event ps in
    if known p then ((p, event) ∷ queued, failure) else ([], some p)

-- The inner loop of ReplayPending, which goes on at an unknown provider.
unfoldable pub replay_entry : (String → Bool) → Event → List String → Enqueued
replay_entry known event [] = []
replay_entry known event (p ∷ ps) =
    let rest = replay_entry known event ps in if known p then (p, event) ∷ rest else rest

-- ReplayPending, which never fails.
unfoldable pub replay_pending : (String → Bool) → List Entry → Enqueued
replay_pending known [] = []
replay_pending known (e ∷ es) = replay_entry known e.event e.pending ++ replay_pending known es
