-- ===== src/Wal/Writer.antt =====
-- internal/wal/wal.go: submit, writerLoop, drainBatch and Close, the goroutine that commits requests
-- and the channel that they reach it by. One turn of the goroutine is one ready case of its select.
pub mod Batch
pub mod Turns
pub mod Answers
pub mod Stopping
pub mod Late
use tallyd.Base.{
  ℕ, ◌<◌, ◌≡◌, Bool, true, false, ◌&&◌, Option, none, some, List, [], ◌∷◌, ◌++◌, if◌then◌else◌,
  length,
}
use tallyd.Wal.Log.{Wal}
use tallyd.Wal.Commit.{Request, Faults, commit_batch, final_sync}

-- A request in the channel, with what will go wrong at its commit.
abbrev pub Job : Type 0
Job = Request × Faults

-- `selecting` is either select of writerLoop, `draining` is drainBatch with the batch so far.
pub data Phase : Type 0 where
  selecting : Phase
  draining : List Job → Phase
  returned : Phase

-- `closing`: Close has run up to `close(w.closeCh)`. `shutting`: writerLoop is in its inner loop.
-- `answered`: what was sent on the `done` channels, oldest first; true is a nil error.
pub record Writer : Type 0 where
  pub wal : Wal
  pub channel : List Job
  pub closing : Bool
  pub shutting : Bool
  pub phase : Phase
  pub answered : List (Job × Bool)

unfoldable pub start_writer : Wal → Writer
start_writer w = record {
  wal = w;
  channel = [];
  closing = false;
  shutting = false;
  phase = selecting;
  answered = [];
}

abbrev pub channel_capacity : ℕ
channel_capacity = 256

-- `w.writeCh <- req`, when the channel has room.
unfoldable pub send : Job → Writer → Writer
send j s = record s { channel = s.channel ++ j ∷ [] }

-- The first two lines of Close.
unfoldable pub signal_close : Writer → Writer
signal_close s = record s { wal = record s.wal { closed = true }; closing = true }

unfoldable pub answers : List Job → List Bool → List (Job × Bool)
answers (j ∷ js) (fine ∷ results) = (j, fine) ∷ answers js results
answers _ _ = []

-- w.commitBatch(batch)
unfoldable pub commit : Bool → List Job → Writer → Writer
commit sync_ok batch s =
    let (w, results) = commit_batch batch sync_ok s.wal in
    record s { wal = w; phase = selecting; answered = s.answered ++ answers batch results }

-- The outer select. Where both cases are ready, Go picks either.
unfoldable pub select_turn : Bool → List Job → Writer → Option Writer
select_turn close_first [] s = if s.closing then some (record s { shutting = true }) else none
select_turn close_first (j ∷ js) s =
    if s.closing && close_first
    then some (record s { shutting = true })
    else some (record s { channel = js; phase = draining (j ∷ []) })

-- The inner select, once closeCh is closed.
unfoldable pub shutting_turn : List Job → Writer → Option Writer
shutting_turn [] s = some (record s { phase = returned })
shutting_turn (j ∷ js) s = some (record s { channel = js; phase = draining (j ∷ []) })

-- The select of drainBatch.
unfoldable pub drain_turn : Bool → List Job → List Job → Writer → Option Writer
drain_turn sync_ok batch [] s = some (commit sync_ok batch s)
drain_turn sync_ok batch (j ∷ js) s =
    some (record s { channel = js; phase = draining (batch ++ j ∷ []) })

unfoldable pub phase_turn : Bool → Bool → Phase → Writer → Option Writer
unfolding select_turn shutting_turn drain_turn
phase_turn close_first sync_ok selecting s =
    if s.shutting then shutting_turn s.channel s else select_turn close_first s.channel s
phase_turn close_first sync_ok (draining batch) s = drain_turn sync_ok batch s.channel s
phase_turn close_first sync_ok returned s = none

-- One turn of writerLoop, or `none` where it blocks or has returned. `sync_ok` is the last fsync of
-- the commit.
unfoldable pub turn : Bool → Bool → Writer → Option Writer
unfolding phase_turn
turn close_first sync_ok s = phase_turn close_first sync_ok s.phase s

-- What has happened up to a state, with the requests that were sent, oldest first.
pub data Run (w : Wal) : List Job → Writer → Type 0 where
  started : Run w [] (start_writer w)
  sends :
      {js : List Job} {s : Writer} (j : Job)
      → length s.channel < channel_capacity
      → Run w js s
      → Run w (js ++ j ∷ []) (send j s)
  closes : {js : List Job} {s : Writer} → Run w js s → Run w js (signal_close s)
  turns :
      {js : List Job} {s t : Writer} (close_first sync_ok : Bool)
      → turn close_first sync_ok s ≡ some t
      → Run w js s
      → Run w js t

-- The rest of Close, once the goroutine has returned: the state, and whether the error is nil. The
-- file is only closed behind a sync that went well.
unfoldable pub close_active : Bool → Bool → Wal → Wal × Bool
close_active sync_ok close_ok w =
    (record w { segments = final_sync sync_ok w.segments }, sync_ok && close_ok)
