-- ===== src/Tests/Writer.antt =====
-- The writer of a log that is sent one request and then closed, and a request that comes too late.
use tallyd.Base.{ℕ, ◌≡◌, refl, Bool, true, List, [], ◌∷◌, ◌++◌, arith}
use tallyd.Wal.Writer.{
  Job, returned, Writer, start_writer, send, signal_close, Run, started, sends, closes,
}
use tallyd.Wal.Writer.Turns.{jobs_of, work}
use tallyd.Wal.Writer.Answers.{Linear, run-Linear}
use tallyd.Wal.Writer.Stopping.{drive, drive-answers}
use tallyd.Wal.Writer.Late.{now, late_send_unanswered}
use tallyd.Tests.Recovery.{fresh, fresh-IsValid, signs_up, no_faults}

abbrev job : Job
job = (signs_up, no_faults)

abbrev closing_writer : Writer
closing_writer = signal_close (send job (start_writer fresh))

closing_writer-Run : Run fresh (job ∷ []) closing_writer
unfolding start_writer
closing_writer-Run = closes (sends job (omega arith) started)

run-Linear_example : Linear fresh (job ∷ []) closing_writer
run-Linear_example = run-Linear fresh-IsValid closing_writer-Run

-- The scheduler always prefers the close, and the disk works.
abbrev hasty : ℕ → Bool × Bool
hasty n = (true, true)

closing_writer-live : closing_writer.phase ≡ returned → closing_writer.channel ≡ []
unfolding signal_close send start_writer
closing_writer-live e = cc

drive-answers_example :
    (jobs_of (drive (work closing_writer) hasty closing_writer).answered ≡ job ∷ [])
    × (closing_writer.closing ≡ true
        → (drive (work closing_writer) hasty closing_writer).phase ≡ returned)
drive-answers_example = drive-answers hasty fresh-IsValid closing_writer-Run closing_writer-live

abbrev closed_writer : Writer
closed_writer = record {
  wal = fresh;
  channel = [];
  closing = true;
  shutting = true;
  phase = returned;
  answered = [];
}

late_send_unanswered_example :
    ((send job closed_writer).answered ≡ closed_writer.answered)
    × ((send job closed_writer).phase ≡ returned)
    × ((more : List Job) × ((send job closed_writer).channel ≡ closed_writer.channel ++ job ∷ more))
late_send_unanswered_example =
    late_send_unanswered closed_writer (send job closed_writer) job refl now
