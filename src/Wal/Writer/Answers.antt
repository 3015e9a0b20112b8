-- ===== src/Wal/Writer/Answers.antt =====
-- What holds at every moment of writerLoop of wal.go.
use tallyd.Base.{some-OnSome, ◌≡◌, refl, sym, ap, ◌∙◌, List, [], ◌∷◌, ◌++◌, append_assoc}
use tallyd.Wal.Log.{Wal}
use tallyd.Wal.Invariant.{IsValid}
use tallyd.Wal.Ledger.{ledger_of}
use tallyd.Wal.Writer.{
  Job, Writer, start_writer, send, signal_close, Run, started, sends, closes, turns,
}
use tallyd.Wal.Writer.Turns.{in_hand, jobs_of, promised, Kept, turn-Kept}

-- What the callers of Append and Ack can count on at any moment.
pub record Linear (w : Wal) (js : List Job) (s : Writer) : Type 0 where
  pub order : jobs_of s.answered ++ (in_hand s.phase ++ s.channel) ≡ js
  pub valid : IsValid s.wal
  pub ledger : ledger_of s.wal.index ≡ promised s.answered (ledger_of w.index)

-- Whatever the scheduler picks and the operating system refuses, at every moment of the writer's
-- life, from a valid state on: the requests that were sent are, in the order in which they were
-- sent, those that are answered, those of the batch in hand, and those in the channel; the state is
-- valid; and its ledger is what the requests that were answered with a nil error, in that order,
-- make of the ledger at the start.
pub run-Linear : {w : Wal} {js : List Job} {s : Writer} → IsValid w → Run w js s → Linear w js s
unfolding start_writer send signal_close
run-Linear {w} v started = record { order = refl; valid = v; ledger = refl }
run-Linear v (sends {js = js} {s = s} j room r) =
    let l = run-Linear v r in
    record {
      order =
          ap (λ q. jobs_of s.answered ++ q)
            (sym (append_assoc (in_hand s.phase) s.channel (j ∷ [])))
          ∙ sym (append_assoc (jobs_of s.answered) (in_hand s.phase ++ s.channel) (j ∷ []))
          ∙ ap (λ q. q ++ j ∷ []) l.order;
      valid = l.valid;
      ledger = l.ledger;
    }
run-Linear v (closes r) =
    let l = run-Linear v r in
    record {
      order = l.order;
      valid = record {
        unique = l.valid.unique;
        nonempty = l.valid.nonempty;
        ascending = l.valid.ascending;
        counted = l.valid.counted;
        homed = l.valid.homed;
      };
      ledger = l.ledger;
    }
run-Linear {w} v (turns {s = s} {t = t} close_first sync_ok e r) =
    let l = run-Linear v r in
    let k = some-OnSome (Kept s) _ t e (turn-Kept close_first sync_ok s) in
    record {
      order = k.order ∙ l.order;
      valid = k.valid l.valid;
      ledger = k.ledger (ledger_of w.index) l.ledger;
    }
