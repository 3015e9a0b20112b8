-- ===== src/Tests/Ledger.antt =====
-- The ledger of a small log through a batch with a fault, and through a crash.
use tallyd.Base.{ℕ, List, inl, length, ◌≡◌, refl, ap, true, [], ◌∷◌, take, arith}
use tallyd.Wal.Record.{encode_frame}
use tallyd.Wal.Record.RoundTrip.{length-encode_frame}
use tallyd.Wal.Log.{Wal, pending_entries, member}
use tallyd.Wal.Replay.{finish_open, replayed, open_wal, files_of}
use tallyd.Wal.Recovery.{Clean, torn_files}
use tallyd.Wal.Recovery.Crash.{Reach, opened, committed}
use tallyd.Wal.Ledger.{ledger_of, ledger_batch}
use tallyd.Wal.Ledger.Refinement.{history}
use tallyd.Wal.Ledger.Interrupted.{interrupted-history}
use tallyd.Wal.Commit.{
  Request, Faults, appends, write_batch, commit_batch, write_requests, write_request, write_active,
  update_active, active_size, active_seq, create_segment, apply_requests,
}
use tallyd.Wal.Ledger.Promise.{answered, answered_changes}
use tallyd.Dispatcher.{replay_pending}
use tallyd.Dispatcher.Startup.{Enqueues}
use tallyd.Dispatcher.Promise.{accepted_redelivered}
use tallyd.Tests.Samples.{signup, to_metronome, one_event, one_event-JsonLaws}
use tallyd.Tests.Recovery.{
  signs_up-Framed, fresh, no_faults, signs_up, is_configured, faulty, faulty-Clean, fresh_opens,
  used, torn,
}

abbrev used_reached : Reach one_event used
used_reached = committed faulty faulty-Clean (opened 16 0 fresh_opens)

interrupted-history_example :
    (w' : Wal) × (open_wal one_event 1000 0 (
        torn_files (take 9 (encode_frame 2 (9 ∷ []))) (files_of (write_batch faulty used).segments))
      ≡ replayed w')
    × (ledger_of w'.index
        ≡ ledger_batch faulty (commit_batch faulty true used).1 (history used_reached))
interrupted-history_example =
    interrupted-history one_event-JsonLaws torn 9 1000 0 faulty used_reached faulty-Clean
      (omega arith) (omega (arith, length-encode_frame 2 (9 ∷ [])))

abbrev once : List (Request × Faults)
once = (signs_up, no_faults) ∷ []

once-Clean : Clean one_event once
once-Clean = (signs_up-Framed, inl refl, tt)

abbrev signed_up : Wal
signed_up = (commit_batch once true fresh).0

signed_up_reached : Reach one_event signed_up
signed_up_reached = committed once once-Clean (opened 16 0 fresh_opens)

-- The request is answered with nil, if its frame has eleven bytes.
answers_with :
    (frame : List ℕ)
    → length frame ≡ 11
    → (commit_batch
        ((record { frame = frame; change = appends signup to_metronome }, no_faults) ∷ [])
        true
        fresh).1
      ≡ true ∷ []
unfolding commit_batch write_batch write_requests write_request write_active update_active
    active_size active_seq apply_requests finish_open create_segment
answers_with frame h = rw h refl

signed_up_answered : answered signed_up_reached ≡ appends signup to_metronome ∷ []
unfolding answered signed_up_reached commit_batch
signed_up_answered =
    ap (answered_changes once) (answers_with signs_up.frame (length-encode_frame 1 (7 ∷ 8 ∷ [])))

named : member "metronome" to_metronome ≡ true
unfolding member
named = refl

accepted_redelivered_example :
    (w' : Wal) × (open_wal one_event 1000 0 (
        torn_files
          (take 9 (encode_frame 2 (9 ∷ [])))
          (files_of (write_batch [] signed_up).segments))
      ≡ replayed w')
    × Enqueues (replay_pending is_configured (pending_entries w')) "metronome" signup
accepted_redelivered_example =
    accepted_redelivered one_event-JsonLaws is_configured torn 9 1000 0 [] [] [] signup to_metronome
      "metronome" signed_up_reached signed_up_answered named tt tt tt (omega arith)
      (omega (arith, length-encode_frame 2 (9 ∷ []))) refl
