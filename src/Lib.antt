-- ===== src/Lib.antt =====
-- tallyd: a daemon that takes billing events over HTTP or gRPC, stores them in a write-ahead log,
-- and forwards them in batches to the providers they are routed to. An event is acknowledged to the
-- client once its record is on disk; it is resolved for a provider by an ack, which the batcher
-- writes when the provider has accepted the event, or once it has given it to the dead-letter queue.
--
-- How the parts interact. The receiver validates and routes a request, and appends its events to the
-- sink, which is the log followed by the dispatcher. The dispatcher puts an event on the queue of
-- each of its providers. A batcher collects its queue into batches, sends them, and settles each
-- event with the log (an ack), the dead-letter queue (a Put) or its own timer (a retry). After a
-- crash the log is replayed, and the dispatcher is given what is unresolved.
--
-- Which file models which part:
--   Adapter: adapter/event.go and adapter/adapter.go, the types of an event and of an answer.
--   Wal.Record: internal/wal/record.go; `encode_frame` is encodeFrame, `decode_records` is
--   decodeRecords. The state of the scan is the list of bytes that are left.
--   Wal.Log: the WAL and segment structs (`Wal`, `Segment`), the `apply` closures of Append and Ack
--   (`apply_append`, `apply_ack`), increfSegment, decrefSegment, gcSegments.
--   Wal.Commit: Append and Ack up to submit, commitBatch and rotate (`commit_batch`, `rotate`). What
--   the operating system may refuse is an argument: a `Faults` for each request, and a flag for the
--   last fsync.
--   Wal.Replay: Open and replay (`open_wal`, `replay_files`), on the list of segment files.
--   Wal.Listing: segmentPath and listSegmentSeqs of internal/wal/segment.go (`list_segment_seqs`).
--   Wal.Invariant, Counting, Writes, Batches: the invariant of the state, and that batches keep it.
--   Wal.Durability: which callers commitBatch answers with a nil error. Wal.Resubmission: an append of
--   an unresolved event. Wal.Size: TotalBytes after Open.
--   Wal.Submission: which requests Append hands to the writer.
--   Wal.Recovery and its children: what the files replay to, and crash recovery, also behind failures
--   that were reported.
--   Wal.Ledger: the abstract specification of the log, what is owed to whom, where a set of providers
--   is a quotient of lists; Ledger.Refinement and Ledger.Interrupted relate
--   batches, restarts and crashes to it.
--   Wal.Writer: submit, writerLoop, drainBatch and Close (`send`, `turn`, `signal_close`). The
--   goroutine's state is a `Phase`, and the case that a select picks is an argument of `turn`.
--   Dlq: internal/dlq/dlq.go (`put`, `remove`, `open_dlq`), with Depth, Poison, Restart, and
--   Life over Drift, how far failures bring the depth from the files;
--   Dlq.Lines: the JSON lines of its files (`append_line`, `read_records`);
--   Dlq.Rewrite: removeFromFile on a directory (`rewrite_ops`).
--   Batcher: internal/batcher/batcher.go (`flush`, `resolve`, `run`, `backoff`), with Flush, Queue
--   and Backoff. Batcher.Workers: the goroutines of the same file (`enqueue`, `turn`, `end_flush`,
--   `fire`): the state has the channel, what is pending, the flushes that hold a slot of the
--   semaphore, and the retry timers.
--   Receiver: internal/receiver/receiver.go and router.go (`ingest`, `validate`, `route`);
--   Receiver.Handler: its HTTP side (`handle_events`, `decode_events`).
--   Dispatcher: internal/dispatcher/dispatcher.go (`dispatch`, `replay_pending`).
--   Dispatcher.Startup and Promise: Pending and ReplayPending behind Open, at the start of the
--   daemon, over Wal.Ledger.Promise.
--   Metronome, Stdout: adapter/metronome/metronome.go and adapter/stdout/stdout.go, each with a child
--   Delivery on what a flush does with its answers.
--   Pipeline: internal/pipeline/config.go and pipeline.go (`apply_defaults`, `check_config`,
--   `wal_dispatch_sink`), with Defaults and Delivery. Pipeline.Build: buildAdapter and Build
--   (`build_adapter`, `build`). Pipeline.Handler: Handler, RunGauges and Close (`serve_http`,
--   `refresh`, `close_pipeline`). Pipeline.Custody: the log, the dispatcher and one batcher as a
--   running daemon (`Daemon`, `begun`, `after_commit`, `after_flush`).
--   DlqReplay: internal/dlqreplay/dlqreplay.go (`serve`), with Safety.
--   DlqShow: internal/dlqshow/dlqshow.go (`show_dlq`). Status: internal/status/status.go
--   (`serve_status`). Metrics: internal/metrics/metrics.go, over any collectors.
--   GrpcServer: internal/grpcserver/grpcserver.go (`grpc_ingest`, `to_events`), with Timestamps and
--   Agreement.
--   Command: cmd/tallyd/main.go (`mode_of`, `run_dlq_replay`, `run`), with Client, Trace, Order
--   and Settings.
--   What run does is a list of effects.
--   Base: shared types, tests on numbers, maps; Tests: runs on concrete inputs.
--
-- Bounds and fuel. Bytes are numbers below 256. The length word of a frame wraps at 2^32, as in the
-- source, and the theorems ask for bodies below that. The scan of a file runs on fuel, one more than
-- the number of its bytes; every turn takes at least eight of them. `drive`, which runs the writer to
-- its end, takes as fuel a measure of the state that every step makes smaller. The close of a batcher
-- has no fuel: a measure bounds its moves in every schedule.
-- Sizes and sequence numbers are unbounded, reference counts and depths are integers, and durations
-- wrap at 64 bits.
--
-- Not modelled: encoding/json (the records `Json` and `RecordJson` with the laws that a value
-- comes back), what fmt prints and scans (`Names`), the Go memory model (a step of a goroutine is
-- atomic, and a flush makes all its calls when it ends), the linger timer's clock, logging, HTTP
-- and gRPC plumbing, flag parsing, the YAML parser, the Prometheus client, the generated gRPC
-- code. Of a crash, a write cut short is modelled, and a rewrite stopped anywhere; a frame that
-- is written behind bytes that a failed write or a crash has left is the subject of a finding,
-- and excluded elsewhere.
pub mod Base
pub mod Adapter
pub mod Wal
pub mod Dlq
pub mod Batcher
pub mod Receiver
pub mod Dispatcher
pub mod Metronome
pub mod Stdout
pub mod DlqReplay
pub mod DlqShow
pub mod Status
pub mod Metrics
pub mod Pipeline
pub mod GrpcServer
pub mod Command
pub mod Tests
