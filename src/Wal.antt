-- ===== src/Wal.antt =====
-- internal/wal: the segmented write-ahead log.
pub mod Record
pub mod Log
pub mod Commit
pub mod Replay
pub mod Counting
pub mod Invariant
pub mod Writes
pub mod Batches
pub mod Durability
pub mod Resubmission
pub mod Size
pub mod Submission
pub mod Recovery
pub mod Ledger
pub mod Writer
pub mod Listing
