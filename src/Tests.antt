-- ===== src/Tests.antt =====
-- Runs of the definitions on concrete inputs, one module for each area of the code.
pub mod Samples
mod Frames
mod Recovery
mod Listing
mod Ledger
mod Writer
mod DeadLetters
mod Letters
mod Batching
mod Workers
mod Ingress
mod Adapters
mod Daemon
mod Serving
mod Building
mod Custody
