-- ===== src/BqSink/Messages.antt =====
-- Kafka messages of bq-sink/src/message-handler.ts: parsing, chunking, landing.
pub mod Parse
pub mod Batch
pub mod Chunks
pub mod Writes
pub mod Runs
pub mod Trace
pub mod Counts
pub mod Rows
pub mod Ids
pub mod Tests
