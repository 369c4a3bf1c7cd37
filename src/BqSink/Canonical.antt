-- ===== src/BqSink/Canonical.antt =====
-- The statements of bq-sink/src/canonicalizer.ts, which BigQuery runs one after the other.
pub mod Rows
pub mod Reconcile
pub mod Feed
pub mod Engagement
pub mod Views
pub mod Outcomes
pub mod Daily
pub mod Creators
pub mod Experiments
pub mod Script
pub mod Tests
