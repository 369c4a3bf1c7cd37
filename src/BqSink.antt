-- ===== src/BqSink.antt =====
-- bq-sink: the service that lands Kafka domain events in BigQuery (bq-sink/src).
pub mod Envelope
pub mod Messages
pub mod Warehouse
pub mod Archive
pub mod Service
pub mod Export
pub mod Canonicalize
pub mod Sql
pub mod Canonical
pub mod Tests
