-- ===== src/Analytics.antt =====
-- analytics: the service that keeps trending scores and per-viewer features in Redis
-- (analytics/src).
pub mod Redis
pub mod Envelope
pub mod Stores
pub mod Processor
pub mod Agreement
pub mod Tests
