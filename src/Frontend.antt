-- ===== src/Frontend.antt =====
-- frontend: the web client's own logic (frontend/src).
pub mod Observations
pub mod Impressions
pub mod Pages
pub mod Playback
pub mod Progress
pub mod Tests
