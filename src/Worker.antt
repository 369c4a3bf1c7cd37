-- ===== src/Worker.antt =====
-- worker: the service that transcodes uploaded media (worker/src).
pub mod Jobs
pub mod Ffmpeg
pub mod Storage
pub mod Uploads
pub mod Service
pub mod Tests
