-- ===== src/FeedWorker.antt =====
-- feed-worker: the service that writes a new post into the feeds of its author's followers
-- (feed-worker/src).
pub mod Dynamo
pub mod Followers
pub mod Fanout
pub mod Events
pub mod Service
pub mod Tests
