-- ===== src/Lib.antt =====
-- Verification library for the TypeScript services of escld, a social media application. It models
-- the program logic of those services in a cubical type theory and proves properties of it.
--
-- How the parts interact. The backend publishes domain events to Kafka; bq-sink validates them and
-- lands them in BigQuery; analytics turns them into trending scores and per-viewer features in
-- Redis; feed-worker fans a new post out to its author's followers; worker transcodes media; the
-- frontend collects observations (impressions, dwell, playback) and sends them to the backend,
-- which publishes them again.
--
-- Shared modules.
-- - Prelude: library names passed on, Boolean tests on numbers, lists measured by native numbers,
--   outcomes of operations that may throw.
-- - Js: what the services use of JavaScript. Js/Json has JSON values, property reads, the operator
--   ?? and object literals with a spread; Js/Text has UTF-16 lengths and cuts and printed numbers;
--   Js/Int has signed integers. JSON.parse, Date.parse and JSON.stringify are the record Engine, a
--   parameter: no law is assumed of them.
--
-- bq-sink (bq-sink/src).
-- - BqSink/Envelope: isEventEnvelope and its helpers of message-handler.ts.
--   BqSink/Envelope/Contract is the specification of an envelope.
-- - BqSink/Messages/Parse: parseMessage, deadLetter and tableForEventType. The lookup in an object
--   literal gives an own entry or a member of Object.prototype (TableRef).
-- - BqSink/Messages/Batch: handleBatch. The warehouse and the archive are the record Deps over a
--   world that they change; the effects on Kafka are a list. The outer loop takes fuel, the number
--   of messages: each round takes at least one. What KafkaJS answers to the commit and the
--   heartbeat of a round, either of which may reject, is the record Payload. Logging and metrics
--   are left out.
-- - BqSink/Messages/Chunks, Writes, Runs, Trace, Counts, Rows, Ids: the proofs; Writes says what
--   it is for a chunk to be written. BqSink/Messages/Tests: runs.
-- - BqSink/Warehouse: insertEvents and insertDeadLetters of bigquery.ts, over the streaming
--   inserts of BigQuery; Warehouse/Quarantine: when it reports success. BqSink/Canonicalize: the
--   loop of merges of index.ts. BqSink/Export: insights-export.ts, and Export/Counts its counters.
--   BqSink/Tests: runs.
-- - BqSink/Archive: S3ArchiveWriter of archive.ts; Archive/Lines reads it back. BqSink/Service:
--   the warehouse and the archive that main of index.ts hands to handleBatch; its children say
--   what BigQuery is taken to document (Service/Inserts), which rows a write keeps (Service/Rows),
--   and what a batch keeps (Service/Kept). Service/Tests: a run.
-- - BqSink/Canonical: canonicalizer.ts, the SQL that canonicalMergeSql writes, as functions on
--   tables; BqSink/Sql has the SQL operators it uses, on lists of rows, with what they keep
--   (Sql/Lists, Held, Ranks, Merges, Written, Best, Inserts). Canonical/Rows is the union of the
--   raw tables, Reconcile the conflicts and the winners (its children: which ids are in conflict,
--   what is left, a second run), Feed the requests and impressions, Engagement the daily likes,
--   comments and follows, Views dwell and playback, Outcomes the attribution of actions to
--   impressions, Daily, Creators and Experiments the daily tables (Daily/Totals and Written: what
--   they count and leave), Script the whole, and Warehouse.canonicalize of bigquery.ts, which
--   tests the names first. Functions of BigQuery are the record Functions; rows that tie in an
--   ORDER BY stand in the order of the table; doubles are given as integers in the unit of the
--   smallest double, and NaN is left out. A statement that fails leaves its table as it was and
--   stops the script. Canonical/Tests and Tests/Scripts: runs.
--
-- analytics (analytics/src).
-- - Analytics/Redis: the client's calls over an abstract server, the record Redis, with its
--   documented laws, the record RedisLaws. A round trip that fails fails before its commands are
--   run; a pipeline that loses its connection rejects or not, by a parameter. Time passes between
--   deliveries (wait), and the laws say how long a key with a time to live stays. An async
--   function is a function from the server to an outcome and a server.
-- - Analytics/Envelope: isDomainEnvelope and trendingContribution of envelope.ts.
--   Analytics/Agreement compares it with the envelopes of bq-sink.
-- - Analytics/Stores: receipts.ts, and the writes of bucketed-trending.ts and features.ts. The
--   reads (getTop, velocity, the affinities) compute with floating-point numbers and are not
--   modelled.
-- - Analytics/Processor: processor.ts, from handleBatch down. Payloads are values of any JSON
--   type, as the envelope does not check them; Processor/Payload reads them.
-- - Analytics/Processor/Keeps and Messages: predicates of the server that every step keeps.
--   Deliveries, Effects and Guarantees: what one delivery means for the later ones. Offsets: the
--   loop of handleBatch. Analytics/Tests: a toy server that keeps the laws, and runs.
--
-- frontend (frontend/src).
-- - Frontend/Observations: ObservationQueue of lib/observation.ts. flushNow is split at its await:
--   flush_now takes the batch and calls the sender, answered is what follows the answer. Reachable
--   is the relation of the queues that come about by enqueueing, by the timer and by answers, in
--   any order. The session id and the global queue are left out.
-- - Frontend/Observations/Bounds, Awake, Sends: what holds of every such queue.
-- - Frontend/Impressions: useQualifiedImpression of hooks/use-qualified-impression.ts, each
--   handler a function of the time. Timers fire when they are set and, the first one, when they
--   are due. Impressions/InView and Order: the proofs. Frontend/Pages: usePaginatedPosts of
--   hooks/use-paginated-posts.ts, as a step relation; Pages/Chain: the order of the pages.
-- - Frontend/Playback: UniquePlaybackTracker of hooks/use-media-progress.ts. Times are doubles
--   that are only compared, given as integers in the unit of the smallest double; the rounding in
--   playedMs is left out. Frontend/Playback/Union: the proofs. Frontend/Tests: runs.
-- - Frontend/Progress: the handlers of useMediaProgress in the same file; what is computed with
--   doubles is the record Doubles. Progress/Order: what their reports keep to.
--
-- feed-worker (feed-worker/src).
-- - FeedWorker/Dynamo: listFollowers and the batches of dynamo.ts, over an abstract client.
--   listFollowers takes fuel, the number of pages; FeedWorker/Followers shows that as many rounds
--   as the query has pages are enough.
-- - FeedWorker/Fanout: the concurrent workers of fanout and writeBatchWithRetry, as turns in any
--   order. Fanout/Coverage: the batches. Fanout/Stored and Fanout/Ends: what has been written when
--   the workers have finished. Fanout/Budget and Turns: that they come to an end. The pauses
--   between attempts are left out.
-- - FeedWorker/Events: types.ts and event-handler.ts. Events/Counts: recipients and counters.
-- - FeedWorker/Service: what index.ts hands to the event handler, that is the fan-out with its
--   workers in any order until all are done (drain takes fuel, the turns that are left at most:
--   Service/Drain) and listFollowers. Service/Recipients and Feeds: what a message does to the
--   feeds. FeedWorker/Tests: a toy table, and runs.
--
-- worker (worker/src).
-- - Worker/Jobs: types.ts, job-handler.ts and the updates of db.ts. Worker/Jobs/Outcomes: what a
--   message changes.
-- - Worker/Ffmpeg: the renditions and command lines of ffmpeg.ts, with the commands as parameters;
--   Ffmpeg/Renditions: which are chosen. Worker/Storage: withRetry and the calls of storage.ts,
--   with three attempts; Storage/Attempts: how often a call is made. Worker/Uploads:
--   uploadDirectory, split at its awaits, with the turns of the uploads in any order; what is left
--   open then ends file by file, two turns for each attempt, which is enough (Uploads/Alone).
--   Uploads/Turns and Stored: what is in the bucket. Worker/Service: what index.ts hands to the
--   job handler; Service/Playlists, Served and Published: what is in the bucket when a post is
--   marked as ready. Worker/Tests and Service/Tests: runs.
--
-- Not modelled. Configuration, servers, metrics, logs and tracing of the services; floating-point
-- scores; the user interface. The other programs of the repository: the backend (Java), rtmp and
-- ws-sfu (Rust), the lambdas of aws and the infrastructure of infra.
pub mod Analytics
pub mod BqSink
pub mod FeedWorker
pub mod Frontend
pub mod Js
pub mod Prelude
pub mod Worker
