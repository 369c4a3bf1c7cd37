-- ===== src/BqSink/Messages/Batch.antt =====
-- `handleBatch` of bq-sink/src/message-handler.ts: the batch is parsed, cut into chunks, and each
-- chunk is landed before its offsets are resolved.
use escld.Prelude.{
  ℕ, zero, suc, ◌+◌, ◌*◌, Bool, true, false, not, String, Option, none, some, List, [], ◌∷◌, ◌++◌,
  map, ltb, ◌==◌, length, Result, ok, err, if◌then◌else◌,
}
use escld.Js.Int.{ℤ, ◌+ℤ◌, sub_ℕ}
use escld.Js.Json.{Engine}
use escld.Js.Text.{utf16_length}
use escld.BqSink.Messages.Parse.{
  TableRef, table, inherited, InsertRow, KafkaMessage, ParsedMessage, event, dead_letter, offset_of,
  row_of, parse_message,
}

-- `MAX_BATCH_BYTES`.
abbrev pub max_batch_bytes : ℕ
max_batch_bytes = 900 * 1024

abbrev pub same_table : TableRef → TableRef → Bool
same_table (table a) (table b) = a == b
same_table (inherited a) (inherited b) = a == b
same_table _ _ = false

-- `sameDestination`.
unfoldable pub same_destination : ParsedMessage → ParsedMessage → Bool
same_destination (dead_letter o why r) (dead_letter o' why' r') = true
same_destination (event o t ty r e) (event o' t' ty' r' e') = same_table t t'
same_destination _ _ = false

abbrev length_or : ℕ → Option String → ℕ
length_or fallback none = fallback
length_or fallback (some s) = utf16_length s

unfoldable pub estimate_row_bytes : Engine → ParsedMessage → ℕ
estimate_row_bytes engine item = length_or 4096 (engine.stringify (row_of item).row)

-- The inner `while`: what joins the chunk that `first` opened, and what is left. `count` is
-- `chunk.length`, which is at least 1, so the source's test `chunk.length > 0` holds.
unfoldable pub gather :
    Engine
    → ℕ
    → ParsedMessage
    → ℕ
    → ℕ
    → List ParsedMessage
    → List ParsedMessage × List ParsedMessage
gather engine batch_size first count bytes [] = ([], [])
gather engine batch_size first count bytes (next ∷ rest) =
    let next_bytes = estimate_row_bytes engine next in
    let joined = gather engine batch_size first (suc count) (bytes + next_bytes) rest in
    if not (ltb count batch_size)
    then ([], next ∷ rest)
    else if not (same_destination first next)
    then ([], next ∷ rest)
    else if ltb max_batch_bytes (bytes + next_bytes)
    then ([], next ∷ rest)
    else (next ∷ joined.0, joined.1)

-- The counters of `WorkerStats` that the handler moves. `jobsSucceeded` may be lowered.
pub record Stats : Type 0 where
  pub jobs_succeeded : ℤ
  pub jobs_failed : ℕ
  pub jobs_quarantined : ℕ

pub record ArchiveRecord : Type 0 where
  pub topic : String
  pub partition : ℕ
  pub offset : String
  pub envelope_json : String

-- What KafkaJS answers at the i-th round: `isRunning() && !isStale()`, and whether
-- `commitOffsetsIfNecessary` and `heartbeat` resolve or reject.
pub record Payload : Type 0 where
  pub is_wanted : ℕ → Bool
  pub commits : ℕ → Bool
  pub beats : ℕ → Bool

-- The interfaces `WarehouseLike` and `archive` over a world that they change. `insertEvents` returns
-- the number of rows that it quarantined.
pub record Deps (W : Type 0) : Type 0 where
  pub table_for_event_type : String → Option TableRef
  pub insert_events : TableRef → List InsertRow → W → Result ℕ × W
  pub insert_dead_letters : List InsertRow → W → Result (Unit {0}) × W
  pub write_batch : Option (List ArchiveRecord → W → Result (Unit {0}) × W)

-- What the handler does to the outside, in order.
pub data Effect : Type 0 where
  landed : List ParsedMessage → Effect
  resolved : (offset : String) → Effect
  committed heartbeat : Effect

pub record Batch (W : Type 0) : Type 0 where
  pub world : W
  pub stats : Stats
  pub effects : List Effect

-- How `handleBatch` ends: it returns at the end, returns early, or throws. It never runs out of fuel.
pub data Ending : Type 0 where
  finished stopped threw out_of_fuel : Ending

abbrev archive_record : String → ℕ → ParsedMessage → List ArchiveRecord
archive_record topic partition (event o t ty r e) =
    record { topic = topic; partition = partition; offset = o; envelope_json = e } ∷ []
archive_record topic partition (dead_letter o why r) = []

unfoldable pub archive_records : String → ℕ → List ParsedMessage → List ArchiveRecord
archive_records topic partition [] = []
archive_records topic partition (p ∷ ps) =
    archive_record topic partition p ++ archive_records topic partition ps

module _ {W : Type 0} (deps : Deps W) (topic : String) (partition : ℕ) where
  -- A failing archive write is logged and no more.
  unfoldable pub archive :
      Option (List ArchiveRecord → W → Result (Unit {0}) × W) → List ParsedMessage → W → W
  archive none chunk w = w
  archive (some write) chunk w = (write (archive_records topic partition chunk) w).1

  -- The `catch` block: the chunk counts as failed, and the error is thrown again.
  unfoldable pub fail : List ParsedMessage → W → Batch W → Result (Unit {0}) × Batch W
  fail chunk w b = (
    err,
    record {
      world = w;
      stats = record b.stats { jobs_failed = b.stats.jobs_failed + length chunk };
      effects = b.effects;
    },
  )

  -- What follows `await insertEvents(…)`, and what follows `await insertDeadLetters(…)`.
  unfoldable pub after_events :
      List ParsedMessage → Batch W → Result ℕ → W → Result (Unit {0}) × Batch W
  unfolding fail archive
  after_events chunk b err w = fail chunk w b
  after_events chunk b (ok quarantined) w = (
    ok tt,
    record {
      world = archive deps.write_batch chunk w;
      stats = record {
        jobs_succeeded = b.stats.jobs_succeeded +ℤ sub_ℕ (length chunk) quarantined;
        jobs_failed = b.stats.jobs_failed;
        jobs_quarantined = b.stats.jobs_quarantined + quarantined;
      };
      effects = b.effects ++ landed chunk ∷ [];
    },
  )

  unfoldable pub after_dead_letters :
      List ParsedMessage → Batch W → Result (Unit {0}) → W → Result (Unit {0}) × Batch W
  unfolding fail
  after_dead_letters chunk b err w = fail chunk w b
  after_dead_letters chunk b (ok u) w = (
    ok tt,
    record {
      world = w;
      stats = record b.stats { jobs_quarantined = b.stats.jobs_quarantined + length chunk };
      effects = b.effects ++ landed chunk ∷ [];
    },
  )

  -- The write of one chunk, to the destination of its first message.
  unfoldable pub land : ParsedMessage → List ParsedMessage → Batch W → Result (Unit {0}) × Batch W
  unfolding after_events after_dead_letters
  land (event o t ty r e) chunk b =
      let (result, w) = deps.insert_events t (map row_of chunk) b.world in
      after_events chunk b result w
  land (dead_letter o why r) chunk b =
      let (result, w) = deps.insert_dead_letters (map row_of chunk) b.world in
      after_dead_letters chunk b result w

  abbrev pub logged : List Effect → Batch W → Batch W
  logged effects b = record b { effects = b.effects ++ effects }

  abbrev pub resolutions : List ParsedMessage → List Effect
  resolutions chunk = map (λ p. resolved (offset_of p)) chunk

  -- The offsets of a landed chunk are resolved, then committed; then the heartbeat. Both calls may
  -- reject.
  unfoldable pub settle :
      Payload → (round : ℕ) → List ParsedMessage → Batch W → Result (Unit {0}) × Batch W
  settle payload round chunk b =
      if not (payload.commits round)
      then (err, logged (resolutions chunk) b)
      else if not (payload.beats round)
      then (err, logged (resolutions chunk ++ committed ∷ []) b)
      else (ok tt, logged (resolutions chunk ++ committed ∷ heartbeat ∷ []) b)

  -- What a round does with its chunk, after which the next round follows.
  unfoldable pub settle_landed :
      Payload
      → (round : ℕ) → List ParsedMessage
      → Result (Unit {0}) × Batch W
      → Result (Unit {0}) × Batch W
  unfolding settle
  settle_landed payload round chunk (err, b) = (err, b)
  settle_landed payload round chunk (ok u, b) = settle payload round chunk b

  -- The test at the head of the loop, and what follows the round: the next ones, or the throw.
  abbrev pub after_round :
      Batch W → Bool → Result (Unit {0}) × Batch W → (Batch W → Ending × Batch W) → Ending × Batch W
  after_round b false result on = (stopped, b)
  after_round b true (err, b') on = (threw, b')
  after_round b true (ok u, b') on = on b'

  -- The outer loop.
  unfoldable pub handle_chunks :
      Engine → Payload → ℕ → (fuel round : ℕ) → List ParsedMessage → Batch W → Ending × Batch W
  unfolding settle_landed
  handle_chunks engine payload batch_size fuel round [] b = (finished, b)
  handle_chunks engine payload batch_size zero round (first ∷ rest) b = (out_of_fuel, b)
  handle_chunks engine payload batch_size (suc fuel) round (first ∷ rest) b =
      let (more, left) = gather engine batch_size first 1 (estimate_row_bytes engine first) rest in
      after_round b (payload.is_wanted round)
        (settle_landed payload round (first ∷ more) (land first (first ∷ more) b))
        (λ b'. handle_chunks engine payload batch_size fuel (suc round) left b')

  unfoldable pub parse_all : Engine → (ℕ → String) → ℕ → List KafkaMessage → List ParsedMessage
  parse_all engine clock i [] = []
  parse_all engine clock i (m ∷ ms) =
      parse_message engine deps.table_for_event_type topic partition (clock i) m
      ∷ parse_all engine clock (suc i) ms

  -- `clock i` is the time at which the i-th message is parsed. A round takes at least one message.
  unfoldable pub handle_batch :
      Engine → (ℕ → String) → Payload → ℕ → List KafkaMessage → Batch W → Ending × Batch W
  unfolding handle_chunks parse_all
  handle_batch engine clock payload batch_size messages b =
      handle_chunks engine payload batch_size (length messages) 0
        (parse_all engine clock 0 messages) b
