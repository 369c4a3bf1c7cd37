-- ===== src/FeedWorker/Fanout.antt =====
-- `fanout` of feed-worker/src/dynamo.ts: workers that take batches from one list, and write each with
-- retries. A turn of a worker is what it does between two awaits.
pub mod Coverage
pub mod Stored
pub mod Ends
pub mod Budget
pub mod Turns
use escld.Prelude.{
  ℕ, zero, suc, ◌+◌, min, Bool, true, false, Option, none, some, List, [], ◌∷◌, leb, if◌then◌else◌,
  length, Result, ok, err,
}
use escld.FeedWorker.Dynamo.{Dynamo, FeedItem, fanout_concurrency, max_writes}

pub data Worker : Type 0 where
  created : Worker
  writing : (batch : List FeedItem) → (attempt : ℕ) → Worker
  finished failed : Worker

-- The batches that no worker has taken, the workers, and the tables.
pub record Fanout (W : Type 0) : Type 0 where
  pub rest : List (List FeedItem)
  pub workers : List Worker
  pub world : W

-- `batches[nextIndex++]`.
abbrev pub take_next : List (List FeedItem) → Worker × List (List FeedItem)
take_next [] = (finished, [])
take_next (batch ∷ rest) = (writing batch 1, rest)

abbrev pub no_items : Option (List FeedItem) → Bool
no_items none = true
no_items (some []) = true
no_items (some (x ∷ xs)) = false

abbrev pub items_of : Option (List FeedItem) → List FeedItem
items_of none = []
items_of (some xs) = xs

-- What follows the answer to a write.
unfoldable pub settle_write :
    ℕ → List (List FeedItem) → Result (Option (List FeedItem)) → Worker × List (List FeedItem)
settle_write attempt rest err = (failed, rest)
settle_write attempt rest (ok unprocessed) =
    if no_items unprocessed
    then take_next rest
    else if leb max_writes attempt
    then (failed, rest)
    else (writing (items_of unprocessed) (attempt + 1), rest)

abbrev pub replicate : ℕ → Worker → List Worker
replicate zero worker = []
replicate (suc n) worker = worker ∷ replicate n worker

module _ {W : Type 0} (dynamo : Dynamo W) where
  unfoldable pub resume : Worker → List (List FeedItem) → W → Worker × List (List FeedItem) × W
  unfolding settle_write
  resume created rest w = let (worker, left) = take_next rest in (worker, left, w)
  resume (writing batch attempt) rest w =
      let (answer, after) = dynamo.batch_write batch w in
      let (worker, left) = settle_write attempt rest answer in (worker, left, after)
  resume finished rest w = (finished, rest, w)
  resume failed rest w = (failed, rest, w)

  -- A turn of the i-th worker.
  unfoldable pub turn : ℕ → List Worker → List (List FeedItem) → W → Fanout W
  unfolding resume
  turn i [] rest w = record { rest = rest; workers = []; world = w }
  turn zero (worker ∷ workers) rest w =
      let (next, left, after) = resume worker rest w in
      record { rest = left; workers = next ∷ workers; world = after }
  turn (suc i) (worker ∷ workers) rest w =
      let state = turn i workers rest w in record state { workers = worker ∷ state.workers }

  -- The turns of the workers, in the order of the list.
  unfoldable pub run : List ℕ → Fanout W → Fanout W
  run [] state = state
  run (i ∷ schedule) state = run schedule (turn i state.workers state.rest state.world)

  unfoldable pub start_fanout : List (List FeedItem) → W → Fanout W
  start_fanout batches w = record {
    rest = batches;
    workers = replicate (min fanout_concurrency (length batches)) created;
    world = w;
  }
