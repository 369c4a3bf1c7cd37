-- ===== src/FeedWorker/Service.antt =====
-- The parts that feed-worker/src/index.ts hands to the event handler: the list of followers and the
-- fan-out of dynamo.ts, and the calls of other services.
pub mod Recipients
pub mod Drain
pub mod Feeds
use escld.Prelude.{ℕ, zero, suc, String, Option, none, some, List, [], ◌∷◌, Result, ok, err}
use escld.FeedWorker.Dynamo.{Dynamo, FeedItem, list_followers, write_batches}
use escld.FeedWorker.Events.{EventDeps, IndexedPost}
use escld.FeedWorker.Fanout.{
  Worker, created, writing, finished, failed, Fanout, turn, run, start_fanout,
}
use escld.FeedWorker.Fanout.Budget.{budget}

-- The services outside, and the order in which the workers of a fan-out take turns: any list of
-- turns, after which the workers that are not done take theirs, the first one first.
pub record FeedServices (W E Message : Type 0) : Type 1 where
  pub dynamo : Dynamo W
  pub embed_text : String → W → Result (Option E) × W
  pub index_post : (post_id : String) → IndexedPost E → W → Result (Unit {0}) × W
  pub delete_message : Message → W → Result (Unit {0}) × W
  pub turns : List (List FeedItem) → W → List ℕ

abbrev pub next_worker : Option ℕ → Option ℕ
next_worker none = none
next_worker (some i) = some (suc i)

abbrev pub first_live : List Worker → Option ℕ
first_live [] = none
first_live (created ∷ workers) = some 0
first_live (writing batch attempt ∷ workers) = some 0
first_live (finished ∷ workers) = next_worker (first_live workers)
first_live (failed ∷ workers) = next_worker (first_live workers)

-- What `Promise.all` makes of the workers when all are done.
abbrev pub all_settled : List Worker → Result (Unit {0})
all_settled [] = ok tt
all_settled (finished ∷ workers) = all_settled workers
all_settled (worker ∷ workers) = err

-- Pages that are more than the fuel count as an error; the fuel is the number of pages.
abbrev pub within_fuel : {W : Type 0} → Option (Result (List String)) × W → Result (List String) × W
within_fuel (none, w) = (err, w)
within_fuel (some result, w) = (result, w)

module _ {W E Message : Type 0} (services : FeedServices W E Message) where
  unfoldable pub drain : ℕ → Fanout W → Fanout W
  drain zero state = state
  drain (suc fuel) state = elim (first_live state.workers) [
    | none ↦ state
    | some i ↦ drain fuel (turn services.dynamo i state.workers state.rest state.world)
  ]

  -- The fan-out when all its workers are done: after a failure the others go on, detached.
  unfoldable pub spread : List (List FeedItem) → W → Fanout W
  unfolding drain
  spread batches w =
      let state =
        run services.dynamo (services.turns batches w) (start_fanout services.dynamo batches w) in
      drain (budget state) state

  abbrev pub fanout :
      List String → (post_id author_id created_at : String) → W → Result (Unit {0}) × W
  fanout recipient_ids post_id author_id created_at w =
      let state = spread (write_batches post_id author_id created_at recipient_ids) w in
      (all_settled state.workers, state.world)

  -- `eventHandlerDeps`.
  abbrev pub event_handler_deps : (pages : ℕ) → EventDeps W E Message
  event_handler_deps pages = record {
    list_followers = λ author_id w. within_fuel (list_followers services.dynamo author_id pages w);
    fanout = fanout;
    index_post = services.index_post;
    embed_text = services.embed_text;
    delete_message = services.delete_message;
  }
