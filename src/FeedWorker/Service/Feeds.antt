-- ===== src/FeedWorker/Service/Feeds.antt =====
-- What feed-worker/src/event-handler.ts and dynamo.ts, put together, do for a message.
use escld.Prelude.{
  ◌+◌, String, ◌≡◌, refl, sym, subst, ◌⊎◌, inl, inr, Bool, true, false, none, some, List, [], ◌∷◌,
  ◌++◌, map, length, All, concat, All-map, Result, ok, err,
}
use escld.Js.Json.{Json, Engine}
use escld.FeedWorker.Dynamo.{FeedItem, feed_item, list_followers, write_batches}
use escld.FeedWorker.Followers.{Pages, follower_key, list_followers-all}
use escld.FeedWorker.Events.{
  is_post_created_event, PostCreatedEvent, event_of, EventDeps, Lane, WorkerStats, unique,
  index_event, process_event, process_message, count_success, after_delete, finish,
}
use escld.FeedWorker.Fanout.{Fanout}
use escld.FeedWorker.Fanout.Stored.{Any, BatchLaws}
use escld.FeedWorker.Fanout.Ends.{IsFinished}
use escld.FeedWorker.Service.{FeedServices, all_settled, spread, event_handler_deps}
use escld.FeedWorker.Service.Recipients.{unique-Any, Any-last, Any-front, All-from}
use escld.FeedWorker.Service.Drain.{IsFailed, all_settled-cases, spread-ends, spread-stores}

module _ {W E Message : Type 0} (services : FeedServices W E Message)
    (Stored : FeedItem → W → Type 0) (laws : BatchLaws services.dynamo Stored)
    (kept : (item : FeedItem) (message : Message) (w : W)
      → Stored item w
      → Stored item (services.delete_message message w).1)
    (pages : List (List String)) (message : Message) where
  abbrev deps : EventDeps W E Message
  deps = event_handler_deps services (length pages)

  abbrev pub recipients : PostCreatedEvent → List String
  recipients event = unique (concat pages ++ event.author_id ∷ [])

  abbrev pub InFeeds : PostCreatedEvent → W → Type 0
  InFeeds event w =
      All (λ id. Stored (feed_item event.post_id event.author_id event.created_at id) w)
        (event.author_id ∷ concat pages)

  abbrev pub fan_out_of : PostCreatedEvent → W → Fanout W
  fan_out_of event w =
      spread services
        (write_batches event.post_id event.author_id event.created_at (recipients event)) w

  -- The message reached all feeds, or a worker of the fan-out failed.
  abbrev pub Reached : PostCreatedEvent → W → WorkerStats → Lane W → Type 0
  Reached event w before after =
      ((after.stats.jobs_succeeded ≡ before.jobs_succeeded + 1) × InFeeds event after.world)
      ⊎ ((after.stats.jobs_succeeded ≡ before.jobs_succeeded)
          × (after.stats.jobs_failed ≡ before.jobs_failed + 1)
          × Any IsFailed (fan_out_of event w).workers)

  fan_out-InFeeds :
      (event : PostCreatedEvent) (w : W)
      → All IsFinished (fan_out_of event w).workers
      → InFeeds event (fan_out_of event w).world
  fan_out-InFeeds event w done =
      let stores =
        spread-stores services Stored laws event.post_id event.author_id event.created_at
          (recipients event) w in
      (
        stores event.author_id
            (unique-Any event.author_id _ (Any-last (concat pages) event.author_id)) done,
        All-from _ (concat pages)
            (λ id among. stores id (unique-Any id _ (Any-front id (concat pages) _ among)) done),
      )

  finish-InFeeds :
      (late : Bool) (event : PostCreatedEvent) (w : W) (before : WorkerStats) (lane : Lane W)
      → lane.stats.jobs_succeeded ≡ before.jobs_succeeded + 1
      → InFeeds event lane.world
      → Reached event w before (finish deps late message (ok tt, lane))
  finish-InFeeds true event w before lane counted fed = inl (counted, fed)
  finish-InFeeds false event w before lane counted fed =
      by_delete (services.delete_message message lane.world) (
        All-map
          (λ id.
            kept (feed_item event.post_id event.author_id event.created_at id) message lane.world)
          (event.author_id ∷ concat pages) fed)
    where
      by_delete :
          (d : Result (Unit {0}) × W)
          → InFeeds event d.1
          → Reached event w before (after_delete deps d lane)
      by_delete (ok u, after) h = inl (counted, h)
      by_delete (err, after) h = inl (counted, h)

  finish-Reached :
      (late : Bool) (event : PostCreatedEvent) (w : W) (before : WorkerStats)
      → Reached event w before (
          finish deps late message (
            count_success deps
              (all_settled (fan_out_of event w).workers, (fan_out_of event w).world)
              before))
  finish-Reached late event w before =
      elim (all_settled-cases (fan_out_of event w).workers (spread-ends services _ w).0) [
        | inl (e, done) ↦
            subst settles (sym e)
              (finish-InFeeds late event w before _ refl (fan_out-InFeeds event w done))
        | inr (e, broken) ↦ subst settles (sym e) (by_late late broken)
      ]
    where
      settles : Result (Unit {0}) → Type 0
      settles r =
          Reached event w before
            (finish deps late message (count_success deps (r, (fan_out_of event w).world) before))

      by_late :
          (late : Bool)
          → Any IsFailed (fan_out_of event w).workers
          → Reached event w before (
              finish deps late message
                (count_success deps (err, (fan_out_of event w).world) before))
      by_late true broken = inr (refl, refl, broken)
      by_late false broken = inr (refl, refl, broken)

  process_message-finish :
      (engine : Engine) (late : Bool) (body : String) (lane : Lane W) (v : Json) (listed : W)
      → engine.json_parse body ≡ some v
      → is_post_created_event v ≡ true
      → list_followers services.dynamo
          (event_of v).author_id
          (length pages)
          (index_event deps (event_of v) lane.world)
        ≡ (some (ok (concat pages)), listed)
      → process_message deps engine late message body lane
        ≡ finish deps late message (
            count_success deps
              (
                all_settled (fan_out_of (event_of v) listed).workers,
                (fan_out_of (event_of v) listed).world,
              )
              lane.stats)
  unfolding process_message process_event
  process_message-finish engine late body lane v listed parsed valid answer =
      rw (parsed, valid, answer) refl

  -- Where the body of a message is a valid event and the query answers with a finite row of pages of
  -- followers: the message counts as succeeded once, and at its end the feed items of the author and
  -- of the followers of all pages are stored; or it counts as failed once and not as succeeded, and a
  -- worker of the fan-out failed. This holds in whatever order the workers take turns, and whether or
  -- not the deadline passes first. DynamoDB keeps what it documents of BatchWriteItem, and the
  -- deletion of a message takes no item away.
  pub process_message-Reached :
      (engine : Engine) (late : Bool) (body : String) (lane : Lane W) (v : Json) (listed : W)
      → engine.json_parse body ≡ some v
      → is_post_created_event v ≡ true
      → Pages services.dynamo
          (event_of v).author_id
          none
          (index_event deps (event_of v) lane.world)
          (map (map (λ id. some (follower_key id))) pages)
          listed
      → Reached (event_of v) listed lane.stats (process_message deps engine late message body lane)
  process_message-Reached engine late body lane v listed parsed valid answers =
      subst (Reached (event_of v) listed lane.stats)
        (sym (
          process_message-finish engine late body lane v listed parsed valid (
            list_followers-all services.dynamo (event_of v).author_id
              (index_event deps (event_of v) lane.world) listed pages answers)))
        (finish-Reached late (event_of v) listed lane.stats)
