-- ===== src/FeedWorker/Tests.antt =====
-- Runs of the feed worker.
use escld.Prelude.{
  ℕ, ◌+◌, ◌≤◌, String, ◌≡◌, refl, subst, ◌⊎◌, inl, inr, false, Option, none, some, List, [], ◌∷◌,
  length, All, Result, ok, err, ◌*◌,
}
use escld.Js.Json.{Json, str, obj, arr, nil, end, field, Engine}
use escld.FeedWorker.Dynamo.{
  Page, Dynamo, FeedItem, feed_item, list_followers, write_batches, batches_of, max_writes,
}
use escld.FeedWorker.Followers.{last_page, next_page, follower_key, list_followers-all}
use escld.FeedWorker.Fanout.{Fanout, run, turn, resume, settle_write, start_fanout, items_of}
use escld.FeedWorker.Fanout.Stored.{Any, BatchLaws}
use escld.FeedWorker.Fanout.Ends.{run-stores}
use escld.FeedWorker.Fanout.Turns.{AllLive, IsDone, run-ends}
use escld.Js.Text.{utf16_drop, utf16_length}
use escld.FeedWorker.Events.{
  EventDeps, Lane, process_message, is_post_created_event, is_array_of_strings, process_event,
  index_event, event_of, unique,
}
use escld.FeedWorker.Service.{FeedServices, spread, event_handler_deps}
use escld.FeedWorker.Service.Feeds.{Reached, process_message-Reached}

-- A table that takes one item at a time, and an author with two pages of followers.
abbrev toy_page : Option ℕ → Page ℕ
toy_page none = record { sort_keys = some (follower_key "b") ∷ []; last_evaluated_key = some 1 }
toy_page (some n) = record { sort_keys = some (follower_key "c") ∷ []; last_evaluated_key = none }

abbrev put : List FeedItem → List FeedItem → Result (Option (List FeedItem)) × List FeedItem
put [] w = (ok none, w)
put (x ∷ xs) w = (ok (some xs), x ∷ w)

abbrev toy_dynamo : Dynamo (List FeedItem)
toy_dynamo = record {
  Key = ℕ;
  query = λ pk prefix start w. (ok (toy_page start), w);
  batch_write = put;
}

abbrev Stored : FeedItem → List FeedItem → Type 0
Stored item w = Any (λ x. x ≡ item) w

abbrev given_back : Result (Option (List FeedItem)) → List FeedItem
given_back err = []
given_back (ok unprocessed) = items_of unprocessed

toy_answers :
    (item : FeedItem) (batch w after : List FeedItem) (unprocessed : Option (List FeedItem))
    → put batch w ≡ (ok unprocessed, after)
    → Any (λ x. x ≡ item) batch
    → Stored item after ⊎ Any (λ x. x ≡ item) (items_of unprocessed)
toy_answers item [] w after unprocessed e h = elim h [ ]
toy_answers item (x ∷ xs) w after unprocessed e (inl here) =
    inl (subst (λ q. Stored item q.1) e (inl here))
toy_answers item (x ∷ xs) w after unprocessed e (inr later) =
    inr (subst (λ q. Any (λ y. y ≡ item) (given_back q.0)) e later)

toy_keeps :
    (item : FeedItem) (batch w : List FeedItem) → Stored item w → Stored item (put batch w).1
toy_keeps item [] w h = h
toy_keeps item (x ∷ xs) w h = inr h

toy_laws : BatchLaws toy_dynamo Stored
toy_laws = record { answers = toy_answers; keeps = toy_keeps }

list_followers-all_example : list_followers toy_dynamo "a" 2 [] ≡ (some (ok ("b" ∷ "c" ∷ [])), [])
list_followers-all_example =
    list_followers-all toy_dynamo "a" [] [] (("b" ∷ []) ∷ ("c" ∷ []) ∷ []) (
      next_page none [] [] [] (some (follower_key "b") ∷ []) 1 ((some (follower_key "c") ∷ []) ∷ [])
        refl (last_page (some 1) [] [] (some (follower_key "c") ∷ []) refl))

-- One worker writes the only batch in two writes.
abbrev after_run : Fanout (List FeedItem)
after_run =
    run toy_dynamo (0 ∷ 0 ∷ 0 ∷ [])
      (start_fanout toy_dynamo (write_batches "p" "a" "2026" ("a" ∷ "b" ∷ [])) [])

run-stores_example : Stored (feed_item "p" "a" "2026" "b") after_run.world
unfolding run turn resume settle_write start_fanout write_batches batches_of
run-stores_example =
    run-stores toy_dynamo Stored toy_laws "p" "a" "2026" ("a" ∷ "b" ∷ []) "b" (0 ∷ 0 ∷ 0 ∷ []) []
      (inr (inl refl)) (tt, tt)

run-ends_example :
    (3 ≤ (max_writes + 1) * 1 + 1)
    × ((more : List ℕ) × AllLive toy_dynamo more after_run
        × All IsDone (run toy_dynamo more after_run).workers)
unfolding run turn resume settle_write start_fanout write_batches batches_of
run-ends_example =
    run-ends toy_dynamo (write_batches "p" "a" "2026" ("a" ∷ "b" ∷ [])) [] (0 ∷ 0 ∷ 0 ∷ [])
      (tt, (tt, (tt, tt)))

abbrev post_event : Json
post_event = obj (
    field "eventType" (str "CREATED") (
      field "postId" (str "p1") (
        field "authorId" (str "a1") (
          field "text" (str "hello")
            (field "tags" (arr nil) (field "createdAt" (str "2026") end))))))

abbrev toy_engine : Engine
toy_engine = record {
  json_parse = λ s. some post_event;
  date_parse = λ s. none;
  stringify = λ row. none;
  to_lower_case = λ s. s;
  is_positive = λ o. false;
  as_text = λ v. none;
}

-- Everything succeeds but the deletion of the message.
abbrev toy_deps : EventDeps ℕ ℕ String
toy_deps = record {
  list_followers = λ author w. (ok ("b" ∷ []), w);
  fanout = λ ids post author time w. (ok tt, w + length ids);
  index_post = λ post doc w. (err, w);
  embed_text = λ text w. (ok (some 0), w);
  delete_message = λ message w. (err, w);
}

abbrev lane : Lane ℕ
lane = record { world = 0; stats = record { jobs_succeeded = 0; jobs_failed = 0 } }

-- The message counts both as succeeded and as failed.
counted_twice :
    ((process_message toy_deps toy_engine false "m" "body" lane).stats.jobs_succeeded ≡ 1)
    × ((process_message toy_deps toy_engine false "m" "body" lane).stats.jobs_failed ≡ 1)
unfolding process_message process_event is_post_created_event is_array_of_strings index_event
counted_twice = (refl, refl)

-- The table that takes one item at a time, in the hands of the event handler.
abbrev toy_services : FeedServices (List FeedItem) ℕ String
toy_services = record {
  dynamo = toy_dynamo;
  embed_text = λ text w. (ok (some 0), w);
  index_post = λ post doc w. (err, w);
  delete_message = λ message w. (ok tt, w);
  turns = λ batches w. 0 ∷ 3 ∷ [];
}

abbrev table_lane : Lane (List FeedItem)
table_lane = record { world = []; stats = record { jobs_succeeded = 0; jobs_failed = 0 } }

abbrev two_pages : List (List String)
two_pages = ("b" ∷ []) ∷ ("c" ∷ []) ∷ []

abbrev handled : Lane (List FeedItem)
handled = process_message (event_handler_deps toy_services 2) toy_engine false "m" "body" table_lane

-- One item each for two followers and the author.
handled_run :
    (handled.stats.jobs_succeeded ≡ 1)
    × (handled.stats.jobs_failed ≡ 0)
    × (length handled.world ≡ 3)
unfolding process_message process_event is_post_created_event is_array_of_strings index_event
    list_followers spread run turn resume settle_write start_fanout write_batches batches_of unique
    utf16_drop utf16_length
handled_run = (refl, refl, refl)

process_message-Reached_example :
    Reached toy_services Stored toy_laws
      (λ item message w h. h)
      two_pages
      "m"
      (event_of post_event)
      []
      table_lane.stats
      handled
unfolding is_post_created_event is_array_of_strings index_event
process_message-Reached_example =
    process_message-Reached toy_services Stored toy_laws (λ item message w h. h) two_pages "m"
      toy_engine false "body" table_lane post_event [] refl refl
      (next_page none [] [] [] (some (follower_key "b") ∷ []) 1
        ((some (follower_key "c") ∷ []) ∷ []) refl
        (last_page (some 1) [] [] (some (follower_key "c") ∷ []) refl))
