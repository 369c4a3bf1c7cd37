-- ===== src/FeedWorker/Events/Counts.antt =====
-- Whom feed-worker/src/event-handler.ts writes to, and how it counts its messages.
use escld.Prelude.{
  ℕ, ◌+◌, String, ◌≡◌, refl, Bool, true, false, ◌&&◌, Option, none, some, List, [], ◌∷◌, ◌++◌,
  arith, ◌==◌, eq_iff, if◌then◌else◌, any, Result, ok, err,
}
use escld.Js.Json.{Json, Engine}
use escld.FeedWorker.Events.{
  is_post_created_event, event_of, PostCreatedEvent, EventDeps, Lane, without, unique, index_event,
  process_event,
}

abbrev pub count : String → List String → ℕ
count id [] = 0
count id (x ∷ xs) = (if x == id then 1 else 0) + count id xs

abbrev pub is_ok : {A : Type 0} → Result A → Bool
is_ok (ok a) = true
is_ok err = false

count-without :
    (id x : String) (xs : List String)
    → count id (without x xs) ≡ (if x == id then 0 else count id xs)
count-without id x [] = ground arith
count-without id x (y ∷ xs) =
    ground (arith, count-without id x xs, eq_iff y x, eq_iff y id, eq_iff x id)

-- Every id that occurs occurs once among the recipients, and no other does.
count-unique :
    (id : String) (xs : List String)
    → count id (unique xs) ≡ (if any (λ x. x == id) xs then 1 else 0)
unfolding unique
count-unique id [] = refl
count-unique id (x ∷ xs) = ground (arith, count-unique id xs, count-without id x (unique xs))

module _ {W E Message : Type 0} (deps : EventDeps W E Message) (engine : Engine) (late : Bool)
    (message : Message) where
  -- The fan-out to the listed followers and the author, each once, returned.
  abbrev pub is_fanned_out : PostCreatedEvent → Result (List String) × W → Bool
  is_fanned_out event (err, w) = false
  is_fanned_out event (ok followers, w) =
      is_ok
        (deps.fanout (unique (followers ++ event.author_id ∷ [])) event.post_id event.author_id
          event.created_at w).0

  -- The post reached its feeds: the message is a valid event, its followers were listed after the
  -- search index was written, and the fan-out returned.
  abbrev pub reached : Option Json → Lane W → Bool
  reached none lane = false
  reached (some v) lane =
      is_post_created_event v
      && is_fanned_out (event_of v)
          (deps.list_followers (event_of v).author_id (index_event deps (event_of v) lane.world))

  abbrev pub deleted : Option Json → Lane W → Bool
  deleted none lane = false
  deleted (some v) lane =
      is_ok (deps.delete_message message (process_event deps (event_of v) lane).1.world).0
