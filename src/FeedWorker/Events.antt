-- ===== src/FeedWorker/Events.antt =====
-- feed-worker/src/types.ts and event-handler.ts: the handling of one message. Logs and metrics are
-- left out.
pub mod Counts
use escld.Prelude.{
  ℕ, ◌+◌, String, Bool, true, false, not, ◌&&◌, Option, none, some, List, [], ◌∷◌, ◌++◌, ◌==◌,
  if◌then◌else◌, all, Result, ok, err,
}
use escld.Js.Json.{
  Json, str, arr, Engine, prop, items, is_object, is_string, is_text, as_string, is_str,
}

unfoldable pub is_array_of_strings : Option Json → Bool
is_array_of_strings (some (arr vs)) = all is_str (items vs)
is_array_of_strings _ = false

unfoldable pub is_post_created_event : Json → Bool
unfolding is_array_of_strings
is_post_created_event value =
    is_object (some value)
    && is_text "CREATED" (prop "eventType" value)
    && is_string (prop "postId" value)
    && is_string (prop "authorId" value)
    && is_string (prop "text" value)
    && is_array_of_strings (prop "tags" value)
    && is_string (prop "createdAt" value)

abbrev pub strings_of : List Json → List String
strings_of [] = []
strings_of (str s ∷ vs) = s ∷ strings_of vs
strings_of (v ∷ vs) = strings_of vs

abbrev pub tags_of : Option Json → List String
tags_of (some (arr vs)) = strings_of (items vs)
tags_of _ = []

pub record PostCreatedEvent : Type 0 where
  pub post_id : String
  pub author_id : String
  pub text : String
  pub tags : List String
  pub created_at : String

abbrev pub event_of : Json → PostCreatedEvent
event_of v = record {
  post_id = as_string (prop "postId" v);
  author_id = as_string (prop "authorId" v);
  text = as_string (prop "text" v);
  tags = tags_of (prop "tags" v);
  created_at = as_string (prop "createdAt" v);
}

pub record IndexedPost (E : Type 0) : Type 0 where
  pub user_id : String
  pub text : String
  pub tags : List String
  pub created_at : String
  pub embedding : E

-- The parts that the handler calls, over the world that they change; E is an embedding.
pub record EventDeps (W E Message : Type 0) : Type 0 where
  pub list_followers : (author_id : String) → W → Result (List String) × W
  pub fanout : List String → (post_id author_id created_at : String) → W → Result (Unit {0}) × W
  pub index_post : (post_id : String) → IndexedPost E → W → Result (Unit {0}) × W
  pub embed_text : String → W → Result (Option E) × W
  pub delete_message : Message → W → Result (Unit {0}) × W

pub record WorkerStats : Type 0 where
  pub jobs_succeeded : ℕ
  pub jobs_failed : ℕ

pub record Lane (W : Type 0) : Type 0 where
  pub world : W
  pub stats : WorkerStats

-- `[...new Set(ids)]`.
abbrev pub without : String → List String → List String
without id [] = []
without id (x ∷ xs) = if x == id then without id xs else x ∷ without id xs

unfoldable pub unique : List String → List String
unique [] = []
unique (x ∷ xs) = x ∷ without x (unique xs)

module _ {W E Message : Type 0} (deps : EventDeps W E Message) where
  abbrev pub index_embedded : PostCreatedEvent → Result (Option E) × W → W
  index_embedded event (err, w) = w
  index_embedded event (ok none, w) = w
  index_embedded event (ok (some embedding), w) =
      (deps.index_post event.post_id
        (record {
          user_id = event.author_id;
          text = event.text;
          tags = event.tags;
          created_at = event.created_at;
          embedding = embedding;
        })
        w).1

  -- The `try` around the search index: whatever happens, fan-out follows.
  unfoldable pub index_event : PostCreatedEvent → W → W
  index_event event w = index_embedded event (deps.embed_text event.text w)

  abbrev pub count_success : Result (Unit {0}) × W → WorkerStats → Result (Unit {0}) × Lane W
  count_success (err, w) stats = (err, record { world = w; stats = stats })
  count_success (ok u, w) stats = (
    ok tt,
    record { world = w; stats = record stats { jobs_succeeded = stats.jobs_succeeded + 1 } },
  )

  abbrev pub fan_out :
      PostCreatedEvent → Result (List String) × W → WorkerStats → Result (Unit {0}) × Lane W
  fan_out event (err, w) stats = (err, record { world = w; stats = stats })
  fan_out event (ok followers, w) stats =
      count_success
        (deps.fanout (unique (followers ++ event.author_id ∷ [])) event.post_id event.author_id
          event.created_at w)
        stats

  unfoldable pub process_event : PostCreatedEvent → Lane W → Result (Unit {0}) × Lane W
  unfolding index_event
  process_event event lane =
      fan_out event (deps.list_followers event.author_id (index_event event lane.world)) lane.stats

  abbrev pub count_failure : Lane W → Lane W
  count_failure lane = record lane {
    stats = record lane.stats { jobs_failed = lane.stats.jobs_failed + 1 };
  }

  abbrev pub after_delete : Result (Unit {0}) × W → Lane W → Lane W
  after_delete (ok u, w) lane = record lane { world = w }
  after_delete (err, w) lane = count_failure (record lane { world = w })

  -- What follows `withDeadline`. `late` says that the deadline passed first: the work goes on to its
  -- end, detached, and its outcome is dropped.
  abbrev pub finish : Bool → Message → Result (Unit {0}) × Lane W → Lane W
  finish true message (result, lane) = count_failure lane
  finish false message (err, lane) = count_failure lane
  finish false message (ok u, lane) = after_delete (deps.delete_message message lane.world) lane

  abbrev pub handle_parsed : Bool → Message → Option Json → Lane W → Lane W
  handle_parsed late message none lane = count_failure lane
  handle_parsed late message (some v) lane =
      if not (is_post_created_event v)
      then count_failure lane
      else finish late message (process_event (event_of v) lane)

  unfoldable pub process_message : Engine → Bool → Message → (body : String) → Lane W → Lane W
  unfolding process_event is_post_created_event
  process_message engine late message body lane =
      handle_parsed late message (engine.json_parse body) lane
