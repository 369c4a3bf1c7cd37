-- ===== src/Frontend/Observations.antt =====
-- The queue of observations that the client sends in batches: `ObservationQueue` of
-- frontend/src/lib/observation.ts.
pub mod Bounds
pub mod Awake
pub mod Sends
use escld.Prelude.{
  ℕ, ◌+◌, ◌-◌, ◌*◌, ◌^◌, min, max, String, ◌≡◌, Bool, true, false, not, ◌&&◌, ◌||◌, Option, none,
  some, List, [], ◌∷◌, ◌++◌, map, ◌==◌, ltb, leb, if◌then◌else◌, length, take, drop, any,
}
use escld.Js.Json.{Json}

abbrev pub flush_batch_size : ℕ
flush_batch_size = 20

abbrev pub max_queue_size : ℕ
max_queue_size = 200

abbrev pub max_attempts : ℕ
max_attempts = 3

pub data ObservationType : Type 0 where
  post_impression post_dwell media_progress : ObservationType

pub record ObservationEvent : Type 0 where
  pub event_id : String
  pub kind : ObservationType
  pub occurred_at : String
  pub session_id : String
  pub observation_token : String
  pub payload : List (String × Json)

pub record BatchResponse : Type 0 where
  pub accepted_event_ids : List String
  pub rejected : List (String × String)
  pub retryable_event_ids : List String

pub record QueuedEvent : Type 0 where
  pub event : ObservationEvent
  pub attempts : ℕ

abbrev pub id_of : QueuedEvent → String
id_of queued = queued.event.event_id

-- `pending` is a Map in the order of insertion. `in_flight` is the batch that a suspended `flushNow`
-- holds, and `sent` what the sender was called with. `timer` is the delay of the timer that is set.
pub record Queue : Type 0 where
  pub pending : List QueuedEvent
  pub flushing : Bool
  pub in_flight : List QueuedEvent
  pub timer : Option ℕ
  pub sent : List (List ObservationEvent)

abbrev pub new_queue : Queue
new_queue = record { pending = []; flushing = false; in_flight = []; timer = none; sent = [] }

-- `Map.prototype.has`, `delete` and `set`.
abbrev pub has : String → List QueuedEvent → Bool
has id [] = false
has id (q ∷ qs) = id_of q == id || has id qs

abbrev pub delete : String → List QueuedEvent → List QueuedEvent
delete id [] = []
delete id (q ∷ qs) = if id_of q == id then qs else q ∷ delete id qs

abbrev pub set : QueuedEvent → List QueuedEvent → List QueuedEvent
set new [] = new ∷ []
set new (q ∷ qs) = if id_of q == id_of new then new ∷ qs else q ∷ set new qs

abbrev pub is_continuous : ObservationType → Bool
is_continuous post_impression = false
is_continuous post_dwell = true
is_continuous media_progress = true

abbrev pub oldest_continuous : List QueuedEvent → Option QueuedEvent
oldest_continuous [] = none
oldest_continuous (q ∷ qs) = if is_continuous q.event.kind then some q else oldest_continuous qs

-- A full queue gives up its oldest continuous event, or drops the new one if it is continuous, or
-- gives up its oldest event.
unfoldable pub make_room : ObservationEvent → List QueuedEvent → Option (List QueuedEvent)
make_room event pending =
    if ltb (length pending) max_queue_size then some pending else elim (oldest_continuous pending) [
      | some q ↦ some (delete (id_of q) pending)
      | none ↦ if is_continuous event.kind then none else some (drop 1 pending)
    ]

abbrev pub delete_all : List QueuedEvent → List QueuedEvent → List QueuedEvent
delete_all [] pending = pending
delete_all (q ∷ qs) pending = delete_all qs (delete (id_of q) pending)

abbrev pub is_empty : List QueuedEvent → Bool
is_empty [] = true
is_empty (q ∷ qs) = false

abbrev pub or_set : Option ℕ → ℕ → Option ℕ
or_set none delay = some delay
or_set (some before) delay = some before

unfoldable pub schedule : ℕ → Queue → Queue
schedule delay q = record q { timer = or_set q.timer delay }

-- `flushNow` up to its `await`.
unfoldable pub flush_now : Queue → Queue
flush_now q =
    let batch = take flush_batch_size q.pending in
    if q.flushing || is_empty q.pending then q else record {
      pending = delete_all batch q.pending;
      flushing = true;
      in_flight = batch;
      timer = none;
      sent = q.sent ++ map (λ queued. queued.event) batch ∷ [];
    }

-- What `setTimeout` calls.
unfoldable pub timer_fires : Queue → Queue
unfolding flush_now
timer_fires q = flush_now (record q { timer = none })

module _ (flush_delay : ℕ) where
  unfoldable pub enqueue : ObservationEvent → Queue → Queue
  unfolding flush_now schedule make_room
  enqueue event q = if has event.event_id q.pending then q else elim (make_room event q.pending) [
    | none ↦ q
    | some kept ↦
        let pending = set (record { event = event; attempts = 0 }) kept in
        let queue = record q { pending = pending } in
        if leb flush_batch_size (length pending)
        then flush_now queue
        else schedule flush_delay queue
  ]

  abbrev pub retry : QueuedEvent → List QueuedEvent → List QueuedEvent
  retry queued pending =
      if ltb (queued.attempts + 1) max_attempts
      then set (record queued { attempts = queued.attempts + 1 }) pending
      else pending

  abbrev pub includes : String → List String → Bool
  includes id ids = any (λ other. other == id) ids

  -- Whether an answer leaves an event to be sent again; `none` is a request that failed.
  unfoldable pub to_retry : Option BatchResponse → String → Bool
  to_retry none id = true
  to_retry (some result) id =
      includes id result.retryable_event_ids
      || (not (includes id result.accepted_event_ids)
          && not (includes id (map (λ (rejected, code). rejected) result.rejected)))

  unfoldable pub retry_all :
      Option BatchResponse → List QueuedEvent → List QueuedEvent → List QueuedEvent
  unfolding to_retry
  retry_all answer [] pending = pending
  retry_all answer (queued ∷ batch) pending =
      retry_all answer batch
        (if to_retry answer (id_of queued) then retry queued pending else pending)

  abbrev pub highest_attempt : List QueuedEvent → ℕ
  highest_attempt [] = 0
  highest_attempt (q ∷ qs) = max q.attempts (highest_attempt qs)

  -- The rest of `flushNow`, after the sender has answered.
  unfoldable pub answered : Option BatchResponse → Queue → Queue
  unfolding retry_all schedule
  answered answer q =
      let pending = retry_all answer q.in_flight q.pending in
      let queue = record q { pending = pending; flushing = false; in_flight = [] } in
      if is_empty pending
      then queue
      else schedule (flush_delay * 2 ^ min (highest_attempt pending) (max_attempts - 1)) queue

  -- The queues that come about, with the events that were enqueued, the last one first.
  pub data Reachable : List ObservationEvent → Queue → Type 0 where
    start : Reachable [] new_queue
    enqueued :
        (event : ObservationEvent) (events : List ObservationEvent) (q : Queue)
        → Reachable events q
        → Reachable (event ∷ events) (enqueue event q)
    fired :
        (delay : ℕ) (events : List ObservationEvent) (q : Queue)
        → Reachable events q
        → q.timer ≡ some delay
        → Reachable events (timer_fires q)
    received :
        (answer : Option BatchResponse) (events : List ObservationEvent) (q : Queue)
        → Reachable events q
        → q.flushing ≡ true
        → Reachable events (answered answer q)
