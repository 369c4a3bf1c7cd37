-- ===== src/Frontend/Observations/Sends.antt =====
-- How often `ObservationQueue` sends an event, and which events an answer leaves in it.
pub mod Left
use escld.Prelude.{
  ℕ, ◌+◌, ◌*◌, ◌≤◌, String, ◌≡◌, refl, inl, inr, Bool, true, not, if◌then◌else◌, ◌++◌, ◌&&◌, ◌||◌,
  Option, none, some, List, [], ◌∷◌, map, arith, ◌==◌, eq_iff, ltb, leb, Bool-cases, length, take,
  any, All,
}
use escld.Frontend.Observations.{
  flush_batch_size, max_attempts, ObservationEvent, QueuedEvent, id_of, BatchResponse, Queue, set,
  has, is_empty, schedule, flush_now, timer_fires, enqueue, to_retry, retry_all, answered,
  Reachable, start, enqueued, fired, received,
}
use escld.Frontend.Observations.Bounds.{
  IsTried, Bounded, Reachable-Bounded, delete_all-take, take-All, set-All, make_room-fits,
}
use escld.Frontend.Observations.Sends.Left.{
  occurs, sends, left, sends-append, left-set, left-split, left-send, left-make_room,
  left-retry_all,
}

-- What is sent and what may be sent again, for an event id.
abbrev pub Spent : String → ℕ → Queue → Type 0
Spent id n q = sends id q.sent + left id 0 q.pending + left id 1 q.in_flight ≤ max_attempts * n

flush_now-Spent :
    (id : String) (n : ℕ) (q : Queue)
    → All IsTried q.pending
    → Spent id n q
    → Spent id n (flush_now q)
unfolding flush_now
flush_now-Spent id n q tried h = elim (Bool-cases (q.flushing || is_empty q.pending)) [
  | inl stays ↦ rw (stays, flush_now) h
  | inr goes ↦
      let batch = take flush_batch_size q.pending in
      rw (goes, flush_now, delete_all-take flush_batch_size q.pending)
        (omega (
          arith,
          h,
          sends-append id q.sent (map (λ queued. queued.event) batch ∷ []),
          left-split id flush_batch_size q.pending,
          left-send id batch (take-All IsTried flush_batch_size q.pending tried),
        ))
]

enqueue-Spent :
    (delay : ℕ) (id : String) (events : List ObservationEvent) (event : ObservationEvent)
    (q : Queue)
    → Bounded q
    → Spent id (occurs id events) q
    → Spent id (occurs id (event ∷ events)) (enqueue delay event q)
unfolding enqueue schedule
enqueue-Spent delay id events event q b h = elim (Bool-cases (has event.event_id q.pending)) [
  | inl old ↦ rw (old, enqueue) (omega (arith, h))
  | inr new ↦ elim (make_room-fits event q.pending b.tried) [
    | inl dropped ↦ rw (new, dropped, enqueue) (omega (arith, h))
    | inr (kept, room, fits, tried) ↦
        let queued : QueuedEvent = record { event = event; attempts = 0 } in
        let queue = record q { pending = set queued kept } in
        let added = spends kept (left-make_room id event q.pending kept room) in
        elim (Bool-cases (leb flush_batch_size (length (set queued kept)))) [
          | inl flush ↦
              rw (new, room, flush, enqueue)
                (flush_now-Spent id (occurs id (event ∷ events)) queue
                  (set-All IsTried queued kept (omega arith) tried) added)
          | inr wait ↦ rw (new, room, wait, enqueue) added
        ]
  ]
]
  where
    spends :
        (kept : List QueuedEvent)
        → left id 0 kept ≤ left id 0 q.pending
        → Spent id
            (occurs id (event ∷ events))
            (record q { pending = set (record { event = event; attempts = 0 }) kept })
    spends kept less =
        ground (arith, less, h, left-set id (record { event = event; attempts = 0 }) kept)

answered-Spent :
    (delay : ℕ) (id : String) (n : ℕ) (answer : Option BatchResponse) (q : Queue)
    → Spent id n q
    → Spent id n (answered delay answer q)
unfolding answered schedule
answered-Spent delay id n answer q h =
    let more = left-retry_all delay id answer q.in_flight q.pending in
    elim (Bool-cases (is_empty (retry_all delay answer q.in_flight q.pending))) [
      | inl done ↦ rw (done, answered) (omega (arith, h, more))
      | inr again ↦ rw (again, answered) (omega (arith, h, more))
    ]

Reachable-Spent :
    (delay : ℕ) (id : String) (events : List ObservationEvent) (q : Queue)
    → Reachable delay events q
    → Spent id (occurs id events) q
unfolding timer_fires
Reachable-Spent delay id events q start = omega arith
Reachable-Spent delay id events q (enqueued event before r steps) =
    enqueue-Spent delay id before event r (Reachable-Bounded delay before r steps)
      (Reachable-Spent delay id before r steps)
Reachable-Spent delay id events q (fired d before r steps set) =
    flush_now-Spent id (occurs id events) (record r { timer = none })
      (Reachable-Bounded delay before r steps).tried (Reachable-Spent delay id before r steps)
Reachable-Spent delay id events q (received answer before r steps busy) =
    answered-Spent delay id (occurs id events) answer r (Reachable-Spent delay id before r steps)

-- In every queue that comes about, an event id was sent at most three times for each time it was
-- enqueued.
pub Reachable-sends :
    (delay : ℕ) (id : String) (events : List ObservationEvent) (q : Queue)
    → Reachable delay events q
    → sends id q.sent ≤ max_attempts * occurs id events
Reachable-sends delay id events q steps = omega (arith, Reachable-Spent delay id events q steps)

abbrev pub names : String → List String → Bool
names id ids = any (λ other. other == id) ids

-- The ids that an answer settles.
abbrev pub settled : BatchResponse → List String
settled result = map (λ (rejected, code). rejected) result.rejected ++ result.accepted_event_ids

-- What an answer asks for again, or does not mention; a failed request mentions nothing.
abbrev pub asked_again : Option BatchResponse → String → Bool
asked_again none id = true
asked_again (some result) id =
    if names id result.retryable_event_ids then true else not (names id (settled result))

-- An event of the id that was tried less than twice, and that the answer leaves open.
abbrev pub retried : Option BatchResponse → String → QueuedEvent → Bool
retried answer id q = id_of q == id && (asked_again answer (id_of q) && ltb q.attempts 2)

names-append :
    (id : String) (xs ys : List String) → names id (xs ++ ys) ≡ (names id xs || names id ys)
names-append id [] ys = refl
names-append id (x ∷ xs) ys = ground (arith, names-append id xs ys)

to_retry-asked_again :
    (delay : ℕ) (answer : Option BatchResponse) (id : String)
    → to_retry delay answer id ≡ asked_again answer id
unfolding to_retry
to_retry-asked_again delay none id = refl
to_retry-asked_again delay (some result) id = ground (
  arith,
  names-append id (map (λ (rejected, code). rejected) result.rejected) result.accepted_event_ids,
)

has-set :
    (id : String) (new : QueuedEvent) (qs : List QueuedEvent)
    → has id (set new qs) ≡ (id_of new == id || has id qs)
has-set id new [] = refl
has-set id new (q ∷ qs) = ground (
  arith,
  has-set id new qs,
  eq_iff (id_of q) (id_of new),
  eq_iff (id_of q) id,
  eq_iff (id_of new) id,
)

has-retry_all :
    (delay : ℕ) (id : String) (answer : Option BatchResponse) (batch pending : List QueuedEvent)
    → has id (retry_all delay answer batch pending)
      ≡ (any (retried answer id) batch || has id pending)
unfolding retry_all
has-retry_all delay id answer [] pending = refl
has-retry_all delay id answer (q ∷ batch) pending =
    let again : QueuedEvent = record q { attempts = q.attempts + 1 } in
    ground (
      arith,
      has-retry_all delay id answer batch pending,
      has-retry_all delay id answer batch (set again pending),
      has-set id again pending,
      to_retry-asked_again delay answer (id_of q),
    )

-- After an answer, the queue holds an event id exactly where it held it before, or where the batch had
-- an event of that id which the answer asks for again, or says nothing of, and which was tried less
-- than twice before; a failed request counts as one that says nothing.
pub answered-has :
    (delay : ℕ) (id : String) (answer : Option BatchResponse) (q : Queue)
    → has id (answered delay answer q).pending
      ≡ (any (retried answer id) q.in_flight || has id q.pending)
unfolding answered schedule
answered-has delay id answer q =
    elim (Bool-cases (is_empty (retry_all delay answer q.in_flight q.pending))) [
      | inl done ↦ rw (done, answered) (has-retry_all delay id answer q.in_flight q.pending)
      | inr again ↦ rw (again, answered) (has-retry_all delay id answer q.in_flight q.pending)
    ]
