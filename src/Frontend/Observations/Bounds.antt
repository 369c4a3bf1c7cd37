-- ===== src/Frontend/Observations/Bounds.antt =====
-- The bounds that `ObservationQueue` keeps, and that it never stops with events and no timer.
pub mod Lists
use escld.Prelude.{
  ℕ, ◌+◌, ◌-◌, ◌*◌, ◌^◌, ◌≤◌, ◌<◌, min, max, ◌≡◌, refl, ◌⊎◌, inl, inr, Bool, true, false, ◌||◌,
  Option, none, some, List, [], ◌∷◌, arith, ltb, leb, if◌then◌else◌, ltb→lt, Bool-cases,
  Option-cases, length, drop, All, length-take, length-drop,
}
use escld.Frontend.Observations.{
  flush_batch_size, max_queue_size, max_attempts, ObservationEvent, QueuedEvent, id_of,
  BatchResponse, Queue, has, delete, set, is_continuous, oldest_continuous, make_room, is_empty,
  schedule, flush_now, timer_fires, enqueue, retry, to_retry, retry_all, highest_attempt, answered,
  Reachable, start, enqueued, fired, received,
}
pub use escld.Frontend.Observations.Bounds.Lists.{delete_all-take, set-All, take-All}
use escld.Frontend.Observations.Bounds.Lists.{
  length-set, length-delete, delete-All, drop-All, length-retry_all,
}

abbrev pub IsTried : QueuedEvent → Type 0
IsTried queued = queued.attempts < max_attempts

-- At most 220 events are held, at most 20 of them by the request that is under way, and only while
-- it is; none was tried three times.
pub record Bounded (q : Queue) : Type 0 where
  pub held : length q.pending + length q.in_flight ≤ max_queue_size + flush_batch_size
  pub batch : length q.in_flight ≤ flush_batch_size
  pub idle : q.flushing ≡ false → q.in_flight ≡ []
  pub tried : All IsTried q.pending
  pub trying : All IsTried q.in_flight

-- What making room leaves has room for one more.
pub make_room-fits :
    (event : ObservationEvent) (pending : List QueuedEvent)
    → All IsTried pending
    → (make_room event pending ≡ none)
      ⊎ ((kept : List QueuedEvent) × (make_room event pending ≡ some kept)
          × (length kept + 1 ≤ max max_queue_size (length pending))
          × All IsTried kept)
unfolding make_room
make_room-fits event pending tried = elim (Bool-cases (ltb (length pending) max_queue_size)) [
  | inl room ↦ inr (pending, rw room refl, ground arith, tried)
  | inr full ↦ elim (Option-cases (oldest_continuous pending)) [
    | inr (q, found) ↦ inr (
      delete (id_of q) pending,
      rw (full, found) refl,
      omega (arith, length-delete pending q found),
      delete-All IsTried (id_of q) pending tried,
    )
    | inl no_one ↦ elim (Bool-cases (is_continuous event.kind)) [
      | inl drops ↦ inl (rw (full, no_one, drops) refl)
      | inr stays ↦ inr (
        drop 1 pending,
        rw (full, no_one, stays) refl,
        ground (arith, length-drop 1 pending),
        drop-All IsTried 1 pending tried,
      )
    ]
  ]
]

flush_now-Bounded : (q : Queue) → Bounded q → Bounded (flush_now q)
unfolding flush_now
flush_now-Bounded q b = elim (Bool-cases (q.flushing || is_empty q.pending)) [
  | inl stays ↦ rw (stays, flush_now) b
  | inr goes ↦
      rw (goes, flush_now, delete_all-take flush_batch_size q.pending)
        record {
          held = omega (arith, length-take 20 q.pending, length-drop 20 q.pending, b.held);
          batch = omega (arith, length-take 20 q.pending);
          idle = λ h. ground arith;
          tried = drop-All IsTried 20 q.pending b.tried;
          trying = take-All IsTried 20 q.pending b.tried;
        }
]

schedule-Bounded : (delay : ℕ) (q : Queue) → Bounded q → Bounded (schedule delay q)
unfolding schedule
schedule-Bounded delay q b = record {
  held = b.held;
  batch = b.batch;
  idle = b.idle;
  tried = b.tried;
  trying = b.trying;
}

enqueue-Bounded :
    (delay : ℕ) (event : ObservationEvent) (q : Queue) → Bounded q → Bounded (enqueue delay event q)
unfolding enqueue
enqueue-Bounded delay event q b = elim (Bool-cases (has event.event_id q.pending)) [
  | inl old ↦ rw (old, enqueue) b
  | inr new ↦ elim (make_room-fits event q.pending b.tried) [
    | inl dropped ↦ rw (new, dropped, enqueue) b
    | inr (kept, room, fits, tried) ↦
        let pending = set (record { event = event; attempts = 0 }) kept in
        let added = bounded kept fits tried in
        elim (Bool-cases (leb flush_batch_size (length pending))) [
          | inl flush ↦
              rw (new, room, flush, enqueue)
                (flush_now-Bounded (record q { pending = pending }) added)
          | inr wait ↦
              rw (new, room, wait, enqueue)
                (schedule-Bounded delay (record q { pending = pending }) added)
        ]
  ]
]
  where
    bounded :
        (kept : List QueuedEvent)
        → length kept + 1 ≤ max max_queue_size (length q.pending)
        → All IsTried kept
        → Bounded (record q { pending = set (record { event = event; attempts = 0 }) kept })
    bounded kept fits tried = record {
      held =
          omega (
            arith,
            length-set (record { event = event; attempts = 0 }) kept,
            fits,
            b.held,
            b.batch,
          );
      batch = b.batch;
      idle = b.idle;
      tried = set-All IsTried (record { event = event; attempts = 0 }) kept (omega arith) tried;
      trying = b.trying;
    }

retry_all-IsTried :
    (delay : ℕ) (answer : Option BatchResponse) (batch pending : List QueuedEvent)
    → All IsTried pending
    → All IsTried (retry_all delay answer batch pending)
unfolding retry_all
retry_all-IsTried delay answer [] pending h = h
retry_all-IsTried delay answer (q ∷ batch) pending h =
    retry_all-IsTried delay answer batch
      (if to_retry delay answer (id_of q) then retry delay q pending else pending)
      (again (to_retry delay answer (id_of q)))
  where
    again : (b : Bool) → All IsTried (if b then retry delay q pending else pending)
    again false = h
    again true = elim (Bool-cases (ltb (q.attempts + 1) max_attempts)) [
      | inl more ↦
          rw (more, retry)
            (set-All IsTried (record q { attempts = q.attempts + 1 }) pending (ltb→lt _ _ more) h)
      | inr over ↦ rw (over, retry) h
    ]

answered-Bounded :
    (delay : ℕ) (answer : Option BatchResponse) (q : Queue)
    → Bounded q
    → Bounded (answered delay answer q)
unfolding answered
answered-Bounded delay answer q b = elim (Bool-cases (is_empty pending)) [
  | inl done ↦ rw (done, answered) queue
  | inr more ↦
      rw (more, answered)
        (schedule-Bounded (delay * 2 ^ min (highest_attempt delay pending) (max_attempts - 1))
          (record q { pending = pending; flushing = false; in_flight = [] }) queue)
]
  where
    pending : List QueuedEvent
    pending = retry_all delay answer q.in_flight q.pending

    queue : Bounded (record q {
      pending = retry_all delay answer q.in_flight q.pending;
      flushing = false;
      in_flight = [];
    })
    queue = record {
      held = omega (arith, length-retry_all delay answer q.in_flight q.pending, b.held);
      batch = omega arith;
      idle = λ h. refl;
      tried = retry_all-IsTried delay answer q.in_flight q.pending b.tried;
      trying = tt;
    }

-- In every queue that comes about, the pending events and those of the request that is under way are
-- at most 220; a request has at most 20 events, and none is held while no request is under way; every
-- event that is held was tried at most twice before.
pub Reachable-Bounded :
    (delay : ℕ) (events : List ObservationEvent) (q : Queue) → Reachable delay events q → Bounded q
unfolding timer_fires
Reachable-Bounded delay events q start = record {
  held = omega arith;
  batch = omega arith;
  idle = λ h. refl;
  tried = tt;
  trying = tt;
}
Reachable-Bounded delay events q (enqueued event before r steps) =
    enqueue-Bounded delay event r (Reachable-Bounded delay before r steps)
Reachable-Bounded delay events q (fired d before r steps set) =
    let b = Reachable-Bounded delay before r steps in
    flush_now-Bounded (record r { timer = none })
      (record { held = b.held; batch = b.batch; idle = b.idle; tried = b.tried; trying = b.trying })
Reachable-Bounded delay events q (received answer before r steps busy) =
    answered-Bounded delay answer r (Reachable-Bounded delay before r steps)
