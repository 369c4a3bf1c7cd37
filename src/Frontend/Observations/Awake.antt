-- ===== src/Frontend/Observations/Awake.antt =====
-- `ObservationQueue` never stops: where events wait, a request is under way or a timer is set.
use escld.Prelude.{
  ℕ, ◌*◌, ◌^◌, min, ◌≡◌, refl, ◌≢◌, ◌⊎◌, inl, inr, Bool, true, false, ◌||◌, Option, none, some,
  List, [], ◌∷◌, arith, leb, Bool-cases, Option-cases, length,
}
use escld.Frontend.Observations.{
  flush_batch_size, ObservationEvent, QueuedEvent, BatchResponse, Queue, set, has, make_room,
  is_empty, or_set, schedule, flush_now, timer_fires, enqueue, retry_all, highest_attempt, answered,
  Reachable, start, enqueued, fired, received,
}

abbrev pub IsAwake : Queue → Type 0
IsAwake q = (q.pending ≡ []) ⊎ ((q.flushing ≡ true) ⊎ (q.timer ≢ none))

schedule-IsAwake : (delay : ℕ) (q : Queue) → IsAwake (schedule delay q)
unfolding schedule
schedule-IsAwake delay q = inr (inr (is_set q.timer))
  where
    is_set : (t : Option ℕ) → or_set t delay ≢ none
    is_set none = ground arith
    is_set (some d) = ground arith

flush_now-IsAwake : (q : Queue) → IsAwake (flush_now q)
unfolding flush_now
flush_now-IsAwake q = elim (Bool-cases (q.flushing || is_empty q.pending)) [
  | inr goes ↦ rw (goes, flush_now) (inr (inl refl))
  | inl stays ↦ rw (stays, flush_now) (waits q.flushing q.pending stays)
]
  where
    waits :
        (b : Bool) (pending : List QueuedEvent)
        → (b || is_empty pending) ≡ true
        → (pending ≡ []) ⊎ ((b ≡ true) ⊎ (q.timer ≢ none))
    waits true pending h = inr (inl refl)
    waits false [] h = inl refl
    waits false (x ∷ pending) h = ground arith

enqueue-IsAwake :
    (delay : ℕ) (event : ObservationEvent) (q : Queue) → IsAwake q → IsAwake (enqueue delay event q)
unfolding enqueue
enqueue-IsAwake delay event q awake = elim (Bool-cases (has event.event_id q.pending)) [
  | inl old ↦ rw (old, enqueue) awake
  | inr new ↦ elim (Option-cases (make_room event q.pending)) [
    | inl dropped ↦ rw (new, dropped, enqueue) awake
    | inr (kept, room) ↦
        let pending = set (record { event = event; attempts = 0 }) kept in
        elim (Bool-cases (leb flush_batch_size (length pending))) [
          | inl flush ↦
              rw (new, room, flush, enqueue) (flush_now-IsAwake (record q { pending = pending }))
          | inr wait ↦
              rw (new, room, wait, enqueue)
                (schedule-IsAwake delay (record q { pending = pending }))
        ]
  ]
]

answered-IsAwake :
    (delay : ℕ) (answer : Option BatchResponse) (q : Queue) → IsAwake (answered delay answer q)
unfolding answered
answered-IsAwake delay answer q =
    let pending = retry_all delay answer q.in_flight q.pending in
    elim (Bool-cases (is_empty pending)) [
      | inl done ↦ rw (done, answered) (inl (nothing pending done))
      | inr more ↦
          rw (more, answered)
            (schedule-IsAwake (delay * 2 ^ min (highest_attempt delay pending) 2)
              (record q { pending = pending; flushing = false; in_flight = [] }))
    ]
  where
    nothing : (qs : List QueuedEvent) → is_empty qs ≡ true → qs ≡ []
    nothing [] h = refl
    nothing (x ∷ qs) h = ground arith

-- In every queue that comes about, nothing is pending, or a request is under way, or a timer is set
-- that will start one.
pub Reachable-IsAwake :
    (delay : ℕ) (events : List ObservationEvent) (q : Queue) → Reachable delay events q → IsAwake q
unfolding timer_fires
Reachable-IsAwake delay events q start = inl refl
Reachable-IsAwake delay events q (enqueued event before r steps) =
    enqueue-IsAwake delay event r (Reachable-IsAwake delay before r steps)
Reachable-IsAwake delay events q (fired d before r steps set) =
    flush_now-IsAwake (record r { timer = none })
Reachable-IsAwake delay events q (received answer before r steps busy) =
    answered-IsAwake delay answer r
