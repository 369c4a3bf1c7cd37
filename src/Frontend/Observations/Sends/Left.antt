-- ===== src/Frontend/Observations/Sends/Left.antt =====
-- How often the observations of an id that stand in the queue may still be sent.
use escld.Prelude.{
  ℕ, zero, suc, ◌+◌, ◌-◌, ◌≤◌, String, ◌≡◌, inl, inr, Option, some, List, [], ◌∷◌, ◌++◌, map, arith,
  ◌==◌, if◌then◌else◌, Option-cases, take, drop, All,
}
use escld.Frontend.Observations.{
  max_attempts, ObservationEvent, QueuedEvent, id_of, BatchResponse, set, delete, oldest_continuous,
  make_room, retry_all,
}
use escld.Frontend.Observations.Bounds.{IsTried}

-- How often an event id occurs among events, in the batches that were sent, and in a queue with the
-- attempts that its occurrences have left, less those in `used`.
abbrev pub occurs : String → List ObservationEvent → ℕ
occurs id [] = 0
occurs id (e ∷ es) = (if e.event_id == id then 1 else 0) + occurs id es

abbrev pub sends : String → List (List ObservationEvent) → ℕ
sends id [] = 0
sends id (batch ∷ batches) = occurs id batch + sends id batches

abbrev pub left : String → ℕ → List QueuedEvent → ℕ
left id used [] = 0
left id used (q ∷ qs) =
    (if id_of q == id then max_attempts - used - q.attempts else 0) + left id used qs

pub sends-append :
    (id : String) (xs ys : List (List ObservationEvent))
    → sends id (xs ++ ys) ≡ sends id xs + sends id ys
sends-append id [] ys = omega arith
sends-append id (x ∷ xs) ys = omega (arith, sends-append id xs ys)

pub left-set :
    (id : String) (new : QueuedEvent) (qs : List QueuedEvent)
    → left id 0 (set new qs) ≤ left id 0 (new ∷ []) + left id 0 qs
left-set id new [] = omega arith
left-set id new (q ∷ qs) = ground (arith, left-set id new qs)

left-delete :
    (id other : String) (qs : List QueuedEvent) → left id 0 (delete other qs) ≤ left id 0 qs
left-delete id other [] = omega arith
left-delete id other (q ∷ qs) = ground (arith, left-delete id other qs)

pub left-split :
    (id : String) (n : ℕ) (qs : List QueuedEvent)
    → left id 0 (take n qs) + left id 0 (drop n qs) ≡ left id 0 qs
left-split id zero qs = omega arith
left-split id (suc n) [] = omega arith
left-split id (suc n) (q ∷ qs) = omega (arith, left-split id n qs)

-- Sending a batch uses one attempt of each of its events.
pub left-send :
    (id : String) (qs : List QueuedEvent)
    → All IsTried qs
    → occurs id (map (λ queued. queued.event) qs) + left id 1 qs ≡ left id 0 qs
left-send id [] h = omega arith
left-send id (q ∷ qs) (t, h) = ground (arith, left-send id qs h)

pub left-make_room :
    (id : String) (event : ObservationEvent) (pending kept : List QueuedEvent)
    → make_room event pending ≡ some kept
    → left id 0 kept ≤ left id 0 pending
unfolding make_room
left-make_room id event pending kept h = elim (Option-cases (oldest_continuous pending)) [
  | inl no_one ↦ ground (arith, no_one, left-split id 1 pending)
  | inr (q, found) ↦ ground (arith, found, left-delete id (id_of q) pending)
]

pub left-retry_all :
    (delay : ℕ) (id : String) (answer : Option BatchResponse) (batch pending : List QueuedEvent)
    → left id 0 (retry_all delay answer batch pending) ≤ left id 0 pending + left id 1 batch
unfolding retry_all
left-retry_all delay id answer [] pending = omega arith
left-retry_all delay id answer (q ∷ batch) pending = ground (
  arith,
  left-set id (record q { attempts = q.attempts + 1 }) pending,
  left-retry_all delay id answer batch pending,
  left-retry_all delay id answer batch (set (record q { attempts = q.attempts + 1 }) pending),
)
