-- ===== src/Frontend/Observations/Bounds/Lists.antt =====
-- How the operations on the queue of observations change its lists.
use escld.Prelude.{
  ℕ, zero, suc, ◌+◌, ◌≤◌, String, ◌≡◌, refl, ap, ◌∙◌, inl, inr, Option, some, List, [], ◌∷◌, arith,
  ◌==◌, eq_refl, Bool-cases, length, take, drop, All,
}
use escld.Frontend.Observations.{
  QueuedEvent, id_of, BatchResponse, delete, set, oldest_continuous, delete_all, retry_all,
}

delete-head : (q : QueuedEvent) (qs : List QueuedEvent) → delete (id_of q) (q ∷ qs) ≡ qs
delete-head q qs = rw (eq_refl q.event.event_id) refl

-- Deleting a batch from the queue that it was taken from leaves the rest.
pub delete_all-take : (n : ℕ) (qs : List QueuedEvent) → delete_all (take n qs) qs ≡ drop n qs
delete_all-take zero qs = refl
delete_all-take (suc n) [] = refl
delete_all-take (suc n) (q ∷ qs) =
    ap (delete_all (take n qs)) (delete-head q qs) ∙ delete_all-take n qs

pub length-set : (new : QueuedEvent) (qs : List QueuedEvent) → length (set new qs) ≤ length qs + 1
length-set new [] = omega arith
length-set new (q ∷ qs) = ground (arith, length-set new qs)

pub length-delete :
    (qs : List QueuedEvent) (q : QueuedEvent)
    → oldest_continuous qs ≡ some q
    → length (delete (id_of q) qs) + 1 ≡ length qs
length-delete [] q h = ground arith
length-delete (x ∷ qs) q h = ground (arith, eq_refl x.event.event_id, length-delete qs q)

module _ (P : QueuedEvent → Type 0) where
  pub set-All : (new : QueuedEvent) (qs : List QueuedEvent) → P new → All P qs → All P (set new qs)
  set-All new [] n h = (n, tt)
  set-All new (q ∷ qs) n (p, h) = elim (Bool-cases (id_of q == id_of new)) [
    | inl same ↦ rw (same, set) (n, h)
    | inr other ↦ rw (other, set) (p, set-All new qs n h)
  ]

  pub delete-All : (id : String) (qs : List QueuedEvent) → All P qs → All P (delete id qs)
  delete-All id [] h = tt
  delete-All id (q ∷ qs) (p, h) = elim (Bool-cases (id_of q == id)) [
    | inl same ↦ rw (same, delete) h
    | inr other ↦ rw (other, delete) (p, delete-All id qs h)
  ]

  pub take-All : (n : ℕ) (qs : List QueuedEvent) → All P qs → All P (take n qs)
  take-All zero qs h = tt
  take-All (suc n) [] h = tt
  take-All (suc n) (q ∷ qs) (p, h) = (p, take-All n qs h)

  pub drop-All : (n : ℕ) (qs : List QueuedEvent) → All P qs → All P (drop n qs)
  drop-All zero qs h = h
  drop-All (suc n) [] h = tt
  drop-All (suc n) (q ∷ qs) (p, h) = drop-All n qs h

pub length-retry_all :
    (delay : ℕ) (answer : Option BatchResponse) (batch pending : List QueuedEvent)
    → length (retry_all delay answer batch pending) ≤ length pending + length batch
unfolding retry_all
length-retry_all delay answer [] pending = omega arith
length-retry_all delay answer (q ∷ batch) pending = ground (
  arith,
  length-set (record q { attempts = q.attempts + 1 }) pending,
  length-retry_all delay answer batch pending,
  length-retry_all delay answer batch (set (record q { attempts = q.attempts + 1 }) pending),
)
