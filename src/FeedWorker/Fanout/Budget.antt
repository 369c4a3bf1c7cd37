-- ===== src/FeedWorker/Fanout/Budget.antt =====
-- The turns of the workers of `fanout` come to an end.
use escld.Prelude.{
  ℕ, zero, suc, ◌+◌, ◌-◌, ◌*◌, ◌≤◌, ◌<◌, inl, inr, Option, List, [], ◌∷◌, arith, leb, Bool-cases,
  length, All, Result, ok, err,
}
use escld.FeedWorker.Dynamo.{Dynamo, FeedItem, max_writes}
use escld.FeedWorker.Fanout.{
  Worker, created, writing, finished, failed, Fanout, take_next, no_items, settle_write, resume,
  turn,
}

-- The sends that may still happen, and the turns besides.
abbrev pub turns_left : Worker → ℕ
turns_left created = 1
turns_left (writing batch attempt) = max_writes + 1 - attempt
turns_left finished = 0
turns_left failed = 0

abbrev pub sum_left : List Worker → ℕ
sum_left [] = 0
sum_left (worker ∷ workers) = turns_left worker + sum_left workers

abbrev pub budget : {W : Type 0} → Fanout W → ℕ
budget state = (max_writes + 1) * length state.rest + sum_left state.workers

settle_write-budget :
    (attempt : ℕ) (rest : List (List FeedItem)) (answer : Result (Option (List FeedItem)))
    → attempt ≤ max_writes
    → (max_writes + 1) * length (settle_write attempt rest answer).1
        + turns_left (settle_write attempt rest answer).0
      < (max_writes + 1) * length rest + (max_writes + 1 - attempt)
unfolding settle_write
settle_write-budget attempt rest err h = omega (arith, h)
settle_write-budget attempt rest (ok unprocessed) h = elim (Bool-cases (no_items unprocessed)) [
  | inl all_done ↦ rw all_done (next rest)
  | inr some_left ↦ elim (Bool-cases (leb max_writes attempt)) [
    | inl over ↦ rw (some_left, over) (omega (arith, h))
    | inr again ↦ rw (some_left, again) (ground arith)
  ]
]
  where
    next :
        (rest : List (List FeedItem))
        → (max_writes + 1) * length (take_next rest).1 + turns_left (take_next rest).0
          < (max_writes + 1) * length rest + (max_writes + 1 - attempt)
    next [] = omega (arith, h)
    next (batch ∷ rest) = omega (arith, h)

-- The worker has a turn to take.
abbrev pub IsLive : Worker → Type 0
IsLive created = Unit
IsLive (writing batch attempt) = Unit
IsLive finished = ⊥
IsLive failed = ⊥

-- No batch is tried more than five times.
abbrev pub IsFair : Worker → Type 0
IsFair (writing batch attempt) = attempt ≤ max_writes
IsFair _ = Unit

abbrev pub LiveAt : ℕ → List Worker → Type 0
LiveAt i [] = ⊥
LiveAt zero (worker ∷ workers) = IsLive worker
LiveAt (suc i) (worker ∷ workers) = LiveAt i workers

take_next-budget :
    (rest : List (List FeedItem))
    → (max_writes + 1) * length (take_next rest).1 + turns_left (take_next rest).0
      < (max_writes + 1) * length rest + 1
take_next-budget [] = omega arith
take_next-budget (batch ∷ rest) = omega arith

take_next-IsFair : (rest : List (List FeedItem)) → IsFair (take_next rest).0
take_next-IsFair [] = tt
take_next-IsFair (batch ∷ rest) = omega arith

settle_write-IsFair :
    (attempt : ℕ) (rest : List (List FeedItem)) (answer : Result (Option (List FeedItem)))
    → IsFair (settle_write attempt rest answer).0
unfolding settle_write
settle_write-IsFair attempt rest err = tt
settle_write-IsFair attempt rest (ok unprocessed) = elim (Bool-cases (no_items unprocessed)) [
  | inl all_done ↦ rw all_done (take_next-IsFair rest)
  | inr some_left ↦ elim (Bool-cases (leb max_writes attempt)) [
    | inl over ↦ rw (some_left, over) tt
    | inr again ↦ rw (some_left, again) (ground arith)
  ]
]

module _ {W : Type 0} (dynamo : Dynamo W) where
  resume-budget :
      (worker : Worker) (rest : List (List FeedItem)) (w : W)
      → IsLive worker
      → IsFair worker
      → (max_writes + 1) * length (resume dynamo worker rest w).1
          + turns_left (resume dynamo worker rest w).0
        < (max_writes + 1) * length rest + turns_left worker
  unfolding resume
  resume-budget created rest w h k = take_next-budget rest
  resume-budget (writing batch attempt) rest w h k =
      settle_write-budget attempt rest (dynamo.batch_write batch w).0 k
  resume-budget finished rest w h k = elim h [ ]
  resume-budget failed rest w h k = elim h [ ]

  resume-IsFair :
      (worker : Worker) (rest : List (List FeedItem)) (w : W)
      → IsFair worker
      → IsFair (resume dynamo worker rest w).0
  unfolding resume
  resume-IsFair created rest w h = take_next-IsFair rest
  resume-IsFair (writing batch attempt) rest w h =
      settle_write-IsFair attempt rest (dynamo.batch_write batch w).0
  resume-IsFair finished rest w h = tt
  resume-IsFair failed rest w h = tt

  pub turn-IsFair :
      (i : ℕ) (workers : List Worker) (rest : List (List FeedItem)) (w : W)
      → All IsFair workers
      → All IsFair (turn dynamo i workers rest w).workers
  unfolding turn
  turn-IsFair i [] rest w fair = tt
  turn-IsFair zero (worker ∷ workers) rest w (k, ks) = (resume-IsFair worker rest w k, ks)
  turn-IsFair (suc i) (worker ∷ workers) rest w (k, ks) = (k, turn-IsFair i workers rest w ks)

  -- While no worker has tried a batch more than five times, as at the start, a turn of a worker that is
  -- not done lowers a measure, and no worker has after it either: the measure is at first six for each
  -- batch and one for each worker, whatever the answers are.
  pub turn-budget :
      (i : ℕ) (workers : List Worker) (rest : List (List FeedItem)) (w : W)
      → All IsFair workers
      → LiveAt i workers
      → (budget (turn dynamo i workers rest w)
          < budget {W = W} (record { rest = rest; workers = workers; world = w }))
        × All IsFair (turn dynamo i workers rest w).workers
  unfolding turn
  turn-budget i [] rest w k h = elim h [ ]
  turn-budget zero (worker ∷ workers) rest w (k, ks) h =
      (omega (arith, resume-budget worker rest w h k), (resume-IsFair worker rest w k, ks))
  turn-budget (suc i) (worker ∷ workers) rest w (k, ks) h =
      let (less, fair) = turn-budget i workers rest w ks h in (omega (arith, less), (k, fair))
