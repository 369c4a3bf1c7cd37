-- ===== src/FeedWorker/Fanout/Turns.antt =====
-- However the workers of `fanout` in feed-worker/src/dynamo.ts take their turns, they come to an end.
use escld.Prelude.{
  ℕ, zero, suc, ◌+◌, ◌*◌, ◌≤◌, min, ◌≡◌, refl, ◌⊎◌, inl, inr, List, [], ◌∷◌, arith, length, All,
}
use escld.FeedWorker.Dynamo.{Dynamo, FeedItem, max_writes, fanout_concurrency}
use escld.FeedWorker.Fanout.{
  Worker, created, writing, finished, failed, Fanout, replicate, turn, run, start_fanout,
}
use escld.FeedWorker.Fanout.Budget.{sum_left, budget, IsFair, LiveAt, turn-budget}

-- The worker has returned or thrown.
abbrev pub IsDone : Worker → Type 0
IsDone finished = Unit
IsDone failed = Unit
IsDone _ = ⊥

some_live : (workers : List Worker) → ((i : ℕ) × LiveAt i workers) ⊎ All IsDone workers
some_live [] = inr tt
some_live (created ∷ workers) = inl (0, tt)
some_live (writing batch attempt ∷ workers) = inl (0, tt)
some_live (finished ∷ workers) = elim (some_live workers) [
  | inl (i, live) ↦ inl (suc i, live)
  | inr done ↦ inr (tt, done)
]
some_live (failed ∷ workers) = elim (some_live workers) [
  | inl (i, live) ↦ inl (suc i, live)
  | inr done ↦ inr (tt, done)
]

module _ {W : Type 0} (dynamo : Dynamo W) where
  abbrev after : ℕ → Fanout W → Fanout W
  after i state = turn dynamo i state.workers state.rest state.world

  -- Every turn is one of a worker that is not done.
  abbrev pub AllLive : List ℕ → Fanout W → Type 0
  AllLive [] state = Unit
  AllLive (i ∷ schedule) state = LiveAt i state.workers × AllLive schedule (after i state)

  run-budget :
      (schedule : List ℕ) (state : Fanout W)
      → All IsFair state.workers
      → AllLive schedule state
      → (length schedule + budget (run dynamo schedule state) ≤ budget state)
        × All IsFair (run dynamo schedule state).workers
  unfolding run
  run-budget [] state fair live = (omega arith, fair)
  run-budget (i ∷ schedule) state fair (now, live) =
      let (less, fair') = turn-budget dynamo i state.workers state.rest state.world fair now in
      let (within, fair'') = run-budget schedule (after i state) fair' live in
      (omega (arith, less, within), fair'')

  to_end :
      (fuel : ℕ) (state : Fanout W)
      → budget state ≤ fuel
      → All IsFair state.workers
      → (schedule : List ℕ) × AllLive schedule state
        × All IsDone (run dynamo schedule state).workers
  unfolding run
  to_end zero state within fair = elim (some_live state.workers) [
    | inr done ↦ ([], tt, done)
    | inl (i, live) ↦ absurd (
        omega
          (arith, (turn-budget dynamo i state.workers state.rest state.world fair live).0, within))
  ]
  to_end (suc fuel) state within fair = elim (some_live state.workers) [
    | inr done ↦ ([], tt, done)
    | inl (i, live) ↦
        let (less, fair') = turn-budget dynamo i state.workers state.rest state.world fair live in
        let (schedule, all_live, done) =
          to_end fuel (after i state) (omega (arith, less, within)) fair' in
        (i ∷ schedule, (live, all_live), done)
  ]

  pub replicate-IsFair : (n : ℕ) → All IsFair (replicate n created)
  replicate-IsFair zero = tt
  replicate-IsFair (suc n) = (tt, replicate-IsFair n)

  sum_left-replicate : (n : ℕ) → sum_left (replicate n created) ≡ n
  sum_left-replicate zero = refl
  sum_left-replicate (suc n) = omega (arith, sum_left-replicate n)

  -- However the workers have taken turns, each one of a worker that was not done, there were at most
  -- six for each batch and one for each worker, whatever the answers were; and further such turns
  -- bring all workers to their end.
  pub run-ends :
      (batches : List (List FeedItem)) (w : W) (schedule : List ℕ)
      → AllLive schedule (start_fanout dynamo batches w)
      → (length schedule
          ≤ (max_writes + 1) * length batches + min fanout_concurrency (length batches))
        × ((more : List ℕ) × AllLive more (run dynamo schedule (start_fanout dynamo batches w))
            × All IsDone
                (run dynamo more (run dynamo schedule (start_fanout dynamo batches w))).workers)
  unfolding start_fanout
  run-ends batches w schedule live =
      let start = start_fanout dynamo batches w in
      let (within, fair) =
        run-budget schedule start (replicate-IsFair (min fanout_concurrency (length batches)))
          live in
      (
        omega (arith, within, sum_left-replicate (min fanout_concurrency (length batches))),
        to_end (budget (run dynamo schedule start)) (run dynamo schedule start) (omega arith) fair,
      )
