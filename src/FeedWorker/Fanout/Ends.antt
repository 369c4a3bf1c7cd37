-- ===== src/FeedWorker/Fanout/Ends.antt =====
-- `fanout` leaves no batch untaken while its workers are done, and so has written every item.
use escld.Prelude.{
  ℕ, zero, suc, ◌<◌, min, String, ◌≡◌, refl, sym, ap, subst, ◌⊎◌, inl, inr, Option, List, [], ◌∷◌,
  ◌++◌, map, arith, leb, Bool-cases, length, All, concat, Result, ok, err,
}
use escld.FeedWorker.Dynamo.{
  Dynamo, FeedItem, fanout_concurrency, max_writes, write_batches, feed_item,
}
use escld.FeedWorker.Fanout.{
  Worker, created, writing, finished, failed, Fanout, take_next, no_items, settle_write, replicate,
  resume, turn, run, start_fanout,
}
use escld.FeedWorker.Fanout.Coverage.{write_batches-cover}
use escld.FeedWorker.Fanout.Stored.{Any, BatchLaws, InBatches, Holds, run-IsAccounted}

abbrev pub IsFinished : Worker → Type 0
IsFinished finished = Unit
IsFinished _ = ⊥

abbrev pub IsOpen : Worker → Type 0
IsOpen finished = ⊥
IsOpen _ = Unit

-- No batch is left, or a worker is not finished.
abbrev pub IsManned : {W : Type 0} → Fanout W → Type 0
IsManned state = (state.rest ≡ []) ⊎ Any IsOpen state.workers

take_next-IsOpen :
    (rest : List (List FeedItem)) → ((take_next rest).1 ≡ []) ⊎ IsOpen (take_next rest).0
take_next-IsOpen [] = inl refl
take_next-IsOpen (batch ∷ rest) = inr tt

settle_write-IsOpen :
    (attempt : ℕ) (rest : List (List FeedItem)) (answer : Result (Option (List FeedItem)))
    → ((settle_write attempt rest answer).1 ≡ []) ⊎ IsOpen (settle_write attempt rest answer).0
unfolding settle_write
settle_write-IsOpen attempt rest err = inr tt
settle_write-IsOpen attempt rest (ok unprocessed) = elim (Bool-cases (no_items unprocessed)) [
  | inl all_done ↦ rw all_done (take_next-IsOpen rest)
  | inr some_left ↦ elim (Bool-cases (leb max_writes attempt)) [
    | inl over ↦ rw (some_left, over) (inr tt)
    | inr again ↦ rw (some_left, again) (inr tt)
  ]
]

settle_write-nil :
    (attempt : ℕ) (answer : Result (Option (List FeedItem)))
    → (settle_write attempt [] answer).1 ≡ []
unfolding settle_write
settle_write-nil attempt err = refl
settle_write-nil attempt (ok unprocessed) = elim (Bool-cases (no_items unprocessed)) [
  | inl all_done ↦ rw all_done refl
  | inr some_left ↦ elim (Bool-cases (leb max_writes attempt)) [
    | inl over ↦ rw (some_left, over) refl
    | inr again ↦ rw (some_left, again) refl
  ]
]

module _ {W : Type 0} (dynamo : Dynamo W) where
  resume-IsOpen :
      (worker : Worker) (rest : List (List FeedItem)) (w : W)
      → IsOpen worker
      → ((resume dynamo worker rest w).1 ≡ []) ⊎ IsOpen (resume dynamo worker rest w).0
  unfolding resume
  resume-IsOpen created rest w h = take_next-IsOpen rest
  resume-IsOpen (writing batch attempt) rest w h =
      settle_write-IsOpen attempt rest (dynamo.batch_write batch w).0
  resume-IsOpen finished rest w h = inr h
  resume-IsOpen failed rest w h = inr h

  turn-nil : (i : ℕ) (workers : List Worker) (w : W) → (turn dynamo i workers [] w).rest ≡ []
  unfolding turn resume
  turn-nil i [] w = refl
  turn-nil zero (created ∷ workers) w = refl
  turn-nil zero (writing batch attempt ∷ workers) w =
      settle_write-nil attempt (dynamo.batch_write batch w).0
  turn-nil zero (finished ∷ workers) w = refl
  turn-nil zero (failed ∷ workers) w = refl
  turn-nil (suc i) (worker ∷ workers) w = turn-nil i workers w

  turn-IsManned :
      (i : ℕ) (workers : List Worker) (rest : List (List FeedItem)) (w : W)
      → IsManned (record { rest = rest; workers = workers; world = w })
      → IsManned (turn dynamo i workers rest w)
  unfolding turn
  turn-IsManned i workers rest w (inl nothing) = inl (
      subst (λ batches. (turn dynamo i workers batches w).rest ≡ []) (sym nothing)
        (turn-nil i workers w))
  turn-IsManned i [] rest w (inr h) = inr h
  turn-IsManned zero (worker ∷ workers) rest w (inr (inl here)) =
      elim (resume-IsOpen worker rest w here) [
        | inl nothing ↦ inl nothing
        | inr busy ↦ inr (inl busy)
      ]
  turn-IsManned zero (worker ∷ workers) rest w (inr (inr others)) = inr (inr others)
  turn-IsManned (suc i) (worker ∷ workers) rest w (inr (inl here)) = inr (inl here)
  turn-IsManned (suc i) (worker ∷ workers) rest w (inr (inr others)) =
      elim (turn-IsManned i workers rest w (inr others)) [
        | inl nothing ↦ inl nothing
        | inr busy ↦ inr (inr busy)
      ]

  run-IsManned :
      (schedule : List ℕ) (state : Fanout W) → IsManned state → IsManned (run dynamo schedule state)
  unfolding run
  run-IsManned [] state h = h
  run-IsManned (i ∷ schedule) state h =
      run-IsManned schedule (turn dynamo i state.workers state.rest state.world)
        (turn-IsManned i state.workers state.rest state.world h)

finished-closed : (workers : List Worker) → All IsFinished workers → Any IsOpen workers → ⊥
finished-closed [] h k = k
finished-closed (finished ∷ workers) (f, h) (inl k) = k
finished-closed (finished ∷ workers) (f, h) (inr k) = finished-closed workers h k
finished-closed (created ∷ workers) (f, h) k = f
finished-closed (writing batch attempt ∷ workers) (f, h) k = f
finished-closed (failed ∷ workers) (f, h) k = f

finished-empty :
    (item : FeedItem) (workers : List Worker)
    → All IsFinished workers
    → Any (Holds item) workers
    → ⊥
finished-empty item [] h k = k
finished-empty item (finished ∷ workers) (f, h) (inl k) = k
finished-empty item (finished ∷ workers) (f, h) (inr k) = finished-empty item workers h k
finished-empty item (created ∷ workers) (f, h) k = f
finished-empty item (writing batch attempt ∷ workers) (f, h) k = f
finished-empty item (failed ∷ workers) (f, h) k = f

in-concat :
    (item : FeedItem) (batches : List (List FeedItem))
    → Any (λ x. x ≡ item) (concat batches)
    → InBatches item batches
in-concat item [] h = h
in-concat item (batch ∷ batches) h = split (in-concat item batches) batch h
  where
    split :
        (Any (λ x. x ≡ item) (concat batches) → InBatches item batches)
        → (xs : List FeedItem) → Any (λ x. x ≡ item) (xs ++ concat batches)
        → Any (λ x. x ≡ item) xs ⊎ InBatches item batches
    split rest [] k = inr (rest k)
    split rest (x ∷ xs) (inl here) = inl (inl here)
    split rest (x ∷ xs) (inr k) = elim (split rest xs k) [
      | inl early ↦ inl (inr early)
      | inr late ↦ inr late
    ]

in-map :
    (f : String → FeedItem) (id : String) (ids : List String)
    → Any (λ x. x ≡ id) ids
    → Any (λ x. x ≡ f id) (map f ids)
in-map f id (x ∷ ids) (inl here) = inl (ap f here)
in-map f id (x ∷ ids) (inr later) = inr (in-map f id ids later)
in-map f id [] h = h

start_fanout-IsManned :
    {W : Type 0} (batches : List (List FeedItem)) (w : W)
    → (start : Fanout W) → start.rest ≡ batches
    → start.workers ≡ replicate (min fanout_concurrency (length batches)) created
    → IsManned start
start_fanout-IsManned [] w start r k = inl r
start_fanout-IsManned (batch ∷ batches) w start r k = inr (
    subst (Any IsOpen) (sym k)
      (some_created (min fanout_concurrency (length (batch ∷ batches))) (omega arith)))
  where
    some_created : (n : ℕ) → 0 < n → Any IsOpen (replicate n created)
    some_created zero h = absurd (omega (arith, h))
    some_created (suc n) h = inl tt

-- When all workers of the fan-out have finished, in whatever order they took turns, the feed item of
-- every recipient is stored. DynamoDB keeps what it documents of BatchWriteItem.
pub run-stores :
    {W : Type 0} (dynamo : Dynamo W) (Stored : FeedItem → W → Type 0)
    (laws : BatchLaws dynamo Stored) (post_id author_id created_at : String)
    (recipient_ids : List String) (id : String) (schedule : List ℕ) (w : W)
    → Any (λ x. x ≡ id) recipient_ids
    → All IsFinished
        (run dynamo schedule (
          start_fanout dynamo (write_batches post_id author_id created_at recipient_ids) w)).workers
    → Stored
        (feed_item post_id author_id created_at id)
        (run dynamo schedule
          (start_fanout dynamo (write_batches post_id author_id created_at recipient_ids) w)).world
unfolding start_fanout
run-stores dynamo Stored laws post_id author_id created_at recipient_ids id schedule w among done =
    let batches = write_batches post_id author_id created_at recipient_ids in
    let item = feed_item post_id author_id created_at id in
    let state = start_fanout dynamo batches w in
    let final = run dynamo schedule state in
    let covers = (write_batches-cover post_id author_id created_at recipient_ids).0 in
    let waits = in-concat item batches (
      subst (Any (λ x. x ≡ item)) (sym covers)
        (in-map (feed_item post_id author_id created_at) id recipient_ids among)) in
    elim (run-IsAccounted dynamo Stored laws item schedule state (inr (inr waits))) [
      | inl stored ↦ stored
      | inr (inl holds) ↦ absurd (finished-empty item final.workers done holds)
      | inr (inr still) ↦
          elim (run-IsManned dynamo schedule state
            (start_fanout-IsManned batches w state refl refl)) [
              | inl nothing ↦ absurd (subst (InBatches item) nothing still)
              | inr busy ↦ absurd (finished-closed final.workers done busy)
            ]
    ]
