-- ===== src/FeedWorker/Fanout/Stored.antt =====
-- What `fanout` keeps while its workers take turns: an item is stored, or a worker or the rest has it.
use escld.Prelude.{
  ℕ, zero, suc, ◌≡◌, refl, subst, ◌⊎◌, inl, inr, true, Option, none, some, List, [], ◌∷◌, arith,
  leb, Bool-cases, Result, ok, err,
}
use escld.FeedWorker.Dynamo.{Dynamo, FeedItem, max_writes}
use escld.FeedWorker.Fanout.{
  Worker, created, writing, finished, failed, Fanout, take_next, no_items, items_of, settle_write,
  resume, turn, run,
}

abbrev pub Any {ℓ} : {A : Type ℓ} → (A → Type 0) → List A → Type 0
Any P [] = ⊥
Any P (x ∷ xs) = P x ⊎ Any P xs

-- What DynamoDB documents of BatchWriteItem: after an answer, an item of the batch is stored or given
-- back as unprocessed; and what is stored stays when items are put.
pub record BatchLaws {W : Type 0} (dynamo : Dynamo W) (Stored : FeedItem → W → Type 0)
    : Type 0 where
  pub answers :
      (item : FeedItem) (batch : List FeedItem) (w after : W) (unprocessed : Option (List FeedItem))
      → dynamo.batch_write batch w ≡ (ok unprocessed, after)
      → Any (λ x. x ≡ item) batch
      → Stored item after ⊎ Any (λ x. x ≡ item) (items_of unprocessed)
  pub keeps :
      (item : FeedItem) (batch : List FeedItem) (w : W)
      → Stored item w
      → Stored item (dynamo.batch_write batch w).1

abbrev pub InBatches : FeedItem → List (List FeedItem) → Type 0
InBatches item batches = Any (λ batch. Any (λ x. x ≡ item) batch) batches

-- The worker has the item still to write; one that failed has given it up.
abbrev pub Holds : FeedItem → Worker → Type 0
Holds item created = ⊥
Holds item (writing batch attempt) = Any (λ x. x ≡ item) batch
Holds item finished = ⊥
Holds item failed = Unit

take_next-Holds :
    (item : FeedItem) (rest : List (List FeedItem))
    → InBatches item rest
    → Holds item (take_next rest).0 ⊎ InBatches item (take_next rest).1
take_next-Holds item [] h = elim h [ ]
take_next-Holds item (batch ∷ rest) (inl here) = inl here
take_next-Holds item (batch ∷ rest) (inr later) = inr later

no_items-empty :
    (item : FeedItem) (unprocessed : Option (List FeedItem))
    → no_items unprocessed ≡ true
    → Any (λ x. x ≡ item) (items_of unprocessed)
    → ⊥
no_items-empty item none h k = elim k [ ]
no_items-empty item (some []) h k = elim k [ ]
no_items-empty item (some (x ∷ xs)) h k = ground arith

module _ {W : Type 0} (dynamo : Dynamo W) (Stored : FeedItem → W → Type 0)
    (laws : BatchLaws dynamo Stored) (item : FeedItem) where
  -- The item is stored, or a worker or the rest still has it.
  abbrev pub Accounted : Worker → List (List FeedItem) → W → Type 0
  Accounted worker rest w = Stored item w ⊎ (Holds item worker ⊎ InBatches item rest)

  settle_write-Accounted :
      (batch : List FeedItem) (attempt : ℕ) (rest : List (List FeedItem)) (w after : W)
      (answer : Result (Option (List FeedItem)))
      → dynamo.batch_write batch w ≡ (answer, after)
      → Accounted (writing batch attempt) rest w
      → Accounted (settle_write attempt rest answer).0 (settle_write attempt rest answer).1 after
  unfolding settle_write
  settle_write-Accounted batch attempt rest w after err e h = inr (inl tt)
  settle_write-Accounted batch attempt rest w after (ok unprocessed) e (inl stored) =
      inl (subst (λ q. Stored item q.1) e (laws.keeps item batch w stored))
  settle_write-Accounted batch attempt rest w after (ok unprocessed) e (inr (inr waits)) =
      elim (Bool-cases (no_items unprocessed)) [
        | inl all_done ↦ rw all_done (inr (take_next-Holds item rest waits))
        | inr some_left ↦ elim (Bool-cases (leb max_writes attempt)) [
          | inl over ↦ rw (some_left, over) (inr (inl tt))
          | inr again ↦ rw (some_left, again) (inr (inr waits))
        ]
      ]
  settle_write-Accounted batch attempt rest w after (ok unprocessed) e (inr (inl holds)) =
      elim (laws.answers item batch w after unprocessed e holds) [
        | inl stored ↦ inl stored
        | inr left ↦ elim (Bool-cases (no_items unprocessed)) [
          | inl all_done ↦ absurd (no_items-empty item unprocessed all_done left)
          | inr some_left ↦ elim (Bool-cases (leb max_writes attempt)) [
            | inl over ↦ rw (some_left, over) (inr (inl tt))
            | inr again ↦ rw (some_left, again) (inr (inl left))
          ]
        ]
      ]

  resume-Accounted :
      (worker : Worker) (rest : List (List FeedItem)) (w : W)
      → Accounted worker rest w
      → Accounted
          (resume dynamo worker rest w).0
          (resume dynamo worker rest w).1
          (resume dynamo worker rest w).2
  unfolding resume
  resume-Accounted created rest w (inl stored) = inl stored
  resume-Accounted created rest w (inr (inl h)) = elim h [ ]
  resume-Accounted created rest w (inr (inr waits)) = inr (take_next-Holds item rest waits)
  resume-Accounted finished rest w h = h
  resume-Accounted failed rest w h = h
  resume-Accounted (writing batch attempt) rest w h =
      settle_write-Accounted batch attempt rest w (dynamo.batch_write batch w).1
        (dynamo.batch_write batch w).0 refl h

  resume-keeps :
      (worker : Worker) (rest : List (List FeedItem)) (w : W)
      → Stored item w
      → Stored item (resume dynamo worker rest w).2
  unfolding resume
  resume-keeps created rest w h = h
  resume-keeps finished rest w h = h
  resume-keeps failed rest w h = h
  resume-keeps (writing batch attempt) rest w h = laws.keeps item batch w h

  -- The same for all the workers.
  abbrev pub IsAccounted : Fanout W → Type 0
  IsAccounted state =
      Stored item state.world ⊎ (Any (Holds item) state.workers ⊎ InBatches item state.rest)

  turn-keeps :
      (i : ℕ) (workers : List Worker) (rest : List (List FeedItem)) (w : W)
      → Stored item w
      → Stored item (turn dynamo i workers rest w).world
  unfolding turn
  turn-keeps i [] rest w h = h
  turn-keeps zero (worker ∷ workers) rest w h = resume-keeps worker rest w h
  turn-keeps (suc i) (worker ∷ workers) rest w h = turn-keeps i workers rest w h

  placed :
      (worker : Worker) (workers : List Worker) (rest : List (List FeedItem)) (w : W)
      → Accounted
          (resume dynamo worker rest w).0
          (resume dynamo worker rest w).1
          (resume dynamo worker rest w).2
      → IsAccounted (record {
        rest = (resume dynamo worker rest w).1;
        workers = (resume dynamo worker rest w).0 ∷ workers;
        world = (resume dynamo worker rest w).2;
      })
  placed worker workers rest w (inl stored) = inl stored
  placed worker workers rest w (inr (inl holds)) = inr (inl (inl holds))
  placed worker workers rest w (inr (inr waits)) = inr (inr waits)

  behind :
      (worker : Worker) (state : Fanout W)
      → IsAccounted state
      → IsAccounted (record state { workers = worker ∷ state.workers })
  behind worker state (inl stored) = inl stored
  behind worker state (inr (inl holds)) = inr (inl (inr holds))
  behind worker state (inr (inr waits)) = inr (inr waits)

  turn-IsAccounted :
      (i : ℕ) (workers : List Worker) (rest : List (List FeedItem)) (w : W)
      → IsAccounted (record { rest = rest; workers = workers; world = w })
      → IsAccounted (turn dynamo i workers rest w)
  unfolding turn
  turn-IsAccounted i [] rest w h = h
  turn-IsAccounted zero (worker ∷ workers) rest w (inr (inl (inr others))) = inr (inl (inr others))
  turn-IsAccounted zero (worker ∷ workers) rest w (inr (inl (inl holds))) =
      placed worker workers rest w (resume-Accounted worker rest w (inr (inl holds)))
  turn-IsAccounted zero (worker ∷ workers) rest w (inr (inr waits)) =
      placed worker workers rest w (resume-Accounted worker rest w (inr (inr waits)))
  turn-IsAccounted zero (worker ∷ workers) rest w (inl stored) =
      inl (resume-keeps worker rest w stored)
  turn-IsAccounted (suc i) (worker ∷ workers) rest w (inl stored) =
      inl (turn-keeps i workers rest w stored)
  turn-IsAccounted (suc i) (worker ∷ workers) rest w (inr (inl (inl holds))) = inr (inl (inl holds))
  turn-IsAccounted (suc i) (worker ∷ workers) rest w (inr (inl (inr others))) =
      behind worker (turn dynamo i workers rest w)
        (turn-IsAccounted i workers rest w (inr (inl others)))
  turn-IsAccounted (suc i) (worker ∷ workers) rest w (inr (inr waits)) =
      behind worker (turn dynamo i workers rest w)
        (turn-IsAccounted i workers rest w (inr (inr waits)))

  pub run-IsAccounted :
      (schedule : List ℕ) (state : Fanout W)
      → IsAccounted state
      → IsAccounted (run dynamo schedule state)
  unfolding run
  run-IsAccounted [] state h = h
  run-IsAccounted (i ∷ schedule) state h =
      run-IsAccounted schedule (turn dynamo i state.workers state.rest state.world)
        (turn-IsAccounted i state.workers state.rest state.world h)
