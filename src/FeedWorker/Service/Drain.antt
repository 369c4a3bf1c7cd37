-- ===== src/FeedWorker/Service/Drain.antt =====
-- The workers of `fanout` in feed-worker/src/dynamo.ts, when all are done.
use escld.Prelude.{
  ℕ, zero, suc, ◌≤◌, min, String, ◌≡◌, refl, sym, ap, ◌∙◌, subst, ◌⊎◌, inl, inr, Option, none, some,
  List, [], ◌∷◌, ◌++◌, arith, length, All, ok, err,
}
use escld.FeedWorker.Dynamo.{FeedItem, feed_item, write_batches, fanout_concurrency}
use escld.FeedWorker.Fanout.{
  Worker, created, writing, finished, failed, Fanout, turn, run, start_fanout,
}
use escld.FeedWorker.Fanout.Budget.{budget, IsFair, LiveAt, turn-budget, turn-IsFair}
use escld.FeedWorker.Fanout.Stored.{Any, BatchLaws}
use escld.FeedWorker.Fanout.Ends.{IsFinished, run-stores}
use escld.FeedWorker.Fanout.Turns.{IsDone, replicate-IsFair}
use escld.FeedWorker.Service.{FeedServices, next_worker, first_live, all_settled, drain, spread}

abbrev pub IsFailed : Worker → Type 0
IsFailed failed = Unit
IsFailed _ = ⊥

pub all_settled-cases :
    (workers : List Worker)
    → All IsDone workers
    → ((all_settled workers ≡ ok tt) × All IsFinished workers)
      ⊎ ((all_settled workers ≡ err) × Any IsFailed workers)
all_settled-cases [] h = inl (refl, tt)
all_settled-cases (created ∷ workers) (d, h) = elim d [ ]
all_settled-cases (writing batch attempt ∷ workers) (d, h) = elim d [ ]
all_settled-cases (failed ∷ workers) (d, h) = inr (refl, inl tt)
all_settled-cases (finished ∷ workers) (d, h) = elim (all_settled-cases workers h) [
  | inl (e, all_finished) ↦ inl (e, (tt, all_finished))
  | inr (e, some_failed) ↦ inr (e, inr some_failed)
]

first_live-cases :
    (workers : List Worker)
    → ((first_live workers ≡ none) × All IsDone workers)
      ⊎ ((i : ℕ) × (first_live workers ≡ some i) × LiveAt i workers)
first_live-cases [] = inl (refl, tt)
first_live-cases (created ∷ workers) = inr (0, refl, tt)
first_live-cases (writing batch attempt ∷ workers) = inr (0, refl, tt)
first_live-cases (finished ∷ workers) = elim (first_live-cases workers) [
  | inl (e, done) ↦ inl (ap next_worker e, (tt, done))
  | inr (i, e, live) ↦ inr (suc i, ap next_worker e, live)
]
first_live-cases (failed ∷ workers) = elim (first_live-cases workers) [
  | inl (e, done) ↦ inl (ap next_worker e, (tt, done))
  | inr (i, e, live) ↦ inr (suc i, ap next_worker e, live)
]

module _ {W E Message : Type 0} (services : FeedServices W E Message) where
  run-append :
      (schedule more : List ℕ) (state : Fanout W)
      → run services.dynamo (schedule ++ more) state
        ≡ run services.dynamo more (run services.dynamo schedule state)
  unfolding run
  run-append [] more state = refl
  run-append (i ∷ schedule) more state = run-append schedule more _

  run-IsFair :
      (schedule : List ℕ) (state : Fanout W)
      → All IsFair state.workers
      → All IsFair (run services.dynamo schedule state).workers
  unfolding run
  run-IsFair [] state fair = fair
  run-IsFair (i ∷ schedule) state fair =
      run-IsFair schedule _
        (turn-IsFair services.dynamo i state.workers state.rest state.world fair)

  drain-step :
      (fuel : ℕ) (state : Fanout W) (next : Option ℕ)
      → first_live state.workers ≡ next
      → drain services (suc fuel) state ≡ (elim next [
        | none ↦ state
        | some i ↦ drain services fuel (turn services.dynamo i state.workers state.rest state.world)
      ])
  unfolding drain
  drain-step fuel state next e = rw (e, drain) refl

  abbrev IsRunOut : Fanout W → Fanout W → Type 0
  IsRunOut state end =
      All IsDone end.workers × ((more : List ℕ) × (end ≡ run services.dynamo more state))

  -- The fuel is enough, and draining is a run.
  drain-IsRunOut :
      (fuel : ℕ) (state : Fanout W)
      → budget state ≤ fuel
      → All IsFair state.workers
      → IsRunOut state (drain services fuel state)
  unfolding drain run
  drain-IsRunOut zero state within fair = elim (first_live-cases state.workers) [
    | inl (e, done) ↦ (done, ([], refl))
    | inr (i, e, live) ↦ absurd (
        omega (
          arith,
          (turn-budget services.dynamo i state.workers state.rest state.world fair live).0,
          within,
        ))
  ]
  drain-IsRunOut (suc fuel) state within fair = elim (first_live-cases state.workers) [
    | inl (e, done) ↦ subst (IsRunOut state) (sym (drain-step fuel state none e)) (done, ([], refl))
    | inr (i, e, live) ↦
        let (less, fair') =
          turn-budget services.dynamo i state.workers state.rest state.world fair live in
        let (done, (more, same)) = drain-IsRunOut fuel _ (omega (arith, less, within)) fair' in
        subst (IsRunOut state) (sym (drain-step fuel state (some i) e)) (done, (i ∷ more, same))
  ]

  pub spread-ends :
      (batches : List (List FeedItem)) (w : W)
      → All IsDone (spread services batches w).workers
        × ((schedule : List ℕ) × (spread services batches w
              ≡ run services.dynamo schedule (start_fanout services.dynamo batches w)))
  unfolding spread start_fanout
  spread-ends batches w =
      let start = start_fanout services.dynamo batches w in
      let early = services.turns batches w in
      let (done, (more, same)) =
        drain-IsRunOut (budget (run services.dynamo early start)) (run services.dynamo early start)
          (omega arith)
          (run-IsFair early start
            (replicate-IsFair services.dynamo (min fanout_concurrency (length batches)))) in
      (done, (early ++ more, same ∙ sym (run-append early more start)))

-- The item of a recipient whom the fan-out was given is stored when no worker failed.
pub spread-stores :
    {W E Message : Type 0} (services : FeedServices W E Message) (Stored : FeedItem → W → Type 0)
    (laws : BatchLaws services.dynamo Stored) (post_id author_id created_at : String)
    (recipient_ids : List String) (w : W) (id : String)
    → Any (λ x. x ≡ id) recipient_ids
    → let state = spread services (write_batches post_id author_id created_at recipient_ids) w in
      All IsFinished state.workers → Stored (feed_item post_id author_id created_at id) state.world
spread-stores services Stored laws post_id author_id created_at recipient_ids w id among done =
    let (ends, (schedule, same)) =
      spread-ends services (write_batches post_id author_id created_at recipient_ids) w in
    subst (λ state. Stored (feed_item post_id author_id created_at id) state.world) (sym same)
      (run-stores services.dynamo Stored laws post_id author_id created_at recipient_ids id schedule
        w among (subst (λ state. All IsFinished state.workers) same done))
