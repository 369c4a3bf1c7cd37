-- ===== src/BqSink/Messages/Writes.antt =====
-- What the writes of `handleBatch` in bq-sink/src/message-handler.ts do to the warehouse.
use escld.Prelude.{ℕ, String, ◌≡◌, refl, List, [], ◌∷◌, ◌++◌, map, arith, Result, ok, err}
use escld.BqSink.Messages.Parse.{ParsedMessage, event, dead_letter, row_of}
use escld.BqSink.Messages.Batch.{
  Deps, Batch, landed, archive, land, after_events, after_dead_letters,
}

module _ {W : Type 0} (deps : Deps W) (topic : String) (partition : ℕ) where
  -- The whole chunk was written by one successful write, to the table of its first message or to
  -- the quarantine; an event chunk was then archived, whether or not that succeeded.
  abbrev pub Written : List ParsedMessage → W → W → Type 0
  Written [] w w' = ⊥
  Written (event o t ty r e ∷ more) w w' =
      (q : ℕ) × (w₀ : W) × (deps.insert_events t (map row_of (event o t ty r e ∷ more)) w
        ≡ (ok q, w₀))
      × (w' ≡ archive deps topic partition deps.write_batch (event o t ty r e ∷ more) w₀)
  Written (dead_letter o why r ∷ more) w w' =
      deps.insert_dead_letters (map row_of (dead_letter o why r ∷ more)) w ≡ (ok tt, w')

  -- The write of the chunk threw.
  abbrev pub Refused : List ParsedMessage → W → W → Type 0
  Refused [] w w' = ⊥
  Refused (event o t ty r e ∷ more) w w' =
      deps.insert_events t (map row_of (event o t ty r e ∷ more)) w ≡ (err, w')
  Refused (dead_letter o why r ∷ more) w w' =
      deps.insert_dead_letters (map row_of (dead_letter o why r ∷ more)) w ≡ (err, w')

  land_event :
      (chunk : List ParsedMessage) (b : Batch W) (p : Result ℕ × W)
      → (after_events deps topic partition chunk b p.0 p.1).0 ≡ ok tt
      → (q : ℕ) × (w₀ : W) × (p ≡ (ok q, w₀))
        × ((after_events deps topic partition chunk b p.0 p.1).1.world
            ≡ archive deps topic partition deps.write_batch chunk w₀)
  unfolding after_events
  land_event chunk b (ok q, w) h = (q, w, refl, refl)
  land_event chunk b (err, w) h = ground arith

  land_dead_letter :
      (chunk : List ParsedMessage) (b : Batch W) (p : Result (Unit {0}) × W)
      → (after_dead_letters deps topic partition chunk b p.0 p.1).0 ≡ ok tt
      → p ≡ (ok tt, (after_dead_letters deps topic partition chunk b p.0 p.1).1.world)
  unfolding after_dead_letters
  land_dead_letter chunk b (ok u, w) h = refl
  land_dead_letter chunk b (err, w) h = ground arith

  pub land-Written :
      (first : ParsedMessage) (more : List ParsedMessage) (b : Batch W)
      → (land deps topic partition first (first ∷ more) b).0 ≡ ok tt
      → Written (first ∷ more) b.world (land deps topic partition first (first ∷ more) b).1.world
  unfolding land
  land-Written (event o t ty r e) more b h = land_event (event o t ty r e ∷ more) b _ h
  land-Written (dead_letter o why r) more b h = land_dead_letter (dead_letter o why r ∷ more) b _ h

  refuse_event :
      (chunk : List ParsedMessage) (b : Batch W) (p : Result ℕ × W)
      → (after_events deps topic partition chunk b p.0 p.1).0 ≡ err
      → p ≡ (err, (after_events deps topic partition chunk b p.0 p.1).1.world)
  unfolding after_events
  refuse_event chunk b (ok q, w) h = cc
  refuse_event chunk b (err, w) h = refl

  refuse_dead_letter :
      (chunk : List ParsedMessage) (b : Batch W) (p : Result (Unit {0}) × W)
      → (after_dead_letters deps topic partition chunk b p.0 p.1).0 ≡ err
      → p ≡ (err, (after_dead_letters deps topic partition chunk b p.0 p.1).1.world)
  unfolding after_dead_letters
  refuse_dead_letter chunk b (ok u, w) h = cc
  refuse_dead_letter chunk b (err, w) h = refl

  pub land-Refused :
      (first : ParsedMessage) (more : List ParsedMessage) (b : Batch W)
      → (land deps topic partition first (first ∷ more) b).0 ≡ err
      → Refused (first ∷ more) b.world (land deps topic partition first (first ∷ more) b).1.world
  unfolding land
  land-Refused (event o t ty r e) more b h = refuse_event (event o t ty r e ∷ more) b _ h
  land-Refused (dead_letter o why r) more b h =
      refuse_dead_letter (dead_letter o why r ∷ more) b _ h

  pub effects-land_ok :
      (first : ParsedMessage) (chunk : List ParsedMessage) (b : Batch W)
      → (land deps topic partition first chunk b).0 ≡ ok tt
      → (land deps topic partition first chunk b).1.effects ≡ b.effects ++ landed chunk ∷ []
  unfolding land
  effects-land_ok (event o t ty r e) chunk b h = ground arith
  effects-land_ok (dead_letter o why r) chunk b h = ground arith

  pub effects-land_err :
      (first : ParsedMessage) (chunk : List ParsedMessage) (b : Batch W)
      → (land deps topic partition first chunk b).0 ≡ err
      → (land deps topic partition first chunk b).1.effects ≡ b.effects
  unfolding land
  effects-land_err (event o t ty r e) chunk b h = ground arith
  effects-land_err (dead_letter o why r) chunk b h = ground arith
