-- ===== src/BqSink/Messages/Counts.antt =====
-- The counters of `handleBatch` in bq-sink/src/message-handler.ts: no message is counted twice or
-- lost.
use escld.Prelude.{
  ℕ, zero, suc, ◌+◌, ◌≤◌, ◌<◌, String, ◌≡◌, sym, ap, ◌∙◌, refl, subst, ◌⊎◌, ◌++◌, append_assoc,
  false, inl, inr, List, [], ◌∷◌, arith, Bool-cases, length, length-append, ok, err, Result-cases,
}
use escld.Js.Int.{◌+ℤ◌, pos_part, neg_part}
use escld.Js.Json.{Engine}
use escld.BqSink.Messages.Parse.{ParsedMessage, event, dead_letter, KafkaMessage}
use escld.BqSink.Messages.Batch.{
  estimate_row_bytes, gather, Deps, Stats, Batch, Ending, finished, stopped, threw, out_of_fuel,
  land, settle, settle_landed, Payload, parse_all, handle_chunks, handle_batch,
}
use escld.BqSink.Messages.Chunks.{IsChunk, gather-append, gather-IsChunk}
use escld.BqSink.Messages.Trace.{length-parse_all, handle_chunks-on}
use escld.BqSink.Messages.Writes.{Refused, land-Refused}

-- From `s` to `s'`, `done` messages were counted as succeeded or quarantined and `lost` as failed.
abbrev pub Moved : Stats → Stats → ℕ → ℕ → Type 0
Moved s s' done lost =
    (pos_part s'.jobs_succeeded + s'.jobs_quarantined + neg_part s.jobs_succeeded
      ≡ pos_part s.jobs_succeeded + s.jobs_quarantined + neg_part s'.jobs_succeeded + done)
    × (s'.jobs_failed ≡ s.jobs_failed + lost)

module _ {W : Type 0} (deps : Deps W) (topic : String) (partition : ℕ) where
  Moved-land_ok :
      (first : ParsedMessage) (chunk : List ParsedMessage) (b : Batch W)
      → (land deps topic partition first chunk b).0 ≡ ok tt
      → Moved b.stats (land deps topic partition first chunk b).1.stats (length chunk) 0
  unfolding land ◌+ℤ◌
  Moved-land_ok (event o t ty r e) chunk b h = ground arith
  Moved-land_ok (dead_letter o why r) chunk b h = ground arith

  Moved-land_err :
      (first : ParsedMessage) (chunk : List ParsedMessage) (b : Batch W)
      → (land deps topic partition first chunk b).0 ≡ err
      → Moved b.stats (land deps topic partition first chunk b).1.stats 0 (length chunk)
  unfolding land
  Moved-land_err (event o t ty r e) chunk b h = ground arith
  Moved-land_err (dead_letter o why r) chunk b h = ground arith

module _ {W : Type 0} (deps : Deps W) (topic : String) (partition : ℕ) (engine : Engine)
    (batch_size : ℕ) (payload : Payload) where
  -- What the counts have to do with the batch: at a throw Kafka rejected a call and nothing is
  -- lost, or the chunk after the messages that are done was refused, and it is what is lost.
  abbrev pub Tallied : Ending → List ParsedMessage → (done lost : ℕ) → W → Type 0
  Tallied finished parsed done lost w = (done ≡ length parsed) × (lost ≡ 0)
  Tallied stopped parsed done lost w = (done < length parsed) × (lost ≡ 0)
  Tallied threw parsed done lost w =
      ((0 < done)
        × (done ≤ length parsed)
        × (lost ≡ 0)
        × ((round : ℕ) × ((payload.commits round ≡ false) ⊎ (payload.beats round ≡ false))))
      ⊎ ((front : List ParsedMessage) × (chunk : List ParsedMessage) × (rest : List ParsedMessage)
          × (front ++ (chunk ++ rest) ≡ parsed)
          × (length front ≡ done)
          × (length chunk ≡ lost)
          × IsChunk engine batch_size chunk
          × ((before : W) × Refused deps topic partition chunk before w))
  Tallied out_of_fuel parsed done lost w = ⊥

  pub record Tally (ending : Ending) (parsed : List ParsedMessage) (before after : Batch W)
      : Type 0 where
    pub done : ℕ
    pub lost : ℕ
    pub moved : Moved before.stats after.stats done lost
    pub tallied : Tallied ending parsed done lost after.world

  Tallied-add :
      (ending : Ending) (chunk left parsed : List ParsedMessage) (done lost : ℕ) (w : W)
      → chunk ++ left ≡ parsed
      → Tallied ending left done lost w
      → Tallied ending parsed (length chunk + done) lost w
  Tallied-add finished chunk left parsed done lost w e h =
      omega (arith, h, length-append chunk left, ap length e)
  Tallied-add stopped chunk left parsed done lost w e h =
      omega (arith, h, length-append chunk left, ap length e)
  Tallied-add out_of_fuel chunk left parsed done lost w e h = elim h [ ]
  Tallied-add threw chunk left parsed done lost w e (inl (some_done, within, none_lost, why)) =
      inl (
        omega (arith, some_done),
        omega (arith, within, length-append chunk left, ap length e),
        none_lost,
        why,
      )
  Tallied-add threw chunk left parsed done lost w e
        (inr (front, refused, rest, order, n, m, fair, why)) =
      inr (
        chunk ++ front,
        refused,
        rest,
        append_assoc chunk front (refused ++ rest) ∙ ap (λ l. chunk ++ l) order ∙ e,
        omega (arith, n, length-append chunk front),
        m,
        fair,
        why,
      )

  Tally-add :
      {ending : Ending} {before middle after : Batch W}
      → (chunk left parsed : List ParsedMessage) → chunk ++ left ≡ parsed
      → Moved before.stats middle.stats (length chunk) 0
      → Tally ending left middle after
      → Tally ending parsed before after
  Tally-add {ending} {after} chunk left parsed e m tally = record {
    done = length chunk + tally.done;
    lost = tally.lost;
    moved = omega (arith, m, tally.moved);
    tallied =
        Tallied-add ending chunk left parsed tally.done tally.lost after.world e tally.tallied;
  }

  -- Kafka rejected a call after the chunk was landed.
  Tally-rejected :
      {before after : Batch W}
      → (round : ℕ) (first : ParsedMessage) (more left parsed : List ParsedMessage)
      → (first ∷ more) ++ left ≡ parsed
      → (payload.commits round ≡ false) ⊎ (payload.beats round ≡ false)
      → Moved before.stats after.stats (length (first ∷ more)) 0
      → Tally threw parsed before after
  Tally-rejected round first more left parsed e why m = record {
    done = length (first ∷ more);
    lost = 0;
    moved = m;
    tallied = inl (
      omega arith,
      omega (arith, length-append (first ∷ more) left, ap length e),
      refl,
      (round, why),
    );
  }

  handle_chunks-Tally :
      (fuel round : ℕ) (parsed : List ParsedMessage) (b : Batch W)
      → length parsed ≤ fuel
      → Tally
          (handle_chunks deps topic partition engine payload batch_size fuel round parsed b).0
          parsed
          b
          (handle_chunks deps topic partition engine payload batch_size fuel round parsed b).1
  unfolding handle_chunks settle settle_landed
  handle_chunks-Tally fuel round [] b h = record {
    done = 0;
    lost = 0;
    moved = omega arith;
    tallied = omega arith;
  }
  handle_chunks-Tally zero round (first ∷ rest) b h = absurd (omega arith)
  handle_chunks-Tally (suc fuel) round (first ∷ rest) b h =
      let more = (gather engine batch_size first 1 (estimate_row_bytes engine first) rest).0 in
      let left = (gather engine batch_size first 1 (estimate_row_bytes engine first) rest).1 in
      let chunk = first ∷ more in
      let order : more ++ left ≡ rest = gather-append engine batch_size first rest in
      let whole : chunk ++ left ≡ first ∷ rest = ap (λ l. first ∷ l) order in
      let fewer : length left ≤ fuel = omega (arith, length-append more left, ap length order) in
      elim (Bool-cases (payload.is_wanted round)) [
        | inr off ↦
            rw off (record { done = 0; lost = 0; moved = omega arith; tallied = omega arith })
        | inl on ↦ elim (Result-cases (land deps topic partition first chunk b).0) [
          | inr failed ↦
              rw (on, failed)
                (record {
                  done = 0;
                  lost = length chunk;
                  moved = Moved-land_err deps topic partition first chunk b failed;
                  tallied = inr (
                    [],
                    chunk,
                    left,
                    whole,
                    refl,
                    refl,
                    gather-IsChunk engine batch_size first rest,
                    (b.world, land-Refused deps topic partition first more b failed),
                  );
                })
          | inl (u, done) ↦
              let moved = Moved-land_ok deps topic partition first chunk b done in
              elim (Bool-cases (payload.commits round)) [
                | inr rejected ↦
                    rw (on, done, rejected)
                      (Tally-rejected round first more left (first ∷ rest) whole (inl rejected)
                        moved)
                | inl commits ↦ elim (Bool-cases (payload.beats round)) [
                  | inr rejected ↦
                      rw (on, done, commits, rejected)
                        (Tally-rejected round first more left (first ∷ rest) whole (inr rejected)
                          moved)
                  | inl beats ↦
                      subst (λ p. Tally p.0 (first ∷ rest) b p.1)
                        (sym (
                          handle_chunks-on deps topic partition engine batch_size payload fuel round
                            first rest b on done commits beats))
                        (Tally-add chunk left (first ∷ rest) whole moved
                          (handle_chunks-Tally fuel (suc round) left _ fewer))
                ]
              ]
        ]
      ]

-- Every message is counted once: at a normal return as many are counted as succeeded or quarantined
-- as the batch holds and none as failed; after an early return, fewer and none failed. After a
-- throw, either Kafka rejected a commit or a heartbeat, and some messages are counted as succeeded
-- or quarantined and none as failed; or the write of a chunk was refused, the messages before it
-- are counted as succeeded or quarantined, and as many as it has as failed.
pub handle_batch-Tally :
    {W : Type 0} (deps : Deps W) (topic : String) (partition : ℕ) (engine : Engine)
    (clock : ℕ → String) (payload : Payload) (batch_size : ℕ) (messages : List KafkaMessage)
    (b : Batch W)
    → Tally deps topic partition engine batch_size payload
        (handle_batch deps topic partition engine clock payload batch_size messages b).0
        (parse_all deps topic partition engine clock 0 messages)
        b
        (handle_batch deps topic partition engine clock payload batch_size messages b).1
unfolding handle_batch
handle_batch-Tally deps topic partition engine clock payload batch_size messages b =
    handle_chunks-Tally deps topic partition engine batch_size payload (length messages) 0 _ b
      (omega (arith, length-parse_all deps topic partition engine clock 0 messages))
