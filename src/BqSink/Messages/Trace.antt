-- ===== src/BqSink/Messages/Trace.antt =====
-- What `handleBatch` of bq-sink/src/message-handler.ts leaves outside: the order of writes, offset
-- resolutions, commits and heartbeats.
use escld.Prelude.{
  ℕ, zero, suc, ◌≤◌, String, ◌≡◌, refl, sym, ap, ◌∙◌, inl, inr, true, subst, List, [], ◌∷◌, ◌++◌,
  append-nil, append_assoc, arith, Bool-cases, length, length-append, ok, err, Result, Result-cases,
}
use escld.Js.Json.{Engine}
use escld.BqSink.Messages.Parse.{ParsedMessage, KafkaMessage}
use escld.BqSink.Messages.Batch.{
  estimate_row_bytes, gather, Deps, Effect, landed, committed, heartbeat, Batch, Ending, land,
  settle, handle_chunks, settle_landed, after_round, logged, resolutions, Payload, parse_all,
  handle_batch,
}
use escld.BqSink.Messages.Chunks.{gather-IsChunk, gather-append}
use escld.BqSink.Messages.Writes.{land-Written, land-Refused, effects-land_ok, effects-land_err}
use escld.BqSink.Messages.Runs.{block_to, uncut, uncommitted, unbeaten, Run, Run-none, Run-cons}

module _ {W : Type 0} (deps : Deps W) (topic : String) (partition : ℕ) (engine : Engine)
    (batch_size : ℕ) (payload : Payload) where
  effects-logged :
      (first : ParsedMessage) (chunk : List ParsedMessage) (last : List Effect) (b : Batch W)
      → (land deps topic partition first chunk b).0 ≡ ok tt
      → (logged deps topic partition
          (resolutions deps topic partition chunk ++ last)
          (land deps topic partition first chunk b).1).effects
        ≡ b.effects ++ block_to last chunk
  effects-logged first chunk last b h =
      rw (effects-land_ok deps topic partition first chunk b h)
        (append_assoc b.effects (landed chunk ∷ []) _)

  settle_landed-ok :
      (round : ℕ) (chunk : List ParsedMessage) (landing : Result (Unit {0}) × Batch W)
      → landing.0 ≡ ok tt
      → payload.commits round ≡ true
      → payload.beats round ≡ true
      → settle_landed deps topic partition payload round chunk landing ≡ (
        ok tt,
        logged deps topic partition
            (resolutions deps topic partition chunk ++ committed ∷ heartbeat ∷ [])
            landing.1,
      )
  unfolding settle settle_landed
  settle_landed-ok round chunk (ok u, b) e commits beats = rw (commits, beats) refl
  settle_landed-ok round chunk (err, b) e commits beats = absurd (ground arith)

  -- A round that goes well hands the rest of the batch to the next one.
  pub handle_chunks-on :
      (fuel round : ℕ) (first : ParsedMessage) (rest : List ParsedMessage) (b : Batch W)
      → let (more, left) =
          gather engine batch_size first 1 (estimate_row_bytes engine first) rest in
        let landing = land deps topic partition first (first ∷ more) b in
        payload.is_wanted round ≡ true
        → landing.0 ≡ ok tt
        → payload.commits round ≡ true
        → payload.beats round ≡ true
        → handle_chunks deps topic partition engine payload batch_size
            (suc fuel)
            round
            (first ∷ rest)
            b
          ≡ handle_chunks deps topic partition engine payload batch_size fuel (suc round) left (
              logged deps topic partition
                (resolutions deps topic partition (first ∷ more) ++ committed ∷ heartbeat ∷ [])
                landing.1)
  unfolding handle_chunks
  handle_chunks-on fuel round first rest b on done commits beats =
      let (more, left) = gather engine batch_size first 1 (estimate_row_bytes engine first) rest in
      let next : Batch W → Ending × Batch W = λ b'.
        handle_chunks deps topic partition engine payload batch_size fuel (suc round) left b' in
      ap
        (λ wanted.
          after_round deps topic partition b wanted
            (settle_landed deps topic partition payload round (first ∷ more)
              (land deps topic partition first (first ∷ more) b))
            next)
        on
      ∙ ap (λ result. after_round deps topic partition b true result next)
          (settle_landed-ok round (first ∷ more) (land deps topic partition first _ b) done commits
            beats)

  handle_chunks-Run :
      (fuel round : ℕ) (parsed : List ParsedMessage) (b : Batch W)
      → length parsed ≤ fuel
      → Run deps topic partition engine batch_size payload round parsed
          (handle_chunks deps topic partition engine payload batch_size fuel round parsed b).0
          b
          (handle_chunks deps topic partition engine payload batch_size fuel round parsed b).1
  unfolding handle_chunks settle settle_landed
  handle_chunks-Run fuel round [] b h =
      Run-none deps topic partition engine batch_size payload uncut [] refl (refl, refl)
        (sym (append-nil b.effects))
  handle_chunks-Run zero round (first ∷ rest) b h = absurd (omega arith)
  handle_chunks-Run (suc fuel) round (first ∷ rest) b h =
      let more = (gather engine batch_size first 1 (estimate_row_bytes engine first) rest).0 in
      let left = (gather engine batch_size first 1 (estimate_row_bytes engine first) rest).1 in
      let chunk = first ∷ more in
      let order : more ++ left ≡ rest = gather-append engine batch_size first rest in
      let whole : chunk ++ left ≡ first ∷ rest = ap (λ l. first ∷ l) order in
      let fewer : length left ≤ fuel = omega (arith, length-append more left, ap length order) in
      let fair = gather-IsChunk engine batch_size first rest in
      elim (Bool-cases (payload.is_wanted round)) [
        | inr off ↦ rw off (
            Run-none deps topic partition engine batch_size payload uncut (first ∷ rest) refl
              (off, cc, refl) (sym (append-nil b.effects)))
        | inl on ↦ elim (Result-cases (land deps topic partition first chunk b).0) [
          | inr failed ↦
              rw (on, failed)
                (Run-none deps topic partition engine batch_size payload uncut (first ∷ rest) refl
                  (chunk, left, whole, fair, land-Refused deps topic partition first more b failed)
                  (effects-land_err deps topic partition first chunk b failed
                    ∙ sym (append-nil b.effects)))
          | inl (u, done) ↦
              let written = land-Written deps topic partition first more b done in
              elim (Bool-cases (payload.commits round)) [
                | inr rejected ↦
                    rw (on, done, rejected)
                      (Run-none deps topic partition engine batch_size payload (uncommitted chunk)
                        left whole (rejected, fair, written)
                        (subst
                          (λ es.
                            (logged deps topic partition es
                              (land deps topic partition first chunk b).1).effects
                            ≡ b.effects ++ block_to [] chunk)
                          (append-nil _) (effects-logged first chunk [] b done)))
                | inl commits ↦ elim (Bool-cases (payload.beats round)) [
                  | inr rejected ↦
                      rw (on, done, commits, rejected)
                        (Run-none deps topic partition engine batch_size payload (unbeaten chunk)
                          left whole (commits, rejected, fair, written)
                          (effects-logged first chunk (committed ∷ []) b done))
                  | inl beats ↦
                      subst
                        (λ p.
                          Run deps topic partition engine batch_size payload round (first ∷ rest)
                            p.0 b p.1)
                        (sym (handle_chunks-on fuel round first rest b on done commits beats))
                        (Run-cons deps topic partition engine batch_size payload chunk left fair
                          whole written
                          (effects-logged first chunk (committed ∷ heartbeat ∷ []) b done)
                          (handle_chunks-Run fuel (suc round) left _ fewer))
                ]
              ]
        ]
      ]

pub length-parse_all :
    {W : Type 0} (deps : Deps W) (topic : String) (partition : ℕ) (engine : Engine)
    (clock : ℕ → String) (i : ℕ) (messages : List KafkaMessage)
    → length (parse_all deps topic partition engine clock i messages) ≡ length messages
unfolding parse_all
length-parse_all deps topic partition engine clock i [] = refl
length-parse_all deps topic partition engine clock i (m ∷ ms) =
    ap suc (length-parse_all deps topic partition engine clock (suc i) ms)

-- However the handler ends, it has written chunks of the batch in order, each by one successful
-- write to the destination of its first message, and has resolved the offsets of each, committed
-- them and sent a heartbeat before it went on to the next; nothing else was resolved. The messages
-- that it has not written are a tail of the batch: none at a normal return, some after an early
-- return, which came when the batch was no longer wanted. After a throw they begin with a chunk
-- whose write was refused, or the chunk before them was written and resolved, and Kafka rejected its
-- commit or the heartbeat after that. Every chunk has one destination, keeps within the row limit
-- (if that is positive) and, unless it is a single message, within the byte limit. The handler never
-- runs on without end.
pub handle_batch-Run :
    {W : Type 0} (deps : Deps W) (topic : String) (partition : ℕ) (engine : Engine)
    (clock : ℕ → String) (payload : Payload) (batch_size : ℕ) (messages : List KafkaMessage)
    (b : Batch W)
    → Run deps topic partition engine batch_size payload 0
        (parse_all deps topic partition engine clock 0 messages)
        (handle_batch deps topic partition engine clock payload batch_size messages b).0
        b
        (handle_batch deps topic partition engine clock payload batch_size messages b).1
unfolding handle_batch
handle_batch-Run deps topic partition engine clock payload batch_size messages b =
    handle_chunks-Run deps topic partition engine batch_size payload (length messages) 0 _ b
      (omega (arith, length-parse_all deps topic partition engine clock 0 messages))
