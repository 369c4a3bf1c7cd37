-- ===== src/BqSink/Messages/Runs.antt =====
-- What a run of `handleBatch` of bq-sink/src/message-handler.ts leaves outside, chunk by chunk.
use escld.Prelude.{
  ℕ, suc, String, ◌≡◌, sym, ap, ◌∙◌, ◌≢◌, true, false, List, [], ◌∷◌, ◌++◌, map, append_assoc, All,
  concat,
}
use escld.Js.Json.{Engine}
use escld.BqSink.Messages.Parse.{ParsedMessage, offset_of}
use escld.BqSink.Messages.Batch.{
  Deps, Effect, landed, resolved, committed, heartbeat, Batch, Ending, finished, stopped, threw,
  Payload,
}
use escld.BqSink.Messages.Chunks.{IsChunk}
use escld.BqSink.Messages.Writes.{Written, Refused}

-- What one landed chunk leaves in the log: up to the resolved offsets, and then.
abbrev pub block_to : List Effect → List ParsedMessage → List Effect
block_to last chunk = landed chunk ∷ (map (λ p. resolved (offset_of p)) chunk ++ last)

abbrev pub block : List ParsedMessage → List Effect
block chunk = block_to (committed ∷ heartbeat ∷ []) chunk

abbrev pub blocks : List (List ParsedMessage) → List Effect
blocks [] = []
blocks (chunk ∷ chunks) = block chunk ++ blocks chunks

-- The chunk after which KafkaJS broke the run off, if it did: it rejected the commit, or the heartbeat
-- after it.
pub data Cut : Type 0 where
  uncut : Cut
  uncommitted unbeaten : List ParsedMessage → Cut

abbrev pub cut_chunk : Cut → List ParsedMessage
cut_chunk uncut = []
cut_chunk (uncommitted chunk) = chunk
cut_chunk (unbeaten chunk) = chunk

abbrev pub cut_block : Cut → List Effect
cut_block uncut = []
cut_block (uncommitted chunk) = block_to [] chunk
cut_block (unbeaten chunk) = block_to (committed ∷ []) chunk

module _ {W : Type 0} (deps : Deps W) (topic : String) (partition : ℕ) (engine : Engine)
    (batch_size : ℕ) (payload : Payload) where
  -- How a run ends at a round, over the messages that were not landed before. Where it throws, the
  -- write of the next chunk of them was refused; or that chunk was written, and the commit or the
  -- heartbeat was rejected.
  abbrev pub Ended : (round : ℕ) → Ending → Cut → List ParsedMessage → W → W → Type 0
  Ended round finished uncut left w w' = (left ≡ []) × (w' ≡ w)
  Ended round stopped uncut left w w' = (payload.is_wanted round ≡ false) × (left ≢ []) × (w' ≡ w)
  Ended round threw uncut left w w' =
      (chunk : List ParsedMessage) × (rest : List ParsedMessage) × (chunk ++ rest ≡ left)
      × IsChunk engine batch_size chunk
      × Refused deps topic partition chunk w w'
  Ended round threw (uncommitted chunk) left w w' =
      (payload.commits round ≡ false)
      × IsChunk engine batch_size chunk
      × Written deps topic partition chunk w w'
  Ended round threw (unbeaten chunk) left w w' =
      (payload.commits round ≡ true)
      × (payload.beats round ≡ false)
      × IsChunk engine batch_size chunk
      × Written deps topic partition chunk w w'
  Ended round _ _ left w w' = ⊥

  -- The chunks are written, and their offsets committed, in order from the world `w`, and then the
  -- run ends.
  abbrev pub Writes :
      (round : ℕ) → Ending → Cut → List (List ParsedMessage) → List ParsedMessage → W → W → Type 0
  Writes round ending cut [] left w w' = Ended round ending cut left w w'
  Writes round ending cut (chunk ∷ chunks) left w w' =
      (w₁ : W) × Written deps topic partition chunk w w₁
      × Writes (suc round) ending cut chunks left w₁ w'

  -- A run over `parsed`: some chunks, in order, are written, resolved and committed one after the
  -- other, at last perhaps one that is not committed or has no heartbeat, and nothing else is done
  -- to Kafka or the warehouse.
  pub record Run (round : ℕ) (parsed : List ParsedMessage) (ending : Ending)
      (before after : Batch W) : Type 0 where
    pub chunks : List (List ParsedMessage)
    pub cut : Cut
    pub left : List ParsedMessage
    pub order : concat chunks ++ (cut_chunk cut ++ left) ≡ parsed
    pub fair : All (IsChunk engine batch_size) chunks
    pub log : after.effects ≡ before.effects ++ (blocks chunks ++ cut_block cut)
    pub writes : Writes round ending cut chunks left before.world after.world

  pub Run-none :
      {round : ℕ} {parsed : List ParsedMessage} {ending : Ending} {before after : Batch W}
      → (cut : Cut) (left : List ParsedMessage) → cut_chunk cut ++ left ≡ parsed
      → Ended round ending cut left before.world after.world
      → after.effects ≡ before.effects ++ cut_block cut
      → Run round parsed ending before after
  Run-none cut left order h e = record {
    chunks = [];
    cut = cut;
    left = left;
    order = order;
    fair = tt;
    log = e;
    writes = h;
  }

  pub Run-cons :
      {round : ℕ} {parsed : List ParsedMessage} {ending : Ending} {before middle after : Batch W}
      → (chunk left : List ParsedMessage) → IsChunk engine batch_size chunk
      → chunk ++ left ≡ parsed
      → Written deps topic partition chunk before.world middle.world
      → middle.effects ≡ before.effects ++ block chunk
      → Run (suc round) left ending middle after
      → Run round parsed ending before after
  Run-cons {before} {middle} chunk left fair order written e r = record {
    chunks = chunk ∷ r.chunks;
    cut = r.cut;
    left = r.left;
    order =
        append_assoc chunk (concat r.chunks) (cut_chunk r.cut ++ r.left)
        ∙ ap (λ l. chunk ++ l) r.order
        ∙ order;
    fair = (fair, r.fair);
    log =
        r.log
        ∙ ap (λ l. l ++ (blocks r.chunks ++ cut_block r.cut)) e
        ∙ append_assoc before.effects (block chunk) (blocks r.chunks ++ cut_block r.cut)
        ∙ ap (λ l. before.effects ++ l)
            (sym (append_assoc (block chunk) (blocks r.chunks) (cut_block r.cut)));
    writes = (middle.world, written, r.writes);
  }
