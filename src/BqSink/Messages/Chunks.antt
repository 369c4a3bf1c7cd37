-- ===== src/BqSink/Messages/Chunks.antt =====
-- How `handleBatch` of bq-sink/src/message-handler.ts cuts a batch, and what it leaves outside.
use escld.Prelude.{
  ℕ, suc, ◌+◌, ◌≤◌, ◌≡◌, refl, ◌⊎◌, inl, true, List, [], ◌∷◌, ◌++◌, arith, max, length, All,
}
use escld.Js.Json.{Engine}
use escld.BqSink.Messages.Parse.{ParsedMessage}
use escld.BqSink.Messages.Batch.{max_batch_bytes, same_destination, estimate_row_bytes, gather}

module _ (engine : Engine) (batch_size : ℕ) where
  abbrev pub total_bytes : List ParsedMessage → ℕ
  total_bytes [] = 0
  total_bytes (p ∷ ps) = estimate_row_bytes engine p + total_bytes ps

  -- One write: a message and those behind it that have its destination, within both limits. A
  -- message that is too large by itself goes alone.
  abbrev pub IsChunk : List ParsedMessage → Type 0
  IsChunk [] = ⊥
  IsChunk (first ∷ more) =
      All (λ p. same_destination first p ≡ true) more
      × (suc (length more) ≤ max 1 batch_size)
      × ((more ≡ []) ⊎ (total_bytes (first ∷ more) ≤ max_batch_bytes))

  record Gathered (first : ParsedMessage) (count bytes : ℕ) (rest more left : List ParsedMessage)
      : Type 0 where
    order : more ++ left ≡ rest
    alike : All (λ p. same_destination first p ≡ true) more
    counted : count + length more ≤ max count batch_size
    light : (more ≡ []) ⊎ (bytes + total_bytes more ≤ max_batch_bytes)

  gather-Gathered :
      (first : ParsedMessage) (count bytes : ℕ) (rest : List ParsedMessage)
      → Gathered first count bytes rest
          (gather engine batch_size first count bytes rest).0
          (gather engine batch_size first count bytes rest).1
  unfolding gather
  gather-Gathered first count bytes [] = record {
    order = refl;
    alike = tt;
    counted = omega arith;
    light = inl refl;
  }
  gather-Gathered first count bytes (next ∷ rest) =
      let ih = gather-Gathered first (suc count) (bytes + estimate_row_bytes engine next) rest in
      record {
        order = ground (arith, ih.order);
        alike = ground (arith, ih.alike);
        counted = ground (arith, ih.counted);
        light = ground (arith, ih.light);
      }

  pub gather-IsChunk :
      (first : ParsedMessage) (rest : List ParsedMessage)
      → IsChunk
          (first ∷ (gather engine batch_size first 1 (estimate_row_bytes engine first) rest).0)
  gather-IsChunk first rest =
      let g = gather-Gathered first 1 (estimate_row_bytes engine first) rest in
      (g.alike, omega (arith, g.counted), g.light)

  pub gather-append :
      (first : ParsedMessage) (rest : List ParsedMessage)
      → (gather engine batch_size first 1 (estimate_row_bytes engine first) rest).0
          ++ (gather engine batch_size first 1 (estimate_row_bytes engine first) rest).1
        ≡ rest
  gather-append first rest = (gather-Gathered first 1 (estimate_row_bytes engine first) rest).order
