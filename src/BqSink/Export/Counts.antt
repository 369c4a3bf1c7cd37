-- ===== src/BqSink/Export/Counts.antt =====
-- The counters of bq-sink/src/insights-export.ts.
use escld.Prelude.{
  ℕ, zero, suc, ◌+◌, ◌≤◌, ◌<◌, String, ◌≡◌, refl, ap, ◌∙◌, List, [], ◌∷◌, ◌++◌, map, arith, length,
  take, drop, concat, length-append, length-drop, take-append-drop, Result, ok, err,
}
use escld.Js.Int.{ℤ, pos, pos_part, neg_part, sub_ℕ, ◌+ℤ◌, +ℤ_parts, eq_of_parts}
use escld.BqSink.Export.{
  Item, batch_write_limit, chunks, chunk, AttributeValue, to_attribute_map, Written, count_batch,
  write_batches, write_insights_items,
}

chunks-cover {ℓ} :
    {A : Type ℓ} (fuel size : ℕ) (items : List A)
    → 0 < size
    → length items ≤ fuel
    → concat (chunks fuel size items) ≡ items
chunks-cover zero size [] p h = refl
chunks-cover zero size (item ∷ items) p h = absurd (omega (arith, h))
chunks-cover (suc fuel) size [] p h = refl
chunks-cover (suc fuel) size (item ∷ items) p h =
    ap (λ xs. take size (item ∷ items) ++ xs)
      (chunks-cover fuel size (drop size (item ∷ items)) p
        (omega (arith, p, h, length-drop size (item ∷ items))))
    ∙ take-append-drop size (item ∷ items)

-- What was counted, together.
abbrev pub total : Written → ℤ
total counts = counts.written +ℤ pos counts.failed

module _ {W : Type 0} (batch_write : List (List (String × AttributeValue)) → W → Result ℕ × W) where
  -- The total as natural numbers: written and failed on one side, what is due on the other.
  abbrev Balanced : Written → ℕ → Type 0
  Balanced counts due = pos_part counts.written + counts.failed ≡ neg_part counts.written + due

  count_batch-Balanced :
      (size : ℕ) (answer : Result ℕ) (counts : Written) (due : ℕ)
      → Balanced counts due
      → Balanced (count_batch batch_write size answer counts) (due + size)
  count_batch-Balanced size err counts due h = omega (arith, h)
  count_batch-Balanced size (ok unprocessed) counts due h =
      ground (arith, h, +ℤ_parts counts.written (sub_ℕ size unprocessed))

  write_batches-Balanced :
      (batches : List (List Item)) (counts : Written) (w : W) (due : ℕ)
      → Balanced counts due
      → Balanced (write_batches batch_write batches counts w).0 (due + length (concat batches))
  unfolding write_batches
  write_batches-Balanced [] counts w due h = omega (arith, h)
  write_batches-Balanced (batch ∷ batches) counts w due h =
      let counted =
        count_batch batch_write (length batch) (batch_write (map to_attribute_map batch) w).0
          counts in
      let rest =
        write_batches-Balanced batches counted (batch_write (map to_attribute_map batch) w).1
          (due + length batch)
          (count_batch-Balanced (length batch) (batch_write (map to_attribute_map batch) w).0 counts
            due h) in
      omega (arith, rest, length-append batch (concat batches))

  -- Every item is counted as written or as failed, once, whatever DynamoDB answers.
  pub write_insights_items-total :
      (items : List Item) (w : W)
      → total (write_insights_items batch_write items w).0 ≡ pos (length items)
  unfolding write_insights_items chunk
  write_insights_items-total items w =
      let batches = chunks (length items) batch_write_limit items in
      let start : Written = record { written = pos 0; failed = 0 } in
      let out = (write_batches batch_write batches start w).0 in
      eq_of_parts (total out) (pos (length items)) (
        omega (
          arith,
          write_batches-Balanced batches start w 0 (omega arith),
          +ℤ_parts out.written (pos out.failed),
          ap length
              (chunks-cover (length items) batch_write_limit items (omega arith) (omega arith)),
        ))
