-- ===== src/FeedWorker/Fanout/Coverage.antt =====
-- The batches of `fanout` hold every item once, in at most 25 items each.
use escld.Prelude.{
  ℕ, zero, suc, ◌≤◌, ◌<◌, String, ◌≡◌, refl, ap, ◌∙◌, List, [], ◌∷◌, ◌++◌, map, arith, length, take,
  drop, All, concat, length-take, length-drop, take-append-drop,
}
use escld.FeedWorker.Dynamo.{FeedItem, batch_size, feed_item, slices, batches_of, write_batches}

slices-cover :
    (fuel : ℕ) (items : List FeedItem)
    → length items ≤ fuel
    → (concat (slices fuel items) ≡ items)
      × All (λ batch. (0 < length batch) × (length batch ≤ batch_size)) (slices fuel items)
slices-cover zero [] h = (refl, tt)
slices-cover zero (item ∷ items) h = absurd (omega (arith, h))
slices-cover (suc fuel) [] h = (refl, tt)
slices-cover (suc fuel) (item ∷ items) h =
    let (covers, sized) =
      slices-cover fuel (drop batch_size (item ∷ items))
        (omega (arith, h, length-drop batch_size (item ∷ items))) in
    (
      ap (λ xs. take batch_size (item ∷ items) ++ xs) covers
          ∙ take-append-drop batch_size (item ∷ items),
      (
        (
          omega (arith, length-take batch_size (item ∷ items)),
          omega (arith, length-take batch_size (item ∷ items)),
        ),
        sized,
      ),
    )

-- The batches, one after the other, are the items of the recipients in their order; none is empty and
-- none has more than the 25 items that a BatchWriteItem takes.
pub write_batches-cover :
    (post_id author_id created_at : String) (recipient_ids : List String)
    → (concat (write_batches post_id author_id created_at recipient_ids)
        ≡ map (feed_item post_id author_id created_at) recipient_ids)
      × All
          (λ batch. (0 < length batch) × (length batch ≤ batch_size))
          (write_batches post_id author_id created_at recipient_ids)
unfolding write_batches batches_of
write_batches-cover post_id author_id created_at recipient_ids =
    let items = map (feed_item post_id author_id created_at) recipient_ids in
    slices-cover (length items) items (omega arith)
