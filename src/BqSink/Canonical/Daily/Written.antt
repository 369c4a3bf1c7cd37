-- ===== src/BqSink/Canonical/Daily/Written.antt =====
-- What the MERGEs into post_daily and creator_daily leave in the tables: bq-sink/src/canonicalizer.ts.
use escld.Prelude.{
  ℕ, String, ◌≡◌, refl, ap, false, not, Option, some, List, ◌++◌, map, length, any, All, ok,
}
use escld.BqSink.Sql.{where_true, is_not_null}
use escld.BqSink.Sql.Merges.{AtMostOne-rows}
use escld.BqSink.Sql.Written.{In, merge-writes}
use escld.BqSink.Canonical.Rows.{Event, Functions}
use escld.BqSink.Canonical.Engagement.{
  Cell, cells, same_cell, count_if, Engagement, Follows, PostAuthor,
}
use escld.BqSink.Canonical.Outcomes.{ImpressionOutcome}
use escld.BqSink.Canonical.Daily.{
  by_cell, recent, outcome_agg, agg_cell, engagement_cell, follows_cell, PostDaily, post_cell,
  post_row, post_rows, merge_post_daily,
}
use escld.BqSink.Canonical.Daily.Cells.{total, same_cell_iff}
use escld.BqSink.Canonical.Daily.Totals.{seen, has_author, daily-totals}
use escld.BqSink.Canonical.Creators.{
  with_author, post_engagement_by_author, author_cell, CreatorDaily, creator_cell, creator_row,
  creator_rows, authored, merge_creator_daily,
}

module _ (bq : Functions) (now days : ℕ) (outcomes : List ImpressionOutcome) (events : List Event)
    (authors : List PostAuthor) (engagement : List Engagement) (follows : List Follows) where
  abbrev engaged : List (Option String × Engagement)
  engaged = authored bq events authors engagement

  abbrev pub posts : List PostDaily
  posts = post_rows bq now days outcomes engagement

  abbrev pub creators : List CreatorDaily
  creators = creator_rows bq now days outcomes engaged follows

  post_row-cell :
      (k : Cell)
      → post_cell (
          post_row now
            (outcome_agg bq (by_cell (λ o. some o.post_id) (recent now days outcomes)))
            engagement
            k)
        ≡ k
  unfolding post_row
  post_row-cell k = refl

  creator_row-cell :
      (k : Cell)
      → creator_cell (
          creator_row now
            (outcome_agg bq (by_cell (λ o. o.author_id) (recent now days outcomes)))
            (post_engagement_by_author (with_author engaged))
            follows
            k)
        ≡ k
  unfolding creator_row
  creator_row-cell k = refl

  posts-written :
      (target : List PostDaily)
      → (ts : List PostDaily) × (merge_post_daily bq now days outcomes engagement target ≡ ok ts)
        × All (λ r. In r ts) posts
  unfolding merge_post_daily post_rows cells
  posts-written target =
      let aggs = outcome_agg bq (by_cell (λ o. some o.post_id) (recent now days outcomes)) in
      merge-writes (λ s t. same_cell (post_cell t) (post_cell s))
        (λ s t. record s { cell = t.cell }) posts
        (AtMostOne-rows same_cell same_cell_iff post_cell (post_row now aggs engagement)
          post_row-cell (map agg_cell aggs ++ map engagement_cell engagement))
        (λ s t hit. ap (λ c. record s { cell = c }) ((same_cell_iff t.cell s.cell).0 hit)) target

  creators-written :
      (target : List CreatorDaily)
      → any (λ r. not (is_not_null r.0)) engaged ≡ false
      → (ts : List CreatorDaily) × (merge_creator_daily bq now days outcomes events authors
            engagement follows target
          ≡ ok ts)
        × All (λ r. In r ts) creators
  unfolding merge_creator_daily creator_rows cells
  creators-written target h =
      let aggs = outcome_agg bq (by_cell (λ o. o.author_id) (recent now days outcomes)) in
      let by_author = post_engagement_by_author (with_author engaged) in
      rw (h, merge_creator_daily)
        (merge-writes (λ s t. same_cell (creator_cell t) (creator_cell s))
          (λ s t. record s { cell = t.cell }) creators
          (AtMostOne-rows same_cell same_cell_iff creator_cell
            (creator_row now aggs by_author follows) creator_row-cell
            (map agg_cell aggs ++ (map author_cell by_author ++ map follows_cell follows)))
          (λ s t hit. ap (λ c. record s { cell = c }) ((same_cell_iff t.cell s.cell).0 hit)) target)

  -- The MERGE into post_daily leaves every selected row in the table, whatever the table held, and so
  -- does the MERGE into creator_daily where all engagement has an author. The selected rows of the
  -- first count every outcome of the look-back once, and those of the second every one whose author
  -- is known: the impressions, those that were meaningful, and those that led to hiding the post.
  pub daily-written :
      (old_posts : List PostDaily) (old_creators : List CreatorDaily)
      → any (λ r. not (is_not_null r.0)) engaged ≡ false
      → ((ts : List PostDaily) × (merge_post_daily bq now days outcomes engagement old_posts
            ≡ ok ts)
          × All (λ r. In r ts) posts)
        × ((ts : List CreatorDaily) × (merge_creator_daily bq now days outcomes events authors
                engagement follows old_creators
              ≡ ok ts)
            × All (λ r. In r ts) creators)
        × (total (λ d. d.qualified_impressions) posts ≡ length (seen bq now days outcomes))
        × (total (λ d. d.meaningful_count) posts
            ≡ count_if (λ o. o.meaningful) (seen bq now days outcomes))
        × (total (λ d. d.hide_count) posts ≡ count_if (λ o. o.hidden) (seen bq now days outcomes))
        × (total (λ d. d.qualified_impressions) creators
            ≡ length (where_true has_author (seen bq now days outcomes)))
        × (total (λ d. d.meaningful_count) creators
            ≡ count_if (λ o. o.meaningful) (where_true has_author (seen bq now days outcomes)))
        × (total (λ d. d.hide_count) creators
            ≡ count_if (λ o. o.hidden) (where_true has_author (seen bq now days outcomes)))
  daily-written old_posts old_creators h =
      let ((a, b, c), (d, e, f)) = daily-totals bq now days outcomes engaged follows engagement in
      (posts-written old_posts, creators-written old_creators h, a, b, c, d, e, f)
