-- ===== src/BqSink/Canonical/Daily/Totals.antt =====
-- What post_daily and creator_daily add up to: bq-sink/src/canonicalizer.ts.
use escld.Prelude.{
  ℕ, String, ◌≡◌, refl, sym, ap, ◌∙◌, inl, inr, Bool, Option, some, List, [], ◌∷◌, ◌++◌, map,
  if◌then◌else◌, Option-cases, length,
}
use mathlib.Core.Path.{fun_ext}
use escld.BqSink.Sql.{where_true, is_not_null}
use escld.BqSink.Canonical.Rows.{Functions}
use escld.BqSink.Canonical.Engagement.{Cell, group_of, count_if, Engagement, Follows}
use escld.BqSink.Canonical.Outcomes.{ImpressionOutcome}
use escld.BqSink.Canonical.Daily.{
  by_cell, recent, OutcomeAgg, aggregate, outcome_agg, at_cell, agg_cell, engagement_cell,
  follows_cell, column, PostDaily, post_row, post_rows,
}
use escld.BqSink.Canonical.Daily.Cells.{total}
use escld.BqSink.Canonical.Creators.{
  CreatorDaily, creator_row, creator_rows, post_engagement_by_author, with_author, author_cell,
}
use escld.BqSink.Canonical.Daily.Rollups.{
  joined, joined-total, total-map, total-one, total-count_if,
}

-- The rows of a text column that is not NULL, without their cells.
by_cell-some :
    (f : ImpressionOutcome → String) (os : List ImpressionOutcome)
    → map (λ r. r.1) (by_cell (λ o. some (f o)) os) ≡ os
unfolding by_cell
by_cell-some f [] = refl
by_cell-some f (o ∷ os) = rw (by_cell-some f os) refl

abbrev pub has_author : ImpressionOutcome → Bool
has_author o = is_not_null o.author_id

by_cell-author :
    (os : List ImpressionOutcome)
    → map (λ r. r.1) (by_cell (λ o. o.author_id) os) ≡ where_true has_author os
unfolding by_cell
by_cell-author [] = refl
by_cell-author (o ∷ os) = elim (Option-cases o.author_id) [
  | inl e ↦ rw e (by_cell-author os)
  | inr (a, e) ↦ simp (e, by_cell-author os)
]

module _ (bq : Functions) (now days : ℕ) (outcomes : List ImpressionOutcome) where
  abbrev pub seen : List ImpressionOutcome
  seen = recent now days outcomes

  abbrev of_posts : List (Cell × ImpressionOutcome)
  of_posts = by_cell (λ o. some o.post_id) seen

  post_column :
      (engagement : List Engagement) (weight : ImpressionOutcome → ℕ) (field : OutcomeAgg → ℕ)
      (column_of : PostDaily → ℕ)
      → ((c : Cell) → field (aggregate bq of_posts c) ≡ total weight (group_of c of_posts))
      → ((c : Cell)
          → column_of (post_row now (outcome_agg bq of_posts) engagement c)
            ≡ column (at_cell agg_cell c (outcome_agg bq of_posts)) field 0)
      → total column_of (post_rows bq now days outcomes engagement) ≡ total weight seen
  unfolding post_rows
  post_column engagement weight field column_of is_total reads =
      total-map column_of (post_row now (outcome_agg bq of_posts) engagement)
        (joined bq of_posts (map engagement_cell engagement))
      ∙ ap (λ f. total f (joined bq of_posts (map engagement_cell engagement))) (fun_ext reads)
      ∙ joined-total bq of_posts (map engagement_cell engagement) weight field is_total
      ∙ ap (total weight) (by_cell-some (λ o. o.post_id) seen)

  -- What post_daily counts.
  post_rows-totals :
      (engagement : List Engagement)
      → (total (λ d. d.qualified_impressions) (post_rows bq now days outcomes engagement)
          ≡ length seen)
        × (total (λ d. d.meaningful_count) (post_rows bq now days outcomes engagement)
            ≡ count_if (λ o. o.meaningful) seen)
        × (total (λ d. d.hide_count) (post_rows bq now days outcomes engagement)
            ≡ count_if (λ o. o.hidden) seen)
  unfolding aggregate post_row
  post_rows-totals engagement = (
    post_column engagement (λ o. 1) (λ a. a.qualified_impressions) (λ d. d.qualified_impressions)
          (λ c. sym (total-one (group_of c of_posts))) (λ c. refl)
        ∙ total-one seen,
    post_column engagement (λ o. if o.meaningful then 1 else 0) (λ a. a.meaningful_count)
          (λ d. d.meaningful_count)
          (λ c. sym (total-count_if (λ o. o.meaningful) (group_of c of_posts))) (λ c. refl)
        ∙ total-count_if (λ o. o.meaningful) seen,
    post_column engagement (λ o. if o.hidden then 1 else 0) (λ a. a.hide_count) (λ d. d.hide_count)
          (λ c. sym (total-count_if (λ o. o.hidden) (group_of c of_posts))) (λ c. refl)
        ∙ total-count_if (λ o. o.hidden) seen,
  )

  abbrev of_creators : List (Cell × ImpressionOutcome)
  of_creators = by_cell (λ o. o.author_id) seen

  module _ (engaged : List (Option String × Engagement)) (follows : List Follows) where
    abbrev others : List Cell
    others =
        map author_cell (post_engagement_by_author (with_author engaged))
        ++ map follows_cell follows

    creator_column :
        (weight : ImpressionOutcome → ℕ) (field : OutcomeAgg → ℕ) (column_of : CreatorDaily → ℕ)
        → ((c : Cell) → field (aggregate bq of_creators c) ≡ total weight (group_of c of_creators))
        → ((c : Cell)
            → column_of (
                creator_row now
                  (outcome_agg bq of_creators)
                  (post_engagement_by_author (with_author engaged))
                  follows
                  c)
              ≡ column (at_cell agg_cell c (outcome_agg bq of_creators)) field 0)
        → total column_of (creator_rows bq now days outcomes engaged follows)
          ≡ total weight (where_true has_author seen)
    unfolding creator_rows
    creator_column weight field column_of is_total reads =
        total-map column_of
          (creator_row now (outcome_agg bq of_creators)
            (post_engagement_by_author (with_author engaged)) follows)
          (joined bq of_creators others)
        ∙ ap (λ f. total f (joined bq of_creators others)) (fun_ext reads)
        ∙ joined-total bq of_creators others weight field is_total
        ∙ ap (total weight) (by_cell-author seen)

    -- What creator_daily counts.
    creator_rows-totals :
        (total (λ d. d.qualified_impressions) (creator_rows bq now days outcomes engaged follows)
          ≡ length (where_true has_author seen))
        × (total (λ d. d.meaningful_count) (creator_rows bq now days outcomes engaged follows)
            ≡ count_if (λ o. o.meaningful) (where_true has_author seen))
        × (total (λ d. d.hide_count) (creator_rows bq now days outcomes engaged follows)
            ≡ count_if (λ o. o.hidden) (where_true has_author seen))
    unfolding aggregate creator_row
    creator_rows-totals = (
      creator_column (λ o. 1) (λ a. a.qualified_impressions) (λ d. d.qualified_impressions)
            (λ c. sym (total-one (group_of c of_creators))) (λ c. refl)
          ∙ total-one (where_true has_author seen),
      creator_column (λ o. if o.meaningful then 1 else 0) (λ a. a.meaningful_count)
            (λ d. d.meaningful_count)
            (λ c. sym (total-count_if (λ o. o.meaningful) (group_of c of_creators))) (λ c. refl)
          ∙ total-count_if (λ o. o.meaningful) (where_true has_author seen),
      creator_column (λ o. if o.hidden then 1 else 0) (λ a. a.hide_count) (λ d. d.hide_count)
            (λ c. sym (total-count_if (λ o. o.hidden) (group_of c of_creators))) (λ c. refl)
          ∙ total-count_if (λ o. o.hidden) (where_true has_author seen),
    )

    -- The rows that are selected for the MERGE into post_daily count every outcome of the look-back
    -- once, and those for creator_daily every one whose author is known: the impressions, those that
    -- were meaningful, and those that led to hiding the post. What the tables held before, and rows of
    -- days that the look-back no longer has, is not counted.
    pub daily-totals :
        (engagement : List Engagement)
        → ((total (λ d. d.qualified_impressions) (post_rows bq now days outcomes engagement)
              ≡ length seen)
            × (total (λ d. d.meaningful_count) (post_rows bq now days outcomes engagement)
                ≡ count_if (λ o. o.meaningful) seen)
            × (total (λ d. d.hide_count) (post_rows bq now days outcomes engagement)
                ≡ count_if (λ o. o.hidden) seen))
          × ((total
                  (λ d. d.qualified_impressions)
                  (creator_rows bq now days outcomes engaged follows)
                ≡ length (where_true has_author seen))
              × (total (λ d. d.meaningful_count) (creator_rows bq now days outcomes engaged follows)
                  ≡ count_if (λ o. o.meaningful) (where_true has_author seen))
              × (total (λ d. d.hide_count) (creator_rows bq now days outcomes engaged follows)
                  ≡ count_if (λ o. o.hidden) (where_true has_author seen)))
    daily-totals engagement = (post_rows-totals engagement, creator_rows-totals)
