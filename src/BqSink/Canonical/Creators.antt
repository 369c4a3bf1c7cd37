-- ===== src/BqSink/Canonical/Creators.antt =====
-- creator_daily and experiment_daily of bq-sink/src/canonicalizer.ts.
use escld.Prelude.{
  ℕ, ◌*◌, String, Bool, false, not, ◌&&◌, Option, none, some, List, [], ◌∷◌, ◌++◌, map, ◌==◌,
  if◌then◌else◌, any, Result, err,
}
use escld.Js.Int.{ℤ, pos}
use escld.BqSink.Sql.{where_true, is_not_null, merge, equal}
use escld.BqSink.Canonical.Rows.{Event, Functions, json_value, microseconds_per_day}
use escld.BqSink.Canonical.Engagement.{
  Cell, same_cell, cells, group_of, is_type, Engagement, Follows, PostAuthor,
}
use escld.BqSink.Canonical.Outcomes.{ImpressionOutcome}
use escld.BqSink.Canonical.Daily.{
  sum, by_cell, recent, OutcomeAgg, outcome_agg, at_cell, agg_cell, follows_cell, column,
}

-- A row of post_engagement_by_author.
pub record AuthorEngagement : Type 0 where
  pub cell : Cell
  pub like_count : ℤ
  pub comment_count : ℤ

abbrev pub author_cell : AuthorEngagement → Cell
author_cell g = g.cell

-- The join of raw_engagement_daily with the creations of the post in canonical_events and with its
-- author.
unfoldable pub creations : Functions → List Event → String → List Event
creations bq events post =
    where_true
      (λ e. is_type "post.created" e && equal (json_value bq e.payload "postId") (some post)) events

abbrev pub authors_of : String → List PostAuthor → List (Option String)
authors_of post authors = map (λ a. a.author_id) (where_true (λ a. a.post_id == post) authors)

abbrev pub repeat {ℓ κ} : {A : Type ℓ} {B : Type κ} → List A → List B → List B
repeat [] ys = []
repeat (x ∷ xs) ys = ys ++ repeat xs ys

unfoldable pub authored :
    Functions → List Event → List PostAuthor → List Engagement → List (Option String × Engagement)
unfolding creations
authored bq events authors [] = []
authored bq events authors (g ∷ gs) =
    map (λ a. (a, g)) (repeat (creations bq events g.post_id) (authors_of g.post_id authors))
    ++ authored bq events authors gs

abbrev pub with_author : List (Option String × Engagement) → List (Cell × Engagement)
with_author [] = []
with_author ((none, g) ∷ rows) = with_author rows
with_author ((some a, g) ∷ rows) = ((a, g.day), g) ∷ with_author rows

unfoldable pub post_engagement_by_author : List (Cell × Engagement) → List AuthorEngagement
unfolding sum cells
post_engagement_by_author rows =
    map
      (λ cell. record {
        cell = cell;
        like_count = sum (map (λ g. g.like_count) (group_of cell rows));
        comment_count = sum (map (λ g. g.comment_count) (group_of cell rows));
      })
      (cells (map (λ r. r.0) rows))

pub record CreatorDaily : Type 0 where
  pub cell : Cell
  pub qualified_reach : ℕ
  pub qualified_impressions : ℕ
  pub meaningful_count : ℕ
  pub hide_count : ℕ
  pub distinct_posts : ℕ
  pub watch_time_ms : ℤ
  pub like_count : ℤ
  pub comment_count : ℤ
  pub new_follower_count : ℤ
  pub as_of : ℕ
  pub provisional : Bool
  pub materialized_at : ℕ

unfoldable pub creator_row :
    ℕ → List OutcomeAgg → List AuthorEngagement → List Follows → Cell → CreatorDaily
creator_row now aggs engagement follows cell =
    let agg = at_cell agg_cell cell aggs in
    let raw = at_cell author_cell cell engagement in
    record {
      cell = cell;
      qualified_reach = column agg (λ a. a.qualified_reach) 0;
      qualified_impressions = column agg (λ a. a.qualified_impressions) 0;
      meaningful_count = column agg (λ a. a.meaningful_count) 0;
      hide_count = column agg (λ a. a.hide_count) 0;
      distinct_posts = column agg (λ a. a.distinct_posts) 0;
      watch_time_ms = column agg (λ a. a.watch_time_ms) (pos 0);
      like_count = column raw (λ g. g.like_count) (pos 0);
      comment_count = column raw (λ g. g.comment_count) (pos 0);
      new_follower_count =
          column (at_cell follows_cell cell follows) (λ f. f.new_follower_count) (pos 0);
      as_of = column agg (λ a. a.as_of) (cell.1 * microseconds_per_day);
      provisional = column agg (λ a. a.provisional) false;
      materialized_at = now;
    }

unfoldable pub creator_rows :
    Functions
    → (now days : ℕ) → List ImpressionOutcome
    → List (Option String × Engagement)
    → List Follows
    → List CreatorDaily
unfolding outcome_agg post_engagement_by_author creator_row by_cell cells
creator_rows bq now days outcomes engaged follows =
    let aggs = outcome_agg bq (by_cell (λ o. o.author_id) (recent now days outcomes)) in
    let engagement = post_engagement_by_author (with_author engaged) in
    map (creator_row now aggs engagement follows)
      (cells (map agg_cell aggs ++ (map author_cell engagement ++ map follows_cell follows)))

abbrev pub creator_cell : CreatorDaily → Cell
creator_cell d = d.cell

-- Engagement whose author is NULL makes a row with a NULL in a column that is NOT NULL.
unfoldable pub merge_creator_daily :
    Functions
    → (now days : ℕ) → List ImpressionOutcome
    → List Event
    → List PostAuthor
    → List Engagement
    → List Follows
    → List CreatorDaily
    → Result (List CreatorDaily)
unfolding creator_rows authored
merge_creator_daily bq now days outcomes events authors engagement follows target =
    let engaged = authored bq events authors engagement in
    if any (λ r. not (is_not_null r.0)) engaged
    then err
    else merge (λ s t. same_cell (creator_cell t) (creator_cell s))
        (λ s t. record s { cell = t.cell }) (λ s. s)
        (creator_rows bq now days outcomes engaged follows) target
