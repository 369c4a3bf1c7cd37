-- ===== src/BqSink/Canonical/Daily.antt =====
-- post_daily, creator_daily and experiment_daily: the last part of bq-sink/src/canonicalizer.ts.
pub mod Cells
pub mod Rollups
pub mod Totals
pub mod Written
use escld.Prelude.{
  ℕ, ◌*◌, String, Bool, false, Option, none, some, List, [], ◌∷◌, ◌++◌, map, if◌then◌else◌, length,
  any, Result,
}
use escld.Js.Int.{ℤ, pos, ◌+ℤ◌}
use escld.BqSink.Sql.{where_true, distinct, merge, greatest}
use escld.BqSink.Canonical.Rows.{Functions, within_days, microseconds_per_day}
use escld.BqSink.Canonical.Engagement.{
  Cell, same_cell, cells, group_of, count_if, day_of, Engagement, Follows,
}
use escld.BqSink.Canonical.Outcomes.{ImpressionOutcome}

unfoldable pub sum : List ℤ → ℤ
unfolding ◌+ℤ◌
sum [] = pos 0
sum (n ∷ ns) = n +ℤ sum ns

-- The outcomes within the look-back, by a text and the day of the impression.
unfoldable pub by_cell :
    (ImpressionOutcome → Option String) → List ImpressionOutcome → List (Cell × ImpressionOutcome)
by_cell key [] = []
by_cell key (o ∷ os) = elim (key o) [
  | none ↦ by_cell key os
  | some k ↦ ((k, day_of o.impression_at), o) ∷ by_cell key os
]

abbrev pub recent : (now days : ℕ) → List ImpressionOutcome → List ImpressionOutcome
recent now days = where_true (λ o. within_days now days o.impression_at)

-- The columns of outcome_agg that the two statements share; `distinct_posts` is creator_daily's
-- and `median_dwell_ms` post_daily's.
pub record OutcomeAgg : Type 0 where
  pub cell : Cell
  pub qualified_reach : ℕ
  pub qualified_impressions : ℕ
  pub meaningful_count : ℕ
  pub hide_count : ℕ
  pub median_dwell_ms : Option ℤ
  pub distinct_posts : ℕ
  pub watch_time_ms : ℤ
  pub as_of : ℕ
  pub provisional : Bool

abbrev pub last_matured : List ImpressionOutcome → ℕ
last_matured os = greatest 0 (map (λ o. o.label_matured_at) os)

unfoldable pub aggregate : Functions → List (Cell × ImpressionOutcome) → Cell → OutcomeAgg
unfolding sum
aggregate bq rows cell =
    let os = group_of cell rows in
    record {
      cell = cell;
      qualified_reach = length (distinct (map (λ o. o.actor_id) os));
      qualified_impressions = length os;
      meaningful_count = count_if (λ o. o.meaningful) os;
      hide_count = count_if (λ o. o.hidden) os;
      median_dwell_ms = bq.approx_median (map (λ o. o.active_dwell_ms) os);
      distinct_posts = length (distinct (map (λ o. o.post_id) os));
      watch_time_ms = sum (map (λ o. o.watch_time_ms) os);
      as_of = last_matured os;
      provisional = any (λ o. o.provisional) os;
    }

unfoldable pub outcome_agg : Functions → List (Cell × ImpressionOutcome) → List OutcomeAgg
unfolding aggregate cells
outcome_agg bq rows = map (aggregate bq rows) (cells (map (λ r. r.0) rows))

-- The row of a table for a cell; FULL OUTER JOIN … USING has one row for each cell of a side.
module _ {ℓ} {A : Type ℓ} (cell_of : A → Cell) where
  abbrev pub at_cell : Cell → List A → Option A
  at_cell cell [] = none
  at_cell cell (r ∷ rows) = if same_cell (cell_of r) cell then some r else at_cell cell rows

abbrev pub agg_cell : OutcomeAgg → Cell
agg_cell a = a.cell

abbrev pub engagement_cell : Engagement → Cell
engagement_cell g = (g.post_id, g.day)

abbrev pub follows_cell : Follows → Cell
follows_cell f = (f.author_id, f.day)

-- `IFNULL(row.column, default)`.
abbrev pub column {ℓ κ} : {A : Type ℓ} {B : Type κ} → Option A → (A → B) → B → B
column none f default = default
column (some a) f default = f a

pub record PostDaily : Type 0 where
  pub cell : Cell
  pub qualified_reach : ℕ
  pub qualified_impressions : ℕ
  pub meaningful_count : ℕ
  pub hide_count : ℕ
  pub median_dwell_ms : Option ℤ
  pub watch_time_ms : ℤ
  pub like_count : ℤ
  pub comment_count : ℤ
  pub as_of : ℕ
  pub provisional : Bool
  pub materialized_at : ℕ

unfoldable pub post_row : ℕ → List OutcomeAgg → List Engagement → Cell → PostDaily
post_row now aggs engagement cell =
    let agg = at_cell agg_cell cell aggs in
    let raw = at_cell engagement_cell cell engagement in
    record {
      cell = cell;
      qualified_reach = column agg (λ a. a.qualified_reach) 0;
      qualified_impressions = column agg (λ a. a.qualified_impressions) 0;
      meaningful_count = column agg (λ a. a.meaningful_count) 0;
      hide_count = column agg (λ a. a.hide_count) 0;
      median_dwell_ms = column agg (λ a. a.median_dwell_ms) none;
      watch_time_ms = column agg (λ a. a.watch_time_ms) (pos 0);
      like_count = column raw (λ g. g.like_count) (pos 0);
      comment_count = column raw (λ g. g.comment_count) (pos 0);
      as_of = column agg (λ a. a.as_of) (cell.1 * microseconds_per_day);
      provisional = column agg (λ a. a.provisional) false;
      materialized_at = now;
    }

unfoldable pub post_rows :
    Functions → (now days : ℕ) → List ImpressionOutcome → List Engagement → List PostDaily
unfolding outcome_agg post_row by_cell cells
post_rows bq now days outcomes engagement =
    let aggs = outcome_agg bq (by_cell (λ o. some o.post_id) (recent now days outcomes)) in
    map (post_row now aggs engagement) (cells (map agg_cell aggs ++ map engagement_cell engagement))

abbrev pub post_cell : PostDaily → Cell
post_cell d = d.cell

-- Both branches of the MERGE set every column but the key from the source.
unfoldable pub merge_post_daily :
    Functions
    → (now days : ℕ) → List ImpressionOutcome
    → List Engagement
    → List PostDaily
    → Result (List PostDaily)
unfolding post_rows
merge_post_daily bq now days outcomes engagement =
    merge (λ s t. same_cell (post_cell t) (post_cell s)) (λ s t. record s { cell = t.cell })
      (λ s. s) (post_rows bq now days outcomes engagement)
