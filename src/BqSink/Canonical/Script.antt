-- ===== src/BqSink/Canonical/Script.antt =====
-- `canonicalMergeSql` of bq-sink/src/canonicalizer.ts: its statements, in their order.
pub mod Finishes
pub mod Reconciled
use Prim.Native.Char.{code}
use Prim.Native.String.{◌∷◌}
use escld.Prelude.{
  ℕ, ◌+◌, String, Bool, true, false, ◌&&◌, ◌||◌, if◌then◌else◌, leb, eqb, List, map, Result, ok,
  err,
}
use escld.BqSink.Canonical.Rows.{RawRow, Functions, candidate_events}
use escld.BqSink.Canonical.Reconcile.{Ledger, event_of, reconcile}
use escld.BqSink.Canonical.Feed.{
  FeedRequest, FeedImpression, impression_key, lineage_key, recent_conflicts, without_conflicts,
  merge_requests, merge_impressions,
}
use escld.BqSink.Canonical.Engagement.{raw_engagement_daily, raw_follows_daily, post_authors}
use escld.BqSink.Canonical.Outcomes.{ImpressionOutcome, outcome_key, merge_outcomes}
use escld.BqSink.Canonical.Daily.{PostDaily, merge_post_daily}
use escld.BqSink.Canonical.Creators.{CreatorDaily, merge_creator_daily}
use escld.BqSink.Canonical.Experiments.{ExperimentDaily, merge_experiment_daily}

-- The tables of the analytics dataset.
pub record Tables : Type 0 where
  pub ledger : Ledger
  pub feed_requests : List FeedRequest
  pub feed_impressions : List FeedImpression
  pub impression_outcomes : List ImpressionOutcome
  pub post_daily : List PostDaily
  pub creator_daily : List CreatorDaily
  pub experiment_daily : List ExperimentDaily

-- A script stops at the statement that fails; what the statements before it wrote stays.
pub data Ended : Type 0 where
  finished : Tables → Ended
  failed : Tables → Ended

abbrev pub proceed {ℓ} : {A : Type ℓ} → Tables → Result A → (A → Ended) → Ended
proceed tables err next = failed tables
proceed tables (ok a) next = next a

-- The times at which the statements start that ask for the current time.
pub record Clock : Type 0 where
  pub candidates_at : ℕ
  pub conflicts_at : ℕ
  pub winners_at : ℕ
  pub outcomes_deleted_at : ℕ
  pub impressions_deleted_at : ℕ
  pub requests_deleted_at : ℕ
  pub requests_at : ℕ
  pub impressions_at : ℕ
  pub engagement_at : ℕ
  pub follows_at : ℕ
  pub authors_at : ℕ
  pub outcomes_at : ℕ
  pub post_daily_at : ℕ
  pub creator_daily_at : ℕ
  pub experiment_daily_at : ℕ

module _ (bq : Functions) (clock : Clock) (lookback_days outcome_lookback_days : ℕ) where
  -- From raw_engagement_daily to the end.
  unfoldable pub roll_up : Tables → Ended
  unfolding raw_engagement_daily raw_follows_daily post_authors merge_outcomes merge_post_daily
      merge_creator_daily merge_experiment_daily
  roll_up t =
      let events = map event_of t.ledger.canonical_events in
      let engagement = raw_engagement_daily bq clock.engagement_at outcome_lookback_days events in
      let follows = raw_follows_daily bq clock.follows_at outcome_lookback_days events in
      let authors =
        post_authors bq clock.authors_at outcome_lookback_days events t.feed_impressions
          engagement in
      proceed t
        (merge_outcomes bq clock.outcomes_at outcome_lookback_days t.feed_impressions events authors
          t.impression_outcomes)
        λ outcomes.
          let t = record t { impression_outcomes = outcomes } in
          proceed t
            (merge_post_daily bq clock.post_daily_at outcome_lookback_days outcomes engagement
              t.post_daily)
            λ posts.
              let t = record t { post_daily = posts } in
              proceed t
                (merge_creator_daily bq clock.creator_daily_at outcome_lookback_days outcomes events
                  authors engagement follows t.creator_daily)
                λ creators.
                  let t = record t { creator_daily = creators } in
                  proceed t
                    (merge_experiment_daily clock.experiment_daily_at outcome_lookback_days outcomes
                      t.feed_requests t.experiment_daily)
                    λ experiments. finished (record t { experiment_daily = experiments })

  -- The three DELETE statements, then the merges of the feed.
  unfoldable pub lineage : Tables → Ended
  unfolding roll_up recent_conflicts without_conflicts merge_requests merge_impressions
  lineage t =
      let conflicts = λ (at : ℕ). recent_conflicts at lookback_days t.ledger.event_conflicts in
      let t = record t {
        impression_outcomes =
            without_conflicts outcome_key (conflicts clock.outcomes_deleted_at)
              t.impression_outcomes;
        feed_impressions =
            without_conflicts impression_key (conflicts clock.impressions_deleted_at)
              t.feed_impressions;
        feed_requests =
            without_conflicts lineage_key (conflicts clock.requests_deleted_at) t.feed_requests;
      } in
      proceed t
        (merge_requests bq clock.requests_at lookback_days t.ledger.canonical_events
          t.feed_requests)
        λ requests.
          let t = record t { feed_requests = requests } in
          proceed t
            (merge_impressions bq clock.impressions_at lookback_days t.ledger.canonical_events
              requests t.feed_impressions)
            λ impressions. roll_up (record t { feed_impressions = impressions })

  unfoldable pub canonical_merge : (String → List RawRow) → Tables → Ended
  unfolding candidate_events reconcile lineage
  canonical_merge raw t =
      proceed t
        (reconcile bq clock.conflicts_at clock.winners_at
          (candidate_events bq raw clock.candidates_at lookback_days) t.ledger)
        λ ledger. lineage (record t { ledger = ledger })

-- `/^[A-Za-z_][A-Za-z0-9_-]*$/`.
abbrev pub is_letter : ℕ → Bool
is_letter c = leb 65 c && leb c 90 || leb 97 c && leb c 122 || eqb c 95

abbrev pub is_word : ℕ → Bool
is_word c = is_letter c || leb 48 c && leb c 57 || eqb c 45

unfoldable pub are_words : String → Bool
are_words String.[] = true
are_words (c ∷ s) = is_word (code c) && are_words s

unfoldable pub is_identifier : String → Bool
unfolding are_words
is_identifier String.[] = false
is_identifier (c ∷ s) = is_letter (code c) && are_words s

abbrev pub are_identifiers : (project dataset analytics_dataset : String) → Bool
are_identifiers project dataset analytics_dataset =
    is_identifier project && is_identifier dataset && is_identifier analytics_dataset

-- `Warehouse.canonicalize`: `canonicalMergeSql` throws before a statement is run.
unfoldable pub canonicalize :
    Functions
    → Clock
    → (project dataset analytics_dataset : String) → (lookback_days : ℕ) → (String → List RawRow)
    → Tables
    → Ended
unfolding is_identifier canonical_merge
canonicalize bq clock project dataset analytics_dataset lookback_days raw t =
    if are_identifiers project dataset analytics_dataset
    then canonical_merge bq clock lookback_days (lookback_days + 2) raw t
    else failed t
