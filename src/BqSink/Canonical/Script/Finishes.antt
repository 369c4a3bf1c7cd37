-- ===== src/BqSink/Canonical/Script/Finishes.antt =====
-- When the second half of the script of bq-sink/src/canonicalizer.ts comes to its end.
use escld.Prelude.{ℕ, Bool, not, List, map, any}
use escld.BqSink.Sql.{is_not_null}
use escld.BqSink.Canonical.Rows.{Event, Functions}
use escld.BqSink.Canonical.Reconcile.{event_of}
use escld.BqSink.Canonical.Engagement.{
  Engagement, Follows, PostAuthor, raw_engagement_daily, raw_follows_daily, post_authors,
}
use escld.BqSink.Canonical.Creators.{authored}
use escld.BqSink.Canonical.Script.{Tables, Clock}

module _ (bq : Functions) (clock : Clock) (lookback_days outcome_lookback_days : ℕ)
    (t : Tables) where
  abbrev events : List Event
  events = map event_of t.ledger.canonical_events

  abbrev engagement : List Engagement
  engagement = raw_engagement_daily bq clock.engagement_at outcome_lookback_days events

  abbrev authors : List PostAuthor
  authors =
      post_authors bq clock.authors_at outcome_lookback_days events t.feed_impressions engagement

  abbrev follows : List Follows
  follows = raw_follows_daily bq clock.follows_at outcome_lookback_days events

  -- A post that was liked or commented on in the look-back, and of which a creation is known, stands in
  -- post_authors with NULL as its author.
  abbrev pub lacks_author : Bool
  lacks_author = any (λ r. not (is_not_null r.0)) (authored bq events authors engagement)
