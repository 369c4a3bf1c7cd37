-- ===== src/BqSink/Canonical/Tests/Scripts.antt =====
-- Runs of the whole script of bq-sink/src/canonicalizer.ts.
use escld.Prelude.{
  ◌⊎◌, String, ◌≡◌, refl, true, false, none, some, List, [], ◌∷◌, map, ◌==◌, if◌then◌else◌,
}
use escld.Js.Int.{pos}
use escld.BqSink.Canonical.Rows.{RawRow, candidate_events}
use escld.BqSink.Canonical.Reconcile.Agreement.{IsClean, IsReconciled}
use escld.BqSink.Canonical.Script.{
  Tables, failed, Clock, are_words, is_identifier, are_identifiers, canonicalize,
}
use escld.BqSink.Canonical.Script.Reconciled.{tables_of, canonicalize-IsReconciled}
use escld.BqSink.Canonical.Tests.{toy, shown, actions, about_post}

abbrev clock : Clock
clock = record {
  candidates_at = 30;
  conflicts_at = 31;
  winners_at = 32;
  outcomes_deleted_at = 33;
  impressions_deleted_at = 34;
  requests_deleted_at = 35;
  requests_at = 36;
  impressions_at = 37;
  engagement_at = 38;
  follows_at = 39;
  authors_at = 40;
  outcomes_at = 41;
  post_daily_at = 42;
  creator_daily_at = 43;
  experiment_daily_at = 44;
}

abbrev tables : Tables
tables = record {
  ledger = record {
    canonical_events = map (λ e. record { event = e; canonicalized_at = 9 }) actions;
    event_conflicts = [];
  };
  feed_requests = [];
  feed_impressions = shown;
  impression_outcomes = [];
  post_daily = [];
  creator_daily = [];
  experiment_daily = [];
}

tables-IsClean : IsClean tables.ledger
tables-IsClean = record {
  canonical_once = (refl, (refl, tt));
  conflicts_once = tt;
  apart = λ k h. refl;
}

identifiers_run :
    map is_identifier ("escld-prod" ∷ "_raw1" ∷ "1raw" ∷ "raw.x" ∷ "" ∷ [])
    ≡ true ∷ true ∷ false ∷ false ∷ false ∷ []
unfolding is_identifier are_words
identifiers_run = refl

-- A hiding that canonical_events do not have yet.
abbrev landed : String → List RawRow
landed table =
    if table == "raw_post_hidden"
    then record {
      event_id = "again";
      event_version = "2";
      occurred_at = 29;
      ingested_at = none;
      producer = some "backend";
      actor_id = some "viewer";
      entity_type = none;
      entity_id = none;
      entity_version = none;
      correlation_id = none;
      session_id = none;
      request_id = none;
      experiment_id = none;
      experiment_variant = none;
      event_payload = some about_post;
      source_topic = some "post.hidden";
      source_partition = some (pos 0);
      source_offset = some "1";
    }
      ∷ []
    else []

canonicalize-IsReconciled_example :
    ((are_identifiers "escld" "raw" "analytics" ≡ false)
      × (canonicalize toy clock "escld" "raw" "analytics" 1 landed tables ≡ failed tables))
    ⊎ ((are_identifiers "escld" "raw" "analytics" ≡ true)
        × IsReconciled
            (candidate_events toy landed 30 1)
            tables.ledger
            (tables_of (canonicalize toy clock "escld" "raw" "analytics" 1 landed tables)).ledger)
canonicalize-IsReconciled_example =
    canonicalize-IsReconciled toy clock "escld" "raw" "analytics" 1 landed tables tables-IsClean
