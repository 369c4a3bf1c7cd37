-- ===== src/BqSink/Canonical/Tests.antt =====
-- Runs of the statements of bq-sink/src/canonicalizer.ts.
pub mod Scripts
use escld.Prelude.{
  false, ℕ, String, ◌≡◌, refl, Bool, true, Option, none, some, List, [], ◌∷◌, map, ◌==◌, leb,
  if◌then◌else◌, length, All, Result, ok, err,
}
use escld.Js.Int.{ℤ, pos, pos_part}
use escld.Js.Text.{decimal_ℤ}
use escld.Js.Json.{Json, int, fraction, num, str, obj, end, field}
use escld.BqSink.Canonical.Rows.{Event, Functions}
use escld.BqSink.Canonical.Reconcile.{
  CanonicalEvent, Ledger, current_conflicts, merge_conflicts, delete_conflicting, winners,
  merge_winners, reconcile,
}
use escld.BqSink.Canonical.Reconcile.Agreement.{
  IsClean, IsReconciled, is_in_conflict, reconcile-IsReconciled,
}
use escld.BqSink.Canonical.Reconcile.Again.{reconcile-twice}
use escld.BqSink.Canonical.Feed.{FeedImpression, merge_impressions}
use escld.BqSink.Canonical.Engagement.{Engagement, count_if}
use escld.BqSink.Canonical.Outcomes.{ImpressionOutcome, attributed, is_post_action}
use escld.BqSink.Canonical.Outcomes.Attribution.{IsAttribution, attributed-IsAttribution}
use escld.BqSink.Sql.{where_true, merge, merge_missing, merge_required, distinct, sorted}
use escld.BqSink.Canonical.Daily.{post_rows, PostDaily, merge_post_daily}
use escld.BqSink.Canonical.Daily.Cells.{total}
use escld.BqSink.Canonical.Daily.Totals.{seen, has_author}
use escld.BqSink.Canonical.Daily.Written.{daily-written}
use escld.BqSink.Sql.Written.{In}
use escld.BqSink.Canonical.Creators.{creator_rows, CreatorDaily, merge_creator_daily, authored}

abbrev number_of : String → Option ℤ
number_of t =
    if t == "1500"
    then some (pos 1500)
    else if t == "3"
    then some (pos 3)
    else if t == "1"
    then some (pos 1)
    else none

-- The payload stands for its hash; a double is counted in halves.
abbrev pub toy : Functions
toy = record {
  payload_hash =
      λ p. elim p [ none ↦ none | some j ↦ elim j [ str s ↦ some s | _ ↦ some "object" ] ];
  number_text = λ n. elim n [ int z ↦ decimal_ℤ z | fraction k ↦ "?" ];
  int64_of = number_of;
  bool_of = λ t. none;
  float64_of = number_of;
  safe_divide = λ a b. if leb (pos_part b) (pos_part a) then some (pos 2) else some (pos 1);
  half = pos 1;
  one = pos 2;
  approx_median = λ ns. elim ns [ [] ↦ none | n ∷ rest ↦ some n ];
}

abbrev pub event : String → String → ℕ → Json → Event
event id event_type time payload = record {
  event_id = id;
  event_type = event_type;
  event_version = "2";
  occurred_at = time;
  ingested_at = time;
  producer = some "backend";
  actor_id = some "viewer";
  entity_type = none;
  entity_id = none;
  entity_version = none;
  correlation_id = none;
  session_id = none;
  request_id = none;
  experiment_id = none;
  experiment_variant = none;
  payload = some payload;
  payload_hash = toy.payload_hash (some payload);
  source_topic = some event_type;
  source_partition = some (pos 0);
  source_offset = some "1";
}

-- A canonical event that comes again, one that comes with another payload, and a new one, twice.
abbrev before : Ledger
before = record {
  canonical_events =
      record { event = event "a" "post.liked" 10 (str "p"); canonicalized_at = 11 }
      ∷ record { event = event "b" "post.liked" 10 (str "p"); canonicalized_at = 11 }
      ∷ [];
  event_conflicts = [];
}

abbrev candidates : List Event
candidates =
    event "a" "post.liked" 12 (str "p")
    ∷ event "b" "post.liked" 13 (str "q")
    ∷ event "c" "post.hidden" 15 (str "r")
    ∷ event "c" "post.hidden" 14 (str "r")
    ∷ []

before-IsClean : IsClean before
before-IsClean = record {
  canonical_once = (refl, (refl, tt));
  conflicts_once = tt;
  apart = λ k h. refl;
}

abbrev ids_of : Result Ledger → List (String × ℕ)
ids_of err = []
ids_of (ok l) =
    map {B = String × ℕ} (λ c. (c.event.event_id, c.event.ingested_at)) l.canonical_events

reconcile_run : ids_of (reconcile toy 20 21 candidates before) ≡ ("a", 10) ∷ ("c", 14) ∷ []
unfolding reconcile current_conflicts merge_conflicts delete_conflicting winners merge_winners merge
    merge_missing distinct sorted
reconcile_run = refl

reconcile-IsReconciled_example :
    (after : Ledger) × (reconcile toy 20 21 candidates before ≡ ok after)
    × IsReconciled candidates before after
reconcile-IsReconciled_example = reconcile-IsReconciled toy 20 21 candidates before before-IsClean

reconcile-twice_example :
    (after again : Ledger) × (reconcile toy 20 21 candidates before ≡ ok after)
    × (reconcile toy 30 31 candidates after ≡ ok again)
    × (again.canonical_events ≡ after.canonical_events)
    × ((k : String) → is_in_conflict k again ≡ is_in_conflict k after)
reconcile-twice_example = reconcile-twice toy 20 21 30 31 candidates before before-IsClean

abbrev impression : String → ℕ → FeedImpression
impression id time = record {
  impression_id = id;
  actor_id = "viewer";
  post_id = "post";
  request_id = "request";
  session_id = none;
  position = pos 3;
  impression_at = time;
  visible_duration_ms = pos 1500;
  visible_fraction = pos 1;
  source = none;
  reason_code = none;
  materialized_at = 0;
}

abbrev pub about_post : Json
about_post = obj (field "postId" (str "post") end)

abbrev pub shown : List FeedImpression
shown = impression "i" 10 ∷ impression "j" 20 ∷ impression "k" 40 ∷ []

abbrev pub actions : List Event
actions = event "like" "post.liked" 30 about_post ∷ event "hide" "post.hidden" 50 about_post ∷ []

-- The like is due to the second impression and not to the first, the hiding to the third.
attributed_run :
    map {B = String × String}
      (λ p. (p.0.impression_id, p.1.event_id))
      (attributed (is_post_action toy) shown actions)
    ≡ ("k", "hide") ∷ ("j", "like") ∷ []
unfolding attributed
attributed_run = refl

attributed-IsAttribution_example :
    IsAttribution (is_post_action toy) shown actions (attributed (is_post_action toy) shown actions)
attributed-IsAttribution_example = attributed-IsAttribution (is_post_action toy) shown actions

abbrev seen_event : String → Json → CanonicalEvent
seen_event id position = record {
  event =
      record (event id "post.impression" 5 (
        obj (
          field "postId" (str "post") (
            field "requestId" (str "request") (
              field "visibleDurationMs" (num (int (pos 1500)))
                (field "visibleFraction" (num (int (pos 1))) (field "position" position end))))))) {
                  request_id = some "request";
                };
  canonicalized_at = 6;
}

impressions_run :
    merge_impressions toy 9 1 (seen_event "x" (num (int (pos 3))) ∷ []) [] []
    ≡ ok (record (impression "x" 5) { materialized_at = 9 } ∷ [])
unfolding merge_impressions merge_required decimal_ℤ
impressions_run = refl

-- An impression without a position stops the script.
impressions_fail : merge_impressions toy 9 1 (seen_event "x" (str "first") ∷ []) [] [] ≡ err
unfolding merge_impressions merge_required decimal_ℤ
impressions_fail = refl

abbrev outcome : String → Option String → Bool → Bool → ImpressionOutcome
outcome post author meaningful hidden = record {
  impression_id = "i";
  actor_id = "viewer";
  post_id = post;
  author_id = author;
  request_id = "request";
  session_id = none;
  position = pos 3;
  impression_at = 5;
  active_dwell_ms = pos 0;
  media_completion_fraction = pos 0;
  watch_time_ms = pos 7;
  liked = meaningful;
  commented = false;
  hidden = hidden;
  attributed_follow = false;
  meaningful = meaningful;
  label_matured_at = 8;
  provisional = true;
  computed_at = 6;
}

abbrev outcomes : List ImpressionOutcome
outcomes =
    outcome "p" (some "a") true false
    ∷ outcome "q" (some "a") false true
    ∷ outcome "p" none true true
    ∷ []

abbrev liked_posts : List Engagement
liked_posts = record { post_id = "r"; day = 0; like_count = pos 1; comment_count = pos 0 } ∷ []

daily_run :
    map {B = String × ℕ}
      (λ d. (d.cell.0, d.qualified_impressions))
      (post_rows toy 9 1 outcomes liked_posts)
    ≡ ("q", 1) ∷ ("p", 2) ∷ ("r", 0) ∷ []
unfolding post_rows distinct
daily_run = refl

-- What an earlier run has written.
abbrev old_posts : List PostDaily
old_posts = post_rows toy 8 1 (outcome "p" (some "a") true false ∷ []) []

daily-written_example :
    ((ts : List PostDaily) × (merge_post_daily toy 9 1 outcomes liked_posts old_posts ≡ ok ts)
      × All (λ r. In r ts) (post_rows toy 9 1 outcomes liked_posts))
    × ((ts : List CreatorDaily) × (merge_creator_daily toy 9 1 outcomes [] [] liked_posts [] []
          ≡ ok ts)
        × All (λ r. In r ts) (creator_rows toy 9 1 outcomes (authored toy [] [] liked_posts) []))
    × (total (λ d. d.qualified_impressions) (post_rows toy 9 1 outcomes liked_posts)
        ≡ length (seen toy 9 1 outcomes))
    × (total (λ d. d.meaningful_count) (post_rows toy 9 1 outcomes liked_posts)
        ≡ count_if (λ o. o.meaningful) (seen toy 9 1 outcomes))
    × (total (λ d. d.hide_count) (post_rows toy 9 1 outcomes liked_posts)
        ≡ count_if (λ o. o.hidden) (seen toy 9 1 outcomes))
    × (total
          (λ d. d.qualified_impressions)
          (creator_rows toy 9 1 outcomes (authored toy [] [] liked_posts) [])
        ≡ length (where_true has_author (seen toy 9 1 outcomes)))
    × (total
          (λ d. d.meaningful_count)
          (creator_rows toy 9 1 outcomes (authored toy [] [] liked_posts) [])
        ≡ count_if (λ o. o.meaningful) (where_true has_author (seen toy 9 1 outcomes)))
    × (total (λ d. d.hide_count) (creator_rows toy 9 1 outcomes (authored toy [] [] liked_posts) [])
        ≡ count_if (λ o. o.hidden) (where_true has_author (seen toy 9 1 outcomes)))
unfolding authored
daily-written_example = daily-written toy 9 1 outcomes [] [] liked_posts [] old_posts [] refl
