-- ===== src/BqSink/Canonical/Feed.antt =====
-- feed_requests and feed_impressions: the middle part of bq-sink/src/canonicalizer.ts.
pub mod Qualified
use escld.Prelude.{
  ℕ, String, Bool, false, not, ◌&&◌, Option, none, some, List, [], ◌∷◌, ◌++◌, map, ◌==◌, Result,
}
use mathlib.Core.Option
use escld.Js.Int.{ℤ, pos}
use escld.Js.Json.{Json, arr, items}
use escld.BqSink.Sql.{listed, where_true, coalesce, or_value, is_not_null, equal, merge_required}
use escld.BqSink.Canonical.Rows.{
  Event, Functions, json_value, json_query, json_int64, json_bool, json_float64, equal_ℤ, at_least,
  within_days,
}
use escld.BqSink.Canonical.Reconcile.{CanonicalEvent, EventConflict, event_of, conflict_id}

infixl 5 ◌>>=◌
abbrev pub ◌>>=◌ {ℓ κ} : {A : Type ℓ} {B : Type κ} → Option A → (A → Option B) → Option B
none >>= f = none
some a >>= f = f a

pub record FeedRequest : Type 0 where
  pub lineage_event_id : String
  pub request_id : String
  pub actor_id : String
  pub served_at : ℕ
  pub item_count : ℤ
  pub continuation : Bool
  pub served_from_snapshot : Bool
  pub has_more : Bool
  pub ordered_items : Json
  pub experiment_id : Option String
  pub experiment_variant : Option String
  pub materialized_at : ℕ

pub record FeedImpression : Type 0 where
  pub impression_id : String
  pub actor_id : String
  pub post_id : String
  pub request_id : String
  pub session_id : Option String
  pub position : ℤ
  pub impression_at : ℕ
  pub visible_duration_ms : ℤ
  pub visible_fraction : ℤ
  pub source : Option String
  pub reason_code : Option String
  pub materialized_at : ℕ

abbrev pub impression_key : FeedImpression → String
impression_key i = i.impression_id

abbrev pub lineage_key : FeedRequest → String
lineage_key r = r.lineage_event_id

-- The conflicts that were detected within the look-back.
unfoldable pub recent_conflicts : (now lookback_days : ℕ) → List EventConflict → List String
recent_conflicts now lookback_days conflicts =
    map conflict_id (where_true (λ c. within_days now lookback_days c.detected_at) conflicts)

-- DELETE FROM … WHERE the key IN (SELECT eventId FROM event_conflicts …).
unfoldable pub without_conflicts {ℓ} : {A : Type ℓ} → (A → String) → List String → List A → List A
without_conflicts key ids = where_true (λ r. not (listed (key r) ids))

-- COALESCE(requestId, JSON_VALUE(payload, '$.requestId')), and the same of the session.
abbrev pub request_of : Functions → Event → Option String
request_of bq e = coalesce e.request_id (json_value bq e.payload "requestId")

abbrev pub session_of : Functions → Event → Option String
session_of bq e = coalesce e.session_id (json_value bq e.payload "sessionId")

-- The WHERE of the source of feed_requests.
unfoldable pub is_served : Functions → (now lookback_days : ℕ) → Event → Bool
is_served bq now lookback_days e =
    e.event_type == "feed.served"
    && within_days now lookback_days e.ingested_at
    && is_not_null e.actor_id
    && is_not_null (request_of bq e)
    && is_not_null (json_query e.payload "orderedItems")

-- The row that is inserted for an event.
unfoldable pub feed_request : Functions → ℕ → Event → Option FeedRequest
feed_request bq now e = do
  request ← request_of bq e
  actor ← e.actor_id
  count ← json_int64 bq e.payload "itemCount"
  ordered ← json_query e.payload "orderedItems"
  some (record {
    lineage_event_id = e.event_id;
    request_id = request;
    actor_id = actor;
    served_at = e.occurred_at;
    item_count = count;
    continuation = or_value (json_bool bq e.payload "continuation") false;
    served_from_snapshot = or_value (json_bool bq e.payload "servedFromSnapshot") false;
    has_more = or_value (json_bool bq e.payload "hasMore") false;
    ordered_items = ordered;
    experiment_id = e.experiment_id;
    experiment_variant = e.experiment_variant;
    materialized_at = now;
  })

unfoldable pub merge_requests :
    Functions
    → (now lookback_days : ℕ) → List CanonicalEvent
    → List FeedRequest
    → Result (List FeedRequest)
unfolding is_served feed_request
merge_requests bq now lookback_days canonical =
    merge_required (λ e r. equal (some r.request_id) (request_of bq e)) (feed_request bq now)
      (where_true (is_served bq now lookback_days) (map event_of canonical))

-- `UNNEST(JSON_QUERY_ARRAY(items))`.
abbrev pub elements : Json → List Json
elements (arr vs) = items vs
elements _ = []

abbrev pub first_element : List Json → Option Json
first_element [] = none
first_element (v ∷ vs) = some v

-- The item of a request that shows the post of the event at its position, and a text of it.
abbrev pub item_of : Functions → Event → Json → Bool
item_of bq e item =
    equal (json_value bq (some item) "postId") (json_value bq e.payload "postId")
    && equal_ℤ (json_int64 bq (some item) "position") (json_int64 bq e.payload "position")

unfoldable pub item_text : Functions → Event → String → Option FeedRequest → Option String
item_text bq e name none = none
item_text bq e name (some r) =
    json_value bq (first_element (where_true (item_of bq e) (elements r.ordered_items))) name

-- The LEFT JOIN of the impressions with the requests.
abbrev pub requests_for : Functions → Event → List FeedRequest → List FeedRequest
requests_for bq e requests =
    where_true
      (λ r. equal (some r.request_id) (request_of bq e) && equal (some r.actor_id) e.actor_id)
      requests

abbrev pub or_nothing {ℓ} : {A : Type ℓ} → List A → List (Option A)
or_nothing [] = none ∷ []
or_nothing (x ∷ xs) = some x ∷ map some xs

unfoldable pub join_requests :
    Functions → List FeedRequest → List Event → List (Event × Option FeedRequest)
join_requests bq requests [] = []
join_requests bq requests (e ∷ es) =
    map (λ r. (e, r)) (or_nothing (requests_for bq e requests)) ++ join_requests bq requests es

-- The WHERE of the source of feed_impressions.
unfoldable pub is_qualified : Functions → (now lookback_days : ℕ) → Event → Bool
is_qualified bq now lookback_days e =
    e.event_type == "post.impression"
    && within_days now lookback_days e.ingested_at
    && at_least (json_int64 bq e.payload "visibleDurationMs") (pos 1000)
    && at_least (json_float64 bq e.payload "visibleFraction") bq.half
    && is_not_null e.actor_id
    && is_not_null (json_value bq e.payload "postId")
    && is_not_null (request_of bq e)

unfoldable pub feed_impression : Functions → ℕ → Event × Option FeedRequest → Option FeedImpression
unfolding item_text
feed_impression bq now (e, request) = do
  actor ← e.actor_id
  post ← json_value bq e.payload "postId"
  request_id ← request_of bq e
  position ← json_int64 bq e.payload "position"
  duration ← json_int64 bq e.payload "visibleDurationMs"
  fraction ← json_float64 bq e.payload "visibleFraction"
  some (record {
    impression_id = e.event_id;
    actor_id = actor;
    post_id = post;
    request_id = request_id;
    session_id = session_of bq e;
    position = position;
    impression_at = e.occurred_at;
    visible_duration_ms = duration;
    visible_fraction = fraction;
    source = item_text bq e "source" request;
    reason_code = item_text bq e "reasonCode" request;
    materialized_at = now;
  })

abbrev pub joined_key : Event × Option FeedRequest → String
joined_key (e, r) = e.event_id

unfoldable pub merge_impressions :
    Functions
    → (now lookback_days : ℕ) → List CanonicalEvent
    → List FeedRequest
    → List FeedImpression
    → Result (List FeedImpression)
unfolding is_qualified feed_impression join_requests
merge_impressions bq now lookback_days canonical requests =
    merge_required (λ s i. i.impression_id == joined_key s) (feed_impression bq now)
      (join_requests bq requests
        (where_true (is_qualified bq now lookback_days) (map event_of canonical)))
