-- ===== src/BqSink/Canonical/Views.antt =====
-- The events of one view of a post, its dwell time and its playback: the CTEs dwell and
-- media_progress of bq-sink/src/canonicalizer.ts.
use escld.Prelude.{
  ℕ, ◌+◌, String, Bool, false, ◌&&◌, Option, none, some, List, [], ◌∷◌, ◌++◌, map, ◌==◌, leb,
  if◌then◌else◌,
}
use escld.Js.Int.{ℤ, pos}
use escld.BqSink.Sql.{where_true, or_value, equal}
use escld.BqSink.Canonical.Rows.{
  Event, Functions, json_value, json_int64, json_float64, equal_ℤ, ltb_ℤ, microseconds_per_day,
}
use escld.BqSink.Canonical.Feed.{FeedImpression}
use escld.BqSink.Canonical.Engagement.{is_type}

-- `occurredAt BETWEEN impressionAt AND TIMESTAMP_ADD(impressionAt, INTERVAL 24 HOUR)`.
abbrev pub within_a_day : FeedImpression → ℕ → Bool
within_a_day i time = leb i.impression_at time && leb time (i.impression_at + microseconds_per_day)

-- The ON of dwell and of media_progress: an event of the same view.
unfoldable pub same_view : Functions → String → FeedImpression → Event → Bool
same_view bq event_type i e =
    is_type event_type e
    && equal e.actor_id (some i.actor_id)
    && equal (json_value bq e.payload "postId") (some i.post_id)
    && equal (json_value bq e.payload "requestId") (some i.request_id)
    && or_value (json_value bq e.payload "sessionId") "" == or_value i.session_id ""
    && equal_ℤ (json_int64 bq e.payload "position") (some i.position)
    && within_a_day i e.occurred_at

-- The rows of a JOIN of impressions and events.
unfoldable pub join_events :
    (FeedImpression → Event → Bool)
    → List FeedImpression
    → List Event
    → List (FeedImpression × Event)
join_events on [] events = []
join_events on (i ∷ is) events =
    map (λ e. (i, e)) (where_true (on i) events) ++ join_events on is events

-- GROUP BY impressionId.
abbrev pub events_of : String → List (FeedImpression × Event) → List Event
events_of id pairs = map (λ p. p.1) (where_true (λ p. p.0.impression_id == id) pairs)

-- `MAX` leaves NULL out.
unfoldable pub maximum : List (Option ℤ) → Option ℤ
maximum [] = none
maximum (none ∷ ns) = maximum ns
maximum (some n ∷ ns) = elim (maximum ns) [
  | none ↦ some n
  | some m ↦ some (if ltb_ℤ n m then m else n)
]

abbrev pub least_of : ℤ → ℤ → ℤ
least_of a b = if ltb_ℤ b a then b else a

abbrev pub greatest_of : ℤ → ℤ → ℤ
greatest_of a b = if ltb_ℤ a b then b else a

abbrev pub map_value : (ℤ → ℤ) → Option ℤ → Option ℤ
map_value f none = none
map_value f (some n) = some (f n)

-- `LEAST(60000, …activeDwellMs)` of an event.
abbrev pub dwell_ms : Functions → Event → Option ℤ
dwell_ms bq e = map_value (least_of (pos 60000)) (json_int64 bq e.payload "activeDwellMs")

abbrev pub divide : Functions → Option ℤ → Option ℤ → Option ℤ
divide bq (some a) (some b) = bq.safe_divide a b
divide bq _ _ = none

-- `LEAST(1.0, GREATEST(0.0, SAFE_DIVIDE(mediaPlayedMs, mediaDurationMs)))` of an event.
abbrev pub media_fraction : Functions → Event → Option ℤ
media_fraction bq e =
    map_value (λ n. least_of bq.one (greatest_of (pos 0) n))
      (divide bq (json_float64 bq e.payload "mediaPlayedMs")
        (json_float64 bq e.payload "mediaDurationMs"))

abbrev pub is_positive : Option ℤ → Bool
is_positive none = false
is_positive (some n) = ltb_ℤ (pos 0) n

unfoldable pub is_media_view : Functions → FeedImpression → Event → Bool
unfolding same_view
is_media_view bq i e =
    same_view bq "media.progress" i e && is_positive (json_float64 bq e.payload "mediaDurationMs")
