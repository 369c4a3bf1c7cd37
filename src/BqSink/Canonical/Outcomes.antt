-- ===== src/BqSink/Canonical/Outcomes.antt =====
-- impression_outcomes: what an impression led to, in bq-sink/src/canonicalizer.ts.
pub mod Attribution
use escld.Prelude.{
  ℕ, ◌+◌, ◌*◌, String, Bool, false, not, ◌&&◌, ◌||◌, Option, none, some, List, [], ◌∷◌, map, ◌==◌,
  ltb, leb, if◌then◌else◌, all, any, Result,
}
use escld.Js.Int.{ℤ, pos}
use escld.BqSink.Sql.{where_true, or_value, equal, first_ranked, merge}
use escld.BqSink.Sql.Ranks.{same_key}
use escld.BqSink.Canonical.Rows.{
  Event, Functions, json_value, json_int64, ltb_ℤ, within_days, microseconds_per_day,
}
use escld.BqSink.Canonical.Feed.{FeedImpression}
use escld.BqSink.Canonical.Engagement.{PostAuthor, is_type, is_either, is_later}
use escld.BqSink.Canonical.Views.{
  within_a_day, same_view, is_media_view, join_events, events_of, maximum, dwell_ms, media_fraction,
}

-- A row of the source of the merge, and with `computedAt` of impression_outcomes. `labelMaturedAt`
-- is 48 hours after the impression.
pub record ImpressionOutcome : Type 0 where
  pub impression_id : String
  pub actor_id : String
  pub post_id : String
  pub author_id : Option String
  pub request_id : String
  pub session_id : Option String
  pub position : ℤ
  pub impression_at : ℕ
  pub active_dwell_ms : ℤ
  pub media_completion_fraction : ℤ
  pub watch_time_ms : ℤ
  pub liked : Bool
  pub commented : Bool
  pub hidden : Bool
  pub attributed_follow : Bool
  pub meaningful : Bool
  pub label_matured_at : ℕ
  pub provisional : Bool
  pub computed_at : ℕ

-- QUALIFY ROW_NUMBER() OVER (PARTITION BY eventId ORDER BY impressionAt DESC) = 1: an action counts
-- for the latest of the impressions that it may be due to.
abbrev pub pair_event_id : FeedImpression × Event → String
pair_event_id (i, e) = e.event_id

abbrev pub shown_later : FeedImpression × Event → FeedImpression × Event → Bool
shown_later (i, e) (j, f) = ltb j.impression_at i.impression_at

unfoldable pub attributed :
    (FeedImpression → Event → Bool)
    → List FeedImpression
    → List Event
    → List (FeedImpression × Event)
unfolding first_ranked join_events
attributed on impressions events =
    first_ranked pair_event_id shown_later (join_events on impressions events)

abbrev pub by_actor : FeedImpression → Event → Bool
by_actor i e = equal e.actor_id (some i.actor_id) && within_a_day i e.occurred_at

abbrev pub is_post_action : Functions → FeedImpression → Event → Bool
is_post_action bq i e =
    by_actor i e
    && equal (json_value bq e.payload "postId") (some i.post_id)
    && (is_either "post.liked" "post.unliked" e || is_either "post.hidden" "post.unhidden" e)

abbrev pub is_comment : Functions → FeedImpression → Event → Bool
is_comment bq i e =
    by_actor i e
    && is_type "post.commented" e
    && equal (json_value bq e.payload "postId") (some i.post_id)

-- The JOIN with post_authors, which has one row for a post.
abbrev pub is_follow : Functions → List PostAuthor → FeedImpression → Event → Bool
is_follow bq authors i e =
    by_actor i e
    && is_either "user.followed" "user.unfollowed" e
    && any (λ a. a.post_id == i.post_id && equal (json_value bq e.payload "followeeId") a.author_id)
        authors

-- The first of ORDER BY occurredAt DESC, ingestedAt DESC LIMIT 1.
unfoldable pub latest : List Event → Option Event
latest [] = none
latest (e ∷ es) = elim (latest es) [ none ↦ some e | some f ↦ some (if is_later f e then f else e) ]

-- `IFNULL(state = type, FALSE)`, the state being the type of the latest of the events.
abbrev pub is_last : String → Option Event → Bool
is_last t none = false
is_last t (some e) = is_type t e

-- The LEFT JOIN with the deletions of a comment has no row for it.
abbrev pub is_deletion : Functions → FeedImpression → Event → Event → Bool
is_deletion bq i comment e =
    is_type "post.comment_deleted" e
    && equal (json_value bq e.payload "commentId") (json_value bq comment.payload "commentId")
    && leb comment.occurred_at e.occurred_at
    && leb e.occurred_at (i.impression_at + microseconds_per_day)

abbrev pub author_of : String → List PostAuthor → Option String
author_of post [] = none
author_of post (a ∷ rest) = if a.post_id == post then a.author_id else author_of post rest

module _ (bq : Functions) (impressions : List FeedImpression) (events : List Event)
    (authors : List PostAuthor) where
  abbrev pub actions : String → List Event
  actions id = events_of id (attributed (is_post_action bq) impressions events)

  abbrev pub follows : String → List Event
  follows id = events_of id (attributed (is_follow bq authors) impressions events)

  -- comment_states: some comment that counts for the impression was not deleted within its day.
  abbrev pub has_comment : String → Bool
  has_comment id =
      any (λ p. p.0.impression_id == id && not (any (is_deletion bq p.0 p.1) events))
        (attributed (is_comment bq) impressions events)

  unfoldable pub outcome_of : ℕ → FeedImpression → ImpressionOutcome
  unfolding attributed latest maximum is_media_view same_view join_events
  outcome_of now i =
      let id = i.impression_id in
      let dwell =
        or_value
          (maximum (
            map (dwell_ms bq)
              (events_of id (join_events (same_view bq "post.dwell") impressions events))))
          (pos 0) in
      let media = events_of id (join_events (is_media_view bq) impressions events) in
      let fraction = or_value (maximum (map (media_fraction bq) media)) (pos 0) in
      let liked =
        is_last "post.liked"
          (latest (where_true (is_either "post.liked" "post.unliked") (actions id))) in
      let commented = has_comment id in
      record {
        impression_id = id;
        actor_id = i.actor_id;
        post_id = i.post_id;
        author_id = author_of i.post_id authors;
        request_id = i.request_id;
        session_id = i.session_id;
        position = i.position;
        impression_at = i.impression_at;
        active_dwell_ms = dwell;
        media_completion_fraction = fraction;
        watch_time_ms =
            or_value (maximum (map (λ e. json_int64 bq e.payload "mediaPlayedMs") media)) (pos 0);
        liked = liked;
        commented = commented;
        hidden =
            is_last "post.hidden"
              (latest (where_true (is_either "post.hidden" "post.unhidden") (actions id)));
        attributed_follow = is_last "user.followed" (latest (follows id));
        meaningful =
            liked || commented || not (ltb_ℤ dwell (pos 10000)) || not (ltb_ℤ fraction bq.half);
        label_matured_at = i.impression_at + 2 * microseconds_per_day;
        provisional = ltb now (i.impression_at + 2 * microseconds_per_day);
        computed_at = now;
      }

abbrev pub outcome_key : ImpressionOutcome → String
outcome_key o = o.impression_id

-- UPDATE SET leaves what the impression itself says.
abbrev pub update_outcome : ImpressionOutcome → ImpressionOutcome → ImpressionOutcome
update_outcome source target = record target {
  author_id = source.author_id;
  active_dwell_ms = source.active_dwell_ms;
  media_completion_fraction = source.media_completion_fraction;
  watch_time_ms = source.watch_time_ms;
  liked = source.liked;
  commented = source.commented;
  hidden = source.hidden;
  attributed_follow = source.attributed_follow;
  meaningful = source.meaningful;
  label_matured_at = source.label_matured_at;
  provisional = source.provisional;
  computed_at = source.computed_at;
}

unfoldable pub merge_outcomes :
    Functions
    → (now outcome_lookback_days : ℕ) → List FeedImpression
    → List Event
    → List PostAuthor
    → List ImpressionOutcome
    → Result (List ImpressionOutcome)
unfolding outcome_of
merge_outcomes bq now outcome_lookback_days all events authors =
    let impressions = where_true (λ i. within_days now outcome_lookback_days i.impression_at) all in
    merge (same_key outcome_key outcome_key) update_outcome (λ o. o)
      (map (outcome_of bq impressions events authors now) impressions)
