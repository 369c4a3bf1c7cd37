-- ===== src/BqSink/Canonical/Engagement.antt =====
-- raw_engagement_daily, raw_follows_daily and post_authors of bq-sink/src/canonicalizer.ts.
use escld.Prelude.{
  ℕ, ◌+◌, ◌/◌, String, Bool, ◌&&◌, ◌||◌, Option, none, some, List, [], ◌∷◌, ◌++◌, map, ◌==◌, ltb,
  eqb, if◌then◌else◌,
}
use escld.Js.Int.{ℤ, sub_ℕ}
use escld.BqSink.Sql.{listed, where_true, or_value, is_not_null, distinct_by, first_ranked}
use escld.BqSink.Canonical.Rows.{Event, Functions, json_value, within_days, microseconds_per_day}
use escld.BqSink.Canonical.Feed.{FeedImpression}

abbrev pub is_type : String → Event → Bool
is_type t e = e.event_type == t

abbrev pub is_either : (t u : String) → Event → Bool
is_either t u e = is_type t e || is_type u e

-- `DATE(time)`, in UTC.
abbrev pub day_of : ℕ → ℕ
day_of time = time / microseconds_per_day

abbrev pub count_if {ℓ} : {A : Type ℓ} → (A → Bool) → List A → ℕ
count_if p [] = 0
count_if p (x ∷ xs) = (if p x then 1 else 0) + count_if p xs

-- The keys of a GROUP BY of a text and a day.
abbrev pub Cell : Type 0
Cell = String × ℕ

abbrev pub same_cell : Cell → Cell → Bool
same_cell (k, d) (j, c) = k == j && eqb d c

unfoldable pub cells : List Cell → List Cell
unfolding distinct_by
cells = distinct_by same_cell

-- A row of raw_engagement_daily and of raw_follows_daily.
pub record Engagement : Type 0 where
  pub post_id : String
  pub day : ℕ
  pub like_count : ℤ
  pub comment_count : ℤ

pub record Follows : Type 0 where
  pub author_id : String
  pub day : ℕ
  pub new_follower_count : ℤ

-- The cell of an event by a field of its payload, where that is not NULL.
unfoldable pub cells_of : Functions → String → List Event → List (Cell × Event)
cells_of bq name [] = []
cells_of bq name (e ∷ es) = elim (json_value bq e.payload name) [
  | none ↦ cells_of bq name es
  | some k ↦ ((k, day_of e.occurred_at), e) ∷ cells_of bq name es
]

abbrev pub group_of {ℓ} : {A : Type ℓ} → Cell → List (Cell × A) → List A
group_of cell rows = map (λ r. r.1) (where_true (λ r. same_cell r.0 cell) rows)

abbrev pub net : (up down : String) → List Event → ℤ
net up down es = sub_ℕ (count_if (is_type up) es) (count_if (is_type down) es)

unfoldable pub raw_engagement_daily : Functions → (now days : ℕ) → List Event → List Engagement
unfolding cells_of cells
raw_engagement_daily bq now days events =
    let rows = cells_of bq "postId" (
      where_true
        (λ e.
          (is_either "post.liked" "post.unliked" e
            || is_either "post.commented" "post.comment_deleted" e)
          && within_days now days e.occurred_at)
        events) in
    map
      (λ cell. record {
        post_id = cell.0;
        day = cell.1;
        like_count = net "post.liked" "post.unliked" (group_of cell rows);
        comment_count = net "post.commented" "post.comment_deleted" (group_of cell rows);
      })
      (cells (map (λ r. r.0) rows))

unfoldable pub raw_follows_daily : Functions → (now days : ℕ) → List Event → List Follows
unfolding cells_of cells
raw_follows_daily bq now days events =
    let rows = cells_of bq "followeeId" (
      where_true
        (λ e. is_either "user.followed" "user.unfollowed" e && within_days now days e.occurred_at)
        events) in
    map
      (λ cell. record {
        author_id = cell.0;
        day = cell.1;
        new_follower_count = net "user.followed" "user.unfollowed" (group_of cell rows);
      })
      (cells (map (λ r. r.0) rows))

-- A row of post_authors.
pub record PostAuthor : Type 0 where
  pub post_id : String
  pub author_id : Option String

-- ORDER BY occurredAt DESC, ingestedAt DESC.
abbrev pub is_later : Event → Event → Bool
is_later a b =
    ltb b.occurred_at a.occurred_at
    || (eqb a.occurred_at b.occurred_at && ltb b.ingested_at a.ingested_at)

abbrev pub key_text : Option String → String
key_text k = or_value k ""

unfoldable pub post_authors :
    Functions
    → (now days : ℕ) → List Event
    → List FeedImpression
    → List Engagement
    → List PostAuthor
unfolding first_ranked
post_authors bq now days events impressions engagement =
    let wanted =
      map (λ i. i.post_id) (where_true (λ i. within_days now days i.impression_at) impressions)
      ++ map (λ g. g.post_id) engagement in
    let post = λ (e : Event). json_value bq e.payload "postId" in
    let created =
      where_true
        (λ e. is_type "post.created" e && is_not_null (post e) && listed (key_text (post e)) wanted)
        events in
    map
      (λ e. record { post_id = key_text (post e); author_id = json_value bq e.payload "authorId" })
      (first_ranked (λ e. key_text (post e)) is_later created)
