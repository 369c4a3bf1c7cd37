-- ===== src/BqSink/Canonical/Feed/Qualified.antt =====
-- Which impressions come into feed_impressions, and when their merge fails:
-- bq-sink/src/canonicalizer.ts.
use escld.Prelude.{Bool, false, ℕ, ◌≡◌, true, not, ◌&&◌, Option, List, map, ◌==◌, any, ok}
use escld.Js.Int.{pos}
use escld.BqSink.Sql.{where_true, is_not_null}
use escld.BqSink.Canonical.Rows.{Event, Functions, ltb_ℤ, json_int64}
use escld.BqSink.Canonical.Reconcile.{CanonicalEvent, event_of}
use escld.BqSink.Canonical.Feed.{
  FeedRequest, FeedImpression, is_qualified, join_requests, joined_key,
}

-- Half of the post was visible, for a second.
pub record IsQualified (bq : Functions) (i : FeedImpression) : Type 0 where
  pub long_enough : ltb_ℤ i.visible_duration_ms (pos 1000) ≡ false
  pub large_enough : ltb_ℤ i.visible_fraction bq.half ≡ false

-- The event of a row of the join passes the WHERE.
abbrev Passes : Functions → (now days : ℕ) → Event × Option FeedRequest → Type 0
Passes bq now days (e, r) = is_qualified bq now days e ≡ true

ok_inj {ℓ} : {A : Type ℓ} {a b : A} → ok a ≡ ok b → a ≡ b
ok_inj h = cc

module _ (bq : Functions) (now days : ℕ) where
  abbrev pub source_rows :
      List FeedRequest → List CanonicalEvent → List (Event × Option FeedRequest)
  source_rows requests canonical =
      join_requests bq requests (where_true (is_qualified bq now days) (map event_of canonical))

  -- A row of the source that stands in no row of the table, and has a NULL in a column that is NOT
  -- NULL.
  abbrev pub is_incomplete : List FeedImpression → Event × Option FeedRequest → Bool
  is_incomplete target s =
      not (any (λ i. i.impression_id == joined_key s) target)
      && not (is_not_null (json_int64 bq s.0.payload "position"))

  abbrev matching : Event × Option FeedRequest → FeedImpression → Bool
  matching s i = i.impression_id == joined_key s
