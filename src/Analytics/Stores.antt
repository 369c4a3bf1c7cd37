-- ===== src/Analytics/Stores.antt =====
-- The stores that the processor writes: analytics/src/receipts.ts, bucketed-trending.ts (its
-- writes), features.ts and suppression.ts.
use escld.Prelude.{
  ℕ, ◌-◌, ◌*◌, min, String, Bool, true, false, not, Option, none, some, List, [], ◌∷◌, ◌++◌, ◌==◌,
  ltb, eqb, if◌then◌else◌, take, Result, ok, err,
}
use Prim.Native.String.{◌++◌ as append_text}
use escld.Js.Int.{ℤ, floor_div}
use escld.Js.Json.{Engine}
use escld.Js.Text.{decimal_ℤ}
use escld.Analytics.Redis.{
  Command, zincrby, expire, sadd, hset, zremrangebyrank, spop, Redis, Exec, ◌>>=◌, ◌>>◌, pure, send,
  exec, ask,
}

-- receipts.ts
abbrev pub receipt_ttl_seconds : ℕ
receipt_ttl_seconds = 8 * 24 * 60 * 60

abbrev pub receipt_key : String → String
receipt_key event_id = append_text "receipt:v1:" event_id

-- bucketed-trending.ts
abbrev pub bucket_minutes : ℕ
bucket_minutes = 5

abbrev pub bucket_ttl_seconds : ℕ
bucket_ttl_seconds = 7 * 24 * 60 * 60

unfoldable pub to_bucket : ℤ → ℤ
to_bucket event_time_ms = floor_div event_time_ms (bucket_minutes * 60000)

unfoldable pub bucket_key : String → ℤ → String
bucket_key entity_type bucket =
    append_text "trending:b:" (append_text entity_type (append_text ":" (decimal_ℤ bucket)))

-- features.ts
abbrev pub affinity_ttl_seconds : ℕ
affinity_ttl_seconds = 30 * 24 * 60 * 60

abbrev pub seen_ttl_seconds : ℕ
seen_ttl_seconds = 7 * 24 * 60 * 60

abbrev pub seen_cap : ℕ
seen_cap = 2000

abbrev pub top_n : ℕ
top_n = 100

abbrev pub author_pos : String → String
author_pos viewer = append_text "features:author:pos:" viewer

abbrev pub author_neg : String → String
author_neg viewer = append_text "features:author:neg:" viewer

abbrev pub topic_pos : String → String
topic_pos viewer = append_text "features:topic:pos:" viewer

abbrev pub topic_neg : String → String
topic_neg viewer = append_text "features:topic:neg:" viewer

abbrev pub seen_key : String → String
seen_key viewer = append_text "features:seen:" viewer

-- The truth value of an optional text: "" is false.
abbrev pub truthy : Option String → Bool
truthy none = false
truthy (some s) = not (s == "")

abbrev pub count_up : (key member : String) → (by ttl : ℕ) → List Command
count_up key member by ttl = zincrby key by member ∷ expire key ttl ∷ []

abbrev pub count_author : String → ℕ → Option String → List Command
count_author key by none = []
count_author key by (some author) =
    if author == "" then [] else count_up key author by affinity_ttl_seconds

abbrev pub count_topics : Engine → String → ℕ → List String → List Command
count_topics engine key by [] = []
count_topics engine key by (topic ∷ topics) =
    count_up key (engine.to_lower_case topic) by affinity_ttl_seconds
    ++ count_topics engine key by topics

module _ {S : Type 0} (redis : Redis S) (engine : Engine) where
  -- The Lua script of `tryClaim`, which the server runs as one step. `now` is the time written.
  unfoldable pub claim_script : (key entity_key now : String) → S → Bool × S
  claim_script key entity_key now s = if redis.exists key s then (false, s) else (
    true,
    redis.apply (expire key receipt_ttl_seconds) (
        redis.apply
          (hset key
            (("projectionVersion", "1") ∷ ("entityKey", entity_key) ∷ ("appliedAt", now) ∷ []))
          s),
  )

  abbrev pub claimed : (key entity_key now : String) → Result S → S → Result Bool × S
  claimed key entity_key now err before = (err, before)
  claimed key entity_key now (ok s) before =
      let (won, s') = claim_script key entity_key now s in (ok won, s')

  unfoldable pub try_claim : (event_id entity_key now : String) → Exec S Bool
  try_claim event_id entity_key now s =
      claimed (receipt_key event_id) entity_key now (redis.connect s) s

  -- `BucketedTrendingStore.record`. Weights are natural numbers: those of `trendingContribution`.
  unfoldable pub record_trending : (entity_type id : String) → ℕ → ℤ → Exec S (Unit {0})
  record_trending entity_type id weight event_time_ms =
      if eqb weight 0
      then pure tt
      else exec redis
          (count_up (bucket_key entity_type (to_bucket event_time_ms)) id weight bucket_ttl_seconds)

  abbrev pub trim_to : String → ℕ → Exec S (Unit {0})
  trim_to key size =
      if ltb top_n size then send redis (zremrangebyrank key 0 (size - top_n - 1)) else pure tt

  unfoldable pub trim : String → Exec S (Unit {0})
  trim key = do size ← ask redis (redis.zcard key); trim_to key size

  unfoldable pub record_positive :
      (viewer : String) → Option String → List String → ℕ → Exec S (Unit {0})
  unfolding trim
  record_positive viewer author topics weight =
      let w = min 5 weight in
      if eqb w 0 then pure tt else do
        exec redis (
            count_author (author_pos viewer) w author
            ++ count_topics engine (topic_pos viewer) w (take 10 topics))
        trim (author_pos viewer)
        trim (topic_pos viewer)

  unfoldable pub record_hide : (viewer : String) → Option String → List String → Exec S (Unit {0})
  record_hide viewer author topics = exec redis (
      count_author (author_neg viewer) 5 author
      ++ count_topics engine (topic_neg viewer) 5 (take 10 topics))

  abbrev pub shrink_to : String → ℕ → Exec S (Unit {0})
  shrink_to key size =
      if ltb seen_cap size then send redis (spop key (size - seen_cap)) else pure tt

  unfoldable pub record_seen : (viewer post_id : String) → Exec S (Unit {0})
  record_seen viewer post_id = do
    exec redis (sadd (seen_key viewer) post_id ∷ expire (seen_key viewer) seen_ttl_seconds ∷ [])
    size ← ask redis (redis.scard (seen_key viewer))
    shrink_to (seen_key viewer) size
