-- ===== src/BqSink/Export.antt =====
-- bq-sink/src/insights-export.ts: the items of the insights table and how they are written.
pub mod Counts
use escld.Prelude.{
  ℕ, zero, suc, ◌+◌, String, Bool, Option, none, some, List, [], ◌∷◌, ◌++◌, map, length, take, drop,
  Result, ok, err,
}
use Prim.Native.String.{◌++◌ as append_text}
use escld.Js.Int.{ℤ, pos, sub_ℕ, ◌+ℤ◌}
use escld.Js.Json.{Number}

-- A date or a timestamp: a text, or an object that holds one.
pub data BigQueryDate : Type 0 where
  plain wrapped : String → BigQueryDate

abbrev pub big_query_value : BigQueryDate → String
big_query_value (plain s) = s
big_query_value (wrapped s) = s

pub record PostDailyRow : Type 0 where
  pub post_id : String
  pub day : BigQueryDate
  pub qualified_reach : Number
  pub qualified_impressions : Number
  pub meaningful_count : Number
  pub hide_count : Number
  pub median_dwell_ms : Option Number
  pub watch_time_ms : Number
  pub like_count : Number
  pub comment_count : Number
  pub as_of : BigQueryDate
  pub provisional : Bool

pub record CreatorDailyRow : Type 0 where
  pub author_id : String
  pub day : BigQueryDate
  pub qualified_reach : Number
  pub qualified_impressions : Number
  pub meaningful_count : Number
  pub hide_count : Number
  pub distinct_posts : Number
  pub watch_time_ms : Number
  pub like_count : Number
  pub comment_count : Number
  pub new_follower_count : Number
  pub as_of : BigQueryDate
  pub provisional : Bool

-- The values that items have.
pub data ItemValue : Type 0 where
  null : ItemValue
  num : Number → ItemValue
  bool : Bool → ItemValue
  str : String → ItemValue

abbrev pub Item : Type 0
Item = List (String × ItemValue)

abbrev pub number_or_null : Option Number → ItemValue
number_or_null none = null
number_or_null (some n) = num n

unfoldable pub post_daily_to_item : PostDailyRow → Item
post_daily_to_item row =
    ("pk", str (append_text "POST#" row.post_id))
    ∷ ("sk", str (append_text "DATE#" (big_query_value row.day)))
    ∷ ("qualifiedReach", num row.qualified_reach)
    ∷ ("qualifiedImpressions", num row.qualified_impressions)
    ∷ ("meaningfulCount", num row.meaningful_count)
    ∷ ("hideCount", num row.hide_count)
    ∷ ("medianDwellMs", number_or_null row.median_dwell_ms)
    ∷ ("watchTimeMs", num row.watch_time_ms)
    ∷ ("likeCount", num row.like_count)
    ∷ ("commentCount", num row.comment_count)
    ∷ ("asOf", str (big_query_value row.as_of))
    ∷ ("provisional", bool row.provisional)
    ∷ []

unfoldable pub creator_daily_to_item : CreatorDailyRow → Item
creator_daily_to_item row =
    ("pk", str (append_text "CREATOR#" row.author_id))
    ∷ ("sk", str (append_text "DATE#" (big_query_value row.day)))
    ∷ ("qualifiedReach", num row.qualified_reach)
    ∷ ("qualifiedImpressions", num row.qualified_impressions)
    ∷ ("meaningfulCount", num row.meaningful_count)
    ∷ ("hideCount", num row.hide_count)
    ∷ ("distinctPosts", num row.distinct_posts)
    ∷ ("watchTimeMs", num row.watch_time_ms)
    ∷ ("likeCount", num row.like_count)
    ∷ ("commentCount", num row.comment_count)
    ∷ ("newFollowerCount", num row.new_follower_count)
    ∷ ("asOf", str (big_query_value row.as_of))
    ∷ ("provisional", bool row.provisional)
    ∷ []

abbrev pub batch_write_limit : ℕ
batch_write_limit = 25

-- `chunk`. Every round takes an item at least, so their number is fuel enough.
abbrev pub chunks {ℓ} : {A : Type ℓ} → ℕ → ℕ → List A → List (List A)
chunks zero size items = []
chunks (suc fuel) size [] = []
chunks (suc fuel) size (item ∷ items) =
    take size (item ∷ items) ∷ chunks fuel size (drop size (item ∷ items))

unfoldable pub chunk {ℓ} : {A : Type ℓ} → List A → ℕ → List (List A)
chunk items size = chunks (length items) size items

-- An attribute value. A number is printed by the client.
pub data AttributeValue : Type 0 where
  null_value : AttributeValue
  number_value : Number → AttributeValue
  bool_value : Bool → AttributeValue
  string_value : String → AttributeValue

-- `toAttributeMap`.
abbrev pub attribute : ItemValue → AttributeValue
attribute null = null_value
attribute (bool b) = bool_value b
attribute (num n) = number_value n
attribute (str s) = string_value s

abbrev pub to_attribute_map : Item → List (String × AttributeValue)
to_attribute_map [] = []
to_attribute_map ((key, value) ∷ item) = (key, attribute value) ∷ to_attribute_map item

pub record Written : Type 0 where
  pub written : ℤ
  pub failed : ℕ

-- `batch_write` answers with the number of items that it did not process.
module _ {W : Type 0} (batch_write : List (List (String × AttributeValue)) → W → Result ℕ × W) where
  abbrev pub count_batch : ℕ → Result ℕ → Written → Written
  count_batch size err counts = record counts { failed = counts.failed + size }
  count_batch size (ok unprocessed) counts = record {
    written = counts.written +ℤ sub_ℕ size unprocessed;
    failed = counts.failed + unprocessed;
  }

  unfoldable pub write_batches : List (List Item) → Written → W → Written × W
  write_batches [] counts w = (counts, w)
  write_batches (batch ∷ batches) counts w =
      let (answer, after) = batch_write (map to_attribute_map batch) w in
      write_batches batches (count_batch (length batch) answer counts) after

  unfoldable pub write_insights_items : List Item → W → Written × W
  unfolding write_batches chunk
  write_insights_items items w =
      write_batches (chunk items batch_write_limit) (record { written = pos 0; failed = 0 }) w

  abbrev pub write_some : List Item → W → Written × W
  write_some [] w = (record { written = pos 0; failed = 0 }, w)
  write_some (item ∷ items) w = write_insights_items (item ∷ items) w

  abbrev pub export_rows :
      Result (List PostDailyRow) → Result (List CreatorDailyRow) → W → Result Written × W
  export_rows (ok posts) (ok creators) w =
      let (counts, after) =
        write_some (map post_daily_to_item posts ++ map creator_daily_to_item creators) w in
      (ok counts, after)
  export_rows _ _ w = (err, w)

  -- The two queries only read.
  unfoldable pub run_insights_export :
      (W → Result (List PostDailyRow))
      → (W → Result (List CreatorDailyRow))
      → W
      → Result Written × W
  unfolding write_insights_items
  run_insights_export query_posts query_creators w =
      export_rows (query_posts w) (query_creators w) w
