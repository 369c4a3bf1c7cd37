-- ===== src/FeedWorker/Dynamo.antt =====
-- feed-worker/src/dynamo.ts, over an abstract DynamoDB client.
use escld.Prelude.{
  ℕ, zero, suc, String, Option, none, some, List, [], ◌∷◌, ◌++◌, map, ◌==◌, if◌then◌else◌, length,
  take, drop, Result, ok, err,
}
use Prim.Native.String.{◌++◌ as append_text}
use escld.Js.Text.{utf16_drop, utf16_length}

abbrev pub follower_prefix : String
follower_prefix = "FOLLOWER#"

abbrev pub post_prefix : String
post_prefix = "POST#"

abbrev pub batch_size : ℕ
batch_size = 25

abbrev pub fanout_concurrency : ℕ
fanout_concurrency = 10

abbrev pub max_writes : ℕ
max_writes = 5

-- A page of a query: the sort keys of its items, where they have one, and where the next page starts.
pub record Page (Key : Type 0) : Type 0 where
  pub sort_keys : List (Option String)
  pub last_evaluated_key : Option Key

-- A `PutRequest`.
pub record FeedItem : Type 0 where
  pub pk : String
  pub sk : String
  pub post_id : String
  pub author_id : String
  pub created_at : String

-- `BatchWriteItem` answers with the items of the feed table that it did not process.
pub record Dynamo (W : Type 0) : Type 1 where
  pub Key : Type 0
  pub query : (pk prefix : String) → Option Key → W → Result (Page Key) × W
  pub batch_write : List FeedItem → W → Result (Option (List FeedItem)) × W

-- `USER#<id>`.
abbrev pub user_key : String → String
user_key id = append_text "USER#" id

-- The ids of one page.
abbrev pub followers_of : List (Option String) → List String
followers_of [] = []
followers_of (none ∷ keys) = followers_of keys
followers_of (some sk ∷ keys) =
    if sk == ""
    then followers_of keys
    else utf16_drop (utf16_length follower_prefix) sk ∷ followers_of keys

-- `listFollowers`, for at most `fuel` pages. `none` is a run that takes more.
module _ {W : Type 0} (dynamo : Dynamo W) (author_id : String) where
  abbrev pub then_followers :
      List String → Option (Result (List String)) × W → Option (Result (List String)) × W
  then_followers ids (some (ok more), w) = (some (ok (ids ++ more)), w)
  then_followers ids (other, w) = (other, w)

  -- What is done with a page, given what is done with the next start.
  abbrev pub read_page :
      (dynamo.Key → W → Option (Result (List String)) × W)
      → Result (Page dynamo.Key) × W
      → Option (Result (List String)) × W
  read_page rest (err, w) = (some err, w)
  read_page rest (ok page, w) = elim page.last_evaluated_key [
    | none ↦ (some (ok (followers_of page.sort_keys)), w)
    | some next ↦ then_followers (followers_of page.sort_keys) (rest next w)
  ]

  unfoldable pub list_from : ℕ → Option dynamo.Key → W → Option (Result (List String)) × W
  list_from zero start w = (none, w)
  list_from (suc fuel) start w =
      read_page (λ next after. list_from fuel (some next) after)
        (dynamo.query (user_key author_id) follower_prefix start w)

  unfoldable pub list_followers : ℕ → W → Option (Result (List String)) × W
  unfolding list_from
  list_followers fuel w = list_from fuel none w

-- The item for one recipient.
unfoldable pub feed_item : (post_id author_id created_at recipient_id : String) → FeedItem
feed_item post_id author_id created_at recipient_id = record {
  pk = user_key recipient_id;
  sk = append_text post_prefix (append_text created_at (append_text "#" post_id));
  post_id = post_id;
  author_id = author_id;
  created_at = created_at;
}

-- `batches`. Every round takes an item at least, so their number is fuel enough.
abbrev pub slices : ℕ → List FeedItem → List (List FeedItem)
slices zero items = []
slices (suc fuel) [] = []
slices (suc fuel) (item ∷ items) =
    take batch_size (item ∷ items) ∷ slices fuel (drop batch_size (item ∷ items))

unfoldable pub batches_of : List FeedItem → List (List FeedItem)
batches_of items = slices (length items) items

unfoldable pub write_batches :
    (post_id author_id created_at : String) → List String → List (List FeedItem)
unfolding batches_of feed_item
write_batches post_id author_id created_at recipient_ids =
    batches_of (map (feed_item post_id author_id created_at) recipient_ids)
