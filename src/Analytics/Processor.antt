-- ===== src/Analytics/Processor.antt =====
-- analytics/src/processor.ts: the consumer of domain events.
pub mod Keeps
pub mod Messages
pub mod Deliveries
pub mod Effects
pub mod Guarantees
pub mod Offsets
pub mod Payload
use escld.Prelude.{
  ℕ, suc, String, Bool, true, false, not, ◌||◌, Option, none, some, List, [], ◌∷◌, ◌++◌, ◌==◌,
  if◌then◌else◌, take, Result, ok, err,
}
use Prim.Native.String as Text
use Prim.Native.String.{◌++◌ as append_text}
use text.Mathlib.Text.{starts_with}
use escld.Js.Int.{ℤ, pos}
use escld.Js.Json.{Json, str, arr, obj, null, Engine, prop, items, as_string, or_null, ◌or_else◌}
use escld.Js.Text.{utf16_take}
use escld.Analytics.Envelope.{is_domain_envelope, Kind, trending_contribution}
use escld.Analytics.Redis.{
  Command, del, sadd, Redis, Exec, ◌>>=◌, ◌>>◌, after, pure, swallow, send, exec, ask,
}
use escld.Analytics.Stores.{
  try_claim, record_trending, record_positive, record_hide, record_seen, author_pos, author_neg,
  topic_pos, topic_neg, seen_key,
}
use escld.Analytics.Processor.Payload.{
  actor_of, deletion_events, entity_key_of, event_id_of, event_type_of, feature_author, payload_of,
  post_id_of, string_items, text_of, time_or_zero, visited_tags, texts, nonempty_texts,
}

module _ {S : Type 0} (redis : Redis S) (engine : Engine) where
  abbrev pub suppress_posts : List String → Exec S (Unit {0})
  suppress_posts [] s = (ok tt, s)
  suppress_posts (post_id ∷ rest) s =
      after (swallow (send redis (sadd "suppression:posts" post_id) s)) (λ _. suppress_posts rest)

  abbrev pub clear_features : String → List Command
  clear_features user_id =
      del (author_pos user_id)
      ∷ del (author_neg user_id)
      ∷ del (topic_pos user_id)
      ∷ del (topic_neg user_id)
      ∷ del (seen_key user_id)
      ∷ []

  abbrev pub suppress_user : Option String → Exec S (Unit {0})
  suppress_user none = pure tt
  suppress_user (some user_id) = do
    send redis (sadd "suppression:users" user_id)
    λ s. swallow (exec redis (clear_features user_id) s)

  -- `typeof payload.userId === "string" ? payload.userId : (actorId ?? null)`, where it is truthy.
  abbrev pub deleted_user : Option String → Option String → Option String
  deleted_user (some s) actor = if s == "" then none else some s
  deleted_user none actor = actor

  abbrev pub owned_posts : Option Json → List String
  owned_posts (some (arr vs)) = nonempty_texts (texts (take 5000 (items vs)))
  owned_posts _ = []

  unfoldable pub apply_deletion : Json → Exec S (Unit {0})
  apply_deletion v = do
    suppress_user (deleted_user (text_of (prop "userId" (payload_of v))) (actor_of engine v))
    suppress_posts (owned_posts (prop "ownedPostIds" (payload_of v)))

  -- One of the checks of `isSuppressed`, which the client sends in this order; a check that does not
  -- apply is not made.
  abbrev pub listed : String → Option String → Exec S Bool
  listed key none = pure false
  listed key (some member) = ask redis (redis.is_member key member)

  unfoldable pub is_suppressed : Option String → Option String → Exec S Bool
  is_suppressed actor post_id = do
    user ← listed "suppression:users" actor
    post ← listed "suppression:posts" post_id
    pure (user || post)

  abbrev pub seen_if : String → Option String → Exec S (Unit {0})
  seen_if viewer none = pure tt
  seen_if viewer (some post_id) = record_seen redis engine viewer post_id

  unfoldable pub materialize : String → Json → Exec S (Unit {0})
  materialize viewer v =
      let tags = string_items (prop "tags" (payload_of v)) in
      let author = feature_author v in
      let event_type = event_type_of v in
      if event_type == "post.impression"
      then seen_if viewer (post_id_of v)
      else if event_type == "post.liked"
      then record_positive redis engine viewer author tags 2
      else if event_type == "post.commented"
      then record_positive redis engine viewer author tags 3
      else if event_type == "user.followed"
      then record_positive redis engine viewer author [] 4
      else if event_type == "post.hidden"
      then record_hide redis engine viewer author tags
      else pure tt

  unfoldable pub materialize_features : Json → Exec S (Unit {0})
  unfolding materialize
  materialize_features v = elim (actor_of engine v) [
    | none ↦ pure tt
    | some viewer ↦ materialize viewer v
  ]

  unfoldable pub record_tags : List Json → ℕ → ℤ → Exec S (Unit {0})
  record_tags [] weight time = pure tt
  record_tags (str tag ∷ tags) weight time =
      let rest = record_tags tags weight time in
      if tag == ""
      then rest
      else do record_trending redis engine "hashtags" (engine.to_lower_case tag) weight time; rest
  record_tags (v ∷ tags) weight time = record_tags tags weight time

  abbrev pub lift : {A : Type 0} → Result A → Exec S A
  lift r s = (r, s)

  abbrev pub record_post : Option String → ℕ → ℤ → Exec S (Unit {0})
  record_post none weight time = pure tt
  record_post (some post_id) weight time = record_trending redis engine "posts" post_id weight time

  -- What follows a won claim.
  unfoldable pub apply_event : Json → ℕ → Exec S (Unit {0})
  unfolding record_tags materialize_features
  apply_event v weight =
      let time = time_or_zero (engine.date_parse (as_string (prop "occurredAt" v))) in
      do
        tags ←
            (if event_type_of v == "post.created"
              then lift (visited_tags engine (prop "tags" (payload_of v)))
              else pure [])
        record_tags tags weight time
        record_post (text_of (prop "postId" (payload_of v) or_else prop "entityId" v)) weight time
        materialize_features v

  abbrev pub apply_if : Bool → Json → ℕ → Exec S (Unit {0})
  apply_if false v weight = pure tt
  apply_if true v weight = apply_event v weight

  -- From the test of the trending contribution on.
  abbrev pub claim_and_apply : Option Kind → ℕ → Option String → String → Json → Exec S (Unit {0})
  claim_and_apply none weight key now v = pure tt
  claim_and_apply (some kind) weight none now v = pure tt
  claim_and_apply (some kind) weight (some key) now v = do
    won ← try_claim redis engine (event_id_of v) key now
    apply_if won v weight

  unfoldable pub contribute : String → Json → Exec S (Unit {0})
  contribute now v =
      let contribution = trending_contribution (event_type_of v) in
      claim_and_apply contribution.kind contribution.weight
        (entity_key_of (event_type_of v) (post_id_of v)) now v

  unfoldable pub process_event : String → Json → Exec S (Unit {0})
  unfolding contribute
  process_event now v = if deletion_events (event_type_of v) then apply_deletion v else do
    suppressed ← is_suppressed (actor_of engine v) (post_id_of v)
    if suppressed then pure tt else contribute now v

  abbrev pub process_parsed : String → Option Json → Exec S (Unit {0})
  process_parsed now none = pure tt
  process_parsed now (some v) =
      if not (is_domain_envelope engine v) then pure tt else process_event now v

  -- One round of the loop, up to the resolution of the offset, which ends every branch that does
  -- not throw.
  unfoldable pub process_message : String → String → Exec S (Unit {0})
  unfolding process_event
  process_message now raw = process_parsed now (engine.json_parse raw)

pub record Incoming : Type 0 where
  pub value : Option String
  pub offset : String

pub data KafkaEffect : Type 0 where
  resolve_offset : String → KafkaEffect
  commit_offsets beat : KafkaEffect

pub data Stop : Type 0 where
  returned stopped threw : Stop

pub record Consumer (S : Type 0) : Type 0 where
  pub server : S
  pub effects : List KafkaEffect

abbrev pub raw_of : Option String → String
raw_of none = ""
raw_of (some s) = s

-- What KafkaJS answers: `isRunning() && !isStale()` at the i-th message, and whether
-- `commitOffsetsIfNecessary` and `heartbeat` after the loop resolve or reject.
pub record EachBatch : Type 0 where
  pub is_wanted : ℕ → Bool
  pub commits : Bool
  pub beats : Bool

abbrev pub logged : {S : Type 0} → List KafkaEffect → Consumer S → Consumer S
logged effects c = record c { effects = c.effects ++ effects }

-- What follows the loop.
unfoldable pub settle_batch : {S : Type 0} → EachBatch → Consumer S → Stop × Consumer S
settle_batch payload c =
    if not payload.commits
    then (threw, c)
    else if not payload.beats
    then (threw, logged (commit_offsets ∷ []) c)
    else (returned, logged (commit_offsets ∷ beat ∷ []) c)

-- The loop of `handleBatch`, and what follows it.
unfoldable pub handle_records :
    {S : Type 0}
    → Redis S
    → Engine
    → EachBatch
    → (ℕ → String)
    → ℕ
    → List Incoming
    → Consumer S
    → Stop × Consumer S
unfolding settle_batch
handle_records redis engine payload clock i [] c = settle_batch payload c
handle_records redis engine payload clock i (m ∷ ms) c =
    let (result, server) = process_message redis engine (clock i) (raw_of m.value) c.server in
    let on =
      handle_records redis engine payload clock (suc i) ms
        (record { server = server; effects = c.effects ++ resolve_offset m.offset ∷ [] }) in
    if not (payload.is_wanted i)
    then (stopped, c)
    else elim result [ ok u ↦ on | err ↦ (threw, record c { server = server }) ]
