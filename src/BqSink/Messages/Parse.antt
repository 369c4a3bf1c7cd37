-- ===== src/BqSink/Messages/Parse.antt =====
-- `parseMessage` and `deadLetter` of bq-sink/src/message-handler.ts, with the table lookup of
-- bq-sink/src/bigquery.ts.
use Prim.Native.String.{◌++◌}
use escld.Prelude.{
  ℕ, Bool, false, ◌||◌, not, String, Option, none, some, List, [], ◌∷◌, ◌==◌, if◌then◌else◌,
}
use escld.Js.Int.{pos}
use escld.Js.Json.{
  Json, null, num, str, int, Engine, prop, as_string, ◌or_else◌, or_null, assign_all, entries,
}
use escld.Js.Text.{decimal, utf16_take}
use escld.BqSink.Envelope.{is_event_envelope}

-- What a lookup in an object literal may give: an entry of its own, or a member that the literal
-- inherits from `Object.prototype`.
pub data TableRef : Type 0 where
  table : String → TableRef
  inherited : String → TableRef

-- `TABLE_BY_EVENT_TYPE`.
abbrev pub table_by_event_type : List (String × String)
table_by_event_type =
    ("post.created", "raw_post_created")
    ∷ ("post.liked", "raw_post_liked")
    ∷ ("post.unliked", "raw_post_unliked")
    ∷ ("post.commented", "raw_post_commented")
    ∷ ("post.comment_deleted", "raw_post_comment_deleted")
    ∷ ("post.hidden", "raw_post_hidden")
    ∷ ("post.unhidden", "raw_post_unhidden")
    ∷ ("user.followed", "raw_user_followed")
    ∷ ("user.unfollowed", "raw_user_unfollowed")
    ∷ ("live.started", "raw_live_started")
    ∷ ("live.ended", "raw_live_ended")
    ∷ ("post.impression", "raw_post_impression")
    ∷ ("post.dwell", "raw_post_dwell")
    ∷ ("feed.served", "raw_feed_served")
    ∷ ("media.progress", "raw_media_progress")
    ∷ []

-- The members of `Object.prototype` (ECMAScript, all of them truthy).
abbrev pub object_prototype : List String
object_prototype =
    "constructor" ∷ "__proto__" ∷ "toString" ∷ "valueOf" ∷ "toLocaleString" ∷ "hasOwnProperty"
    ∷ "isPrototypeOf" ∷ "propertyIsEnumerable" ∷ "__defineGetter__" ∷ "__defineSetter__"
    ∷ "__lookupGetter__" ∷ "__lookupSetter__" ∷ []

abbrev pub contains : List String → String → Bool
contains [] s = false
contains (t ∷ ts) s = t == s || contains ts s

abbrev pub own_entry : List (String × String) → String → Option String
own_entry [] key = none
own_entry ((k, v) ∷ rest) key = if k == key then some v else own_entry rest key

abbrev pub table_or_inherited : Option String → String → Option TableRef
table_or_inherited (some t) key = some (table t)
table_or_inherited none key = if contains object_prototype key then some (inherited key) else none

unfoldable pub table_for_event_type : String → Option TableRef
table_for_event_type event_type =
    table_or_inherited (own_entry table_by_event_type event_type) event_type

pub record KafkaMessage : Type 0 where
  pub value : Option String
  pub correlation_header : Option String
  pub offset : String

pub record InsertRow : Type 0 where
  pub insert_id : String
  pub row : List (String × Json)

pub data ParsedMessage : Type 0 where
  event :
      (offset : String)
      → TableRef
      → (event_type : String) → InsertRow
      → (envelope_json : String) → ParsedMessage
  dead_letter : (offset reason : String) → InsertRow → ParsedMessage

abbrev pub offset_of : ParsedMessage → String
offset_of (event o t ty r e) = o
offset_of (dead_letter o why r) = o

abbrev pub row_of : ParsedMessage → InsertRow
row_of (event o t ty r e) = r
row_of (dead_letter o why r) = r

abbrev pub str_or_null : Option String → Json
str_or_null none = null
str_or_null (some s) = str s

abbrev pub max_raw_length : ℕ
max_raw_length = 65536

abbrev pub malformed_json : String
malformed_json = "MALFORMED_JSON"

abbrev pub invalid_envelope : String
invalid_envelope = "INVALID_EVENT_ENVELOPE"

abbrev pub unmapped_type : String
unmapped_type = "UNMAPPED_EVENT_TYPE"

-- Where a record came from.
pub record Origin : Type 0 where
  pub topic : String
  pub partition : ℕ
  pub offset : String

unfoldable pub quarantine_id : Origin → String
quarantine_id at =
    "quarantine-" ++ (at.topic ++ ("-" ++ (decimal at.partition ++ ("-" ++ at.offset))))

-- `now` is `new Date().toISOString()`.
unfoldable pub dead_letter_row : String → Origin → Option String → String → String → InsertRow
dead_letter_row now at correlation_id reason raw_message = record {
  insert_id = quarantine_id at;
  row =
      ("quarantinedAt", str now)
      ∷ ("topic", str at.topic)
      ∷ ("partition", num (int (pos at.partition)))
      ∷ ("offset", str at.offset)
      ∷ ("reason", str reason)
      ∷ ("correlationId", str_or_null correlation_id)
      ∷ ("rawMessage", str (utf16_take max_raw_length raw_message))
      ∷ [];
}

-- The columns that the landing row's literal writes after `...raw.payload`.
unfoldable pub columns : Origin → Option String → Json → List (String × Json)
columns at correlation_id raw =
    let payload = or_null (prop "payload" raw) in
    let experiment = or_null (prop "experiment" raw) in
    ("eventId", or_null (prop "eventId" raw))
    ∷ ("eventVersion", or_null (prop "eventVersion" raw))
    ∷ ("occurredAt", or_null (prop "occurredAt" raw))
    ∷ ("ingestedAt", or_null (prop "ingestedAt" raw))
    ∷ ("producer", or_null (prop "producer" raw))
    ∷ ("actorId", or_null (prop "actorId" raw))
    ∷ ("entityType", or_null (prop "entityType" raw))
    ∷ ("entityId", or_null (prop "entityId" raw))
    ∷ ("entityVersion", or_null (prop "entityVersion" raw))
    ∷ (
      "correlationId",
      or_null (prop "correlationId" raw or_else some (str_or_null correlation_id)),
    )
    ∷ ("sessionId", or_null (prop "sessionId" raw or_else prop "sessionId" payload))
    ∷ ("requestId", or_null (prop "requestId" raw or_else prop "requestId" payload))
    ∷ (
      "experimentId",
      or_null (
          prop "experimentId" raw or_else prop "id" experiment or_else prop "experimentId" payload),
    )
    ∷ (
      "experimentVariant",
      or_null (
          prop "experimentVariant" raw
          or_else prop "variant" experiment
          or_else prop "experimentVariant" payload),
    )
    ∷ ("eventType", or_null (prop "eventType" raw))
    ∷ ("eventPayload", payload)
    ∷ ("sourceTopic", str at.topic)
    ∷ ("sourcePartition", num (int (pos at.partition)))
    ∷ ("sourceOffset", str at.offset)
    ∷ []

-- The landing row: the payload's properties, then the columns, which replace them.
unfoldable pub event_row : Origin → Option String → Json → List (String × Json)
unfolding columns
event_row at correlation_id raw =
    assign_all (columns at correlation_id raw) (entries (or_null (prop "payload" raw)))

abbrev pub text_or_empty : Option String → String
text_or_empty none = ""
text_or_empty (some s) = s

module _ (engine : Engine) (lookup_table : String → Option TableRef) where
  -- The part after a table was looked up, and the part after the text was parsed.
  unfoldable pub route :
      Origin → KafkaMessage → String → Json → String → Option TableRef → ParsedMessage
  route at message raw_message raw now none =
      dead_letter message.offset unmapped_type
        (dead_letter_row now at message.correlation_header unmapped_type raw_message)
  route at message raw_message raw now (some t) =
      event message.offset t (as_string (prop "eventType" raw))
        (record {
          insert_id = as_string (prop "eventId" raw);
          row = event_row at message.correlation_header raw;
        })
        raw_message

  unfoldable pub check : Origin → KafkaMessage → String → String → Option Json → ParsedMessage
  unfolding route
  check at message raw_message now none =
      dead_letter message.offset malformed_json
        (dead_letter_row now at message.correlation_header malformed_json raw_message)
  check at message raw_message now (some raw) =
      if not (is_event_envelope engine raw)
      then dead_letter message.offset invalid_envelope
          (dead_letter_row now at message.correlation_header invalid_envelope raw_message)
      else route at message raw_message raw now (lookup_table (as_string (prop "eventType" raw)))

  unfoldable pub parse_message : String → ℕ → String → KafkaMessage → ParsedMessage
  unfolding check
  parse_message topic partition now message =
      let raw_message = text_or_empty message.value in
      check (record { topic = topic; partition = partition; offset = message.offset }) message
        raw_message now (engine.json_parse raw_message)
