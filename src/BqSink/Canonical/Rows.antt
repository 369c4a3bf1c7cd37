-- ===== src/BqSink/Canonical/Rows.antt =====
-- The rows of the raw tables and of canonical_events, and the rows that a run reads:
-- `candidate_events` of bq-sink/src/canonicalizer.ts.
use escld.Prelude.{
  ℕ, ◌+◌, ◌-◌, ◌*◌, String, Bool, true, false, not, ◌&&◌, ◌||◌, Option, none, some, List, [], ◌∷◌,
  ◌++◌, map, ltb, leb,
}
use escld.Js.Int.{ℤ, pos_part, neg_part}
use escld.Js.Json.{Json, Number, bool, num, str, prop}
use escld.BqSink.Messages.Ids.{raw_tables}
use escld.BqSink.Sql.{coalesce, where_true, text_before}

-- What the statements use of BigQuery: `TO_HEX(SHA256(TO_JSON_STRING(payload)))`, the text of a
-- number in JSON_VALUE, the safe casts of a text to INT64, BOOL and FLOAT64, `SAFE_DIVIDE`, the
-- middle one of a hundred approximate quantiles. A FLOAT64 is a double that is no NaN, of which
-- only the order is used, given as an integer in the unit of the smallest double; `half` and `one`
-- are 0.5 and 1.0.
pub record Functions : Type 0 where
  pub payload_hash : Option Json → Option String
  pub number_text : Number → String
  pub int64_of : String → Option ℤ
  pub bool_of : String → Option Bool
  pub float64_of : String → Option ℤ
  pub safe_divide : ℤ → ℤ → Option ℤ
  pub half : ℤ
  pub one : ℤ
  pub approx_median : List ℤ → Option ℤ

-- `JSON_VALUE(payload, '$.name')`: NULL where there is no such scalar.
abbrev pub scalar : Functions → Option Json → Option String
scalar bq (some (str s)) = some s
scalar bq (some (bool true)) = some "true"
scalar bq (some (bool false)) = some "false"
scalar bq (some (num n)) = some (bq.number_text n)
scalar bq _ = none

abbrev pub json_value : Functions → Option Json → String → Option String
json_value bq none name = none
json_value bq (some payload) name = scalar bq (prop name payload)

-- A row of a raw table. bq-sink writes the columns without an `Option` in every row. A timestamp
-- is in microseconds from the first that BigQuery has.
pub record RawRow : Type 0 where
  pub event_id : String
  pub event_version : String
  pub occurred_at : ℕ
  pub ingested_at : Option ℕ
  pub producer : Option String
  pub actor_id : Option String
  pub entity_type : Option String
  pub entity_id : Option String
  pub entity_version : Option ℤ
  pub correlation_id : Option String
  pub session_id : Option String
  pub request_id : Option String
  pub experiment_id : Option String
  pub experiment_variant : Option String
  pub event_payload : Option Json
  pub source_topic : Option String
  pub source_partition : Option ℤ
  pub source_offset : Option String

-- A row of `candidate_events`, and of `canonical_events` without `canonicalizedAt`.
pub record Event : Type 0 where
  pub event_id : String
  pub event_type : String
  pub event_version : String
  pub occurred_at : ℕ
  pub ingested_at : ℕ
  pub producer : Option String
  pub actor_id : Option String
  pub entity_type : Option String
  pub entity_id : Option String
  pub entity_version : Option ℤ
  pub correlation_id : Option String
  pub session_id : Option String
  pub request_id : Option String
  pub experiment_id : Option String
  pub experiment_variant : Option String
  pub payload : Option Json
  pub payload_hash : Option String
  pub source_topic : Option String
  pub source_partition : Option ℤ
  pub source_offset : Option String

abbrev pub ingestion_time : RawRow → ℕ
ingestion_time r = elim r.ingested_at [ none ↦ r.occurred_at | some t ↦ t ]

unfoldable pub candidate : Functions → String → RawRow → Event
candidate bq event_type r = record {
  event_id = r.event_id;
  event_type = event_type;
  event_version = r.event_version;
  occurred_at = r.occurred_at;
  ingested_at = ingestion_time r;
  producer = r.producer;
  actor_id = r.actor_id;
  entity_type = r.entity_type;
  entity_id = r.entity_id;
  entity_version = r.entity_version;
  correlation_id = r.correlation_id;
  session_id = coalesce r.session_id (json_value bq r.event_payload "sessionId");
  request_id = coalesce r.request_id (json_value bq r.event_payload "requestId");
  experiment_id = coalesce r.experiment_id (json_value bq r.event_payload "experimentId");
  experiment_variant =
      coalesce r.experiment_variant (json_value bq r.event_payload "experimentVariant");
  payload = r.event_payload;
  payload_hash = bq.payload_hash r.event_payload;
  source_topic = r.source_topic;
  source_partition = r.source_partition;
  source_offset = r.source_offset;
}

abbrev pub microseconds_per_day : ℕ
microseconds_per_day = 86400000000

-- `time >= TIMESTAMP_SUB(CURRENT_TIMESTAMP(), INTERVAL days DAY)`.
abbrev pub within_days : (now days time : ℕ) → Bool
within_days now days time = leb (now - days * microseconds_per_day) time

-- The UNION ALL over `RAW_TABLES`.
unfoldable pub union_of :
    Functions
    → (String → List RawRow)
    → (now lookback_days : ℕ) → List (String × String)
    → List Event
unfolding candidate
union_of bq raw now lookback_days [] = []
union_of bq raw now lookback_days ((table, event_type) ∷ tables) =
    map (candidate bq event_type)
      (where_true (λ r. within_days now lookback_days (ingestion_time r)) (raw table))
    ++ union_of bq raw now lookback_days tables

unfoldable pub candidate_events :
    Functions → (String → List RawRow) → (now lookback_days : ℕ) → List Event
unfolding union_of
candidate_events bq raw now lookback_days = union_of bq raw now lookback_days raw_tables

-- ORDER BY puts NULL first.
abbrev pub null_first {ℓ} : {A : Type ℓ} → (A → A → Bool) → Option A → Option A → Bool
null_first lt a none = false
null_first lt none (some b) = true
null_first lt (some a) (some b) = lt a b

-- `JSON_QUERY(payload, '$.name')`.
abbrev pub json_query : Option Json → String → Option Json
json_query none name = none
json_query (some payload) name = prop name payload

abbrev pub ltb_ℤ : ℤ → ℤ → Bool
ltb_ℤ a b = ltb (pos_part a + neg_part b) (pos_part b + neg_part a)

-- `SAFE_CAST(text AS INT64)`.
abbrev pub safe_int64 : Functions → Option String → Option ℤ
safe_int64 bq none = none
safe_int64 bq (some text) = bq.int64_of text

-- A comparison by one column, and by the next ones where it is even.
abbrev pub then_by : (less greater rest : Bool) → Bool
then_by less greater rest = less || (not greater && rest)

-- ORDER BY ingestedAt, sourceTopic, sourcePartition, SAFE_CAST(sourceOffset AS INT64).
unfoldable pub event_before : Functions → Event → Event → Bool
event_before bq a b = then_by (ltb a.ingested_at b.ingested_at) (ltb b.ingested_at a.ingested_at) (
    then_by (null_first text_before a.source_topic b.source_topic)
      (null_first text_before b.source_topic a.source_topic)
      (then_by (null_first ltb_ℤ a.source_partition b.source_partition)
        (null_first ltb_ℤ b.source_partition a.source_partition)
        (null_first ltb_ℤ (safe_int64 bq a.source_offset) (safe_int64 bq b.source_offset))))

-- `SAFE_CAST(JSON_VALUE(payload, '$.name') AS …)`.
abbrev pub json_int64 : Functions → Option Json → String → Option ℤ
json_int64 bq payload name = safe_int64 bq (json_value bq payload name)

abbrev pub json_bool : Functions → Option Json → String → Option Bool
json_bool bq payload name = elim (json_value bq payload name) [
  | none ↦ none
  | some t ↦ bq.bool_of t
]

abbrev pub json_float64 : Functions → Option Json → String → Option ℤ
json_float64 bq payload name = elim (json_value bq payload name) [
  | none ↦ none
  | some t ↦ bq.float64_of t
]

-- `a = b` on integers, and `a >= b`.
abbrev pub equal_ℤ : Option ℤ → Option ℤ → Bool
equal_ℤ (some a) (some b) = not (ltb_ℤ a b) && not (ltb_ℤ b a)
equal_ℤ _ _ = false

abbrev pub at_least : Option ℤ → ℤ → Bool
at_least none b = false
at_least (some a) b = not (ltb_ℤ a b)
