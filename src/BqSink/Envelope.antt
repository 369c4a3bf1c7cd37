-- ===== src/BqSink/Envelope.antt =====
-- The validation of event envelopes: `isEventEnvelope` and its helpers of
-- bq-sink/src/message-handler.ts.
pub mod Contract
use escld.Prelude.{Bool, true, false, ◌&&◌, ◌||◌, not, Option, none, some, ltb, eqb, if◌then◌else◌}
use escld.Js.Json.{
  Json, str, Engine, prop, is_object, is_string, is_nullish, is_text, is_safe_integer,
}
use escld.Js.Text.{utf16_length}
use escld.Js.Int.{ℤ}

abbrev pub is_finite : Option ℤ → Bool
is_finite none = false
is_finite (some t) = true

unfoldable pub is_valid_timestamp : Engine → Option Json → Bool
is_valid_timestamp engine (some (str s)) =
    if eqb (utf16_length s) 0 || ltb 64 (utf16_length s)
    then false
    else is_finite (engine.date_parse s)
is_valid_timestamp engine _ = false

unfoldable pub optional_string : Option Json → Bool
optional_string o = is_nullish o || is_string o

unfoldable pub is_experiment_context : Option Json → Bool
unfolding optional_string
is_experiment_context none = false
is_experiment_context (some v) =
    if not (is_object (some v))
    then false
    else optional_string (prop "id" v) && optional_string (prop "variant" v)

-- `commonValid`.
unfoldable pub common_valid : Engine → Json → Bool
common_valid engine v =
    is_string (prop "eventId" v)
    && is_string (prop "eventType" v)
    && (is_text "1" (prop "eventVersion" v) || is_text "2" (prop "eventVersion" v))
    && is_string (prop "occurredAt" v)
    && is_valid_timestamp engine (prop "occurredAt" v)
    && is_object (prop "payload" v)

-- The fields that version 2 adds.
unfoldable pub version_2_valid : Engine → Json → Bool
version_2_valid engine v =
    is_string (prop "ingestedAt" v)
    && is_valid_timestamp engine (prop "ingestedAt" v)
    && is_string (prop "producer" v)
    && optional_string (prop "actorId" v)
    && optional_string (prop "entityType" v)
    && optional_string (prop "entityId" v)
    && (is_nullish (prop "entityVersion" v) || is_safe_integer (prop "entityVersion" v))
    && optional_string (prop "correlationId" v)
    && optional_string (prop "sessionId" v)
    && optional_string (prop "requestId" v)
    && optional_string (prop "experimentId" v)
    && optional_string (prop "experimentVariant" v)
    && (is_nullish (prop "experiment" v) || is_experiment_context (prop "experiment" v))

unfoldable pub is_event_envelope : Engine → Json → Bool
is_event_envelope engine value =
    if not (is_object (some value))
    then false
    else if not (common_valid engine value)
    then false
    else if is_text "1" (prop "eventVersion" value)
    then true
    else version_2_valid engine value
