-- ===== src/Analytics/Envelope.antt =====
-- analytics/src/envelope.ts: the envelopes that the processor accepts, and the trending weights.
use escld.Prelude.{
  ℕ, String, Bool, true, false, not, ◌&&◌, ◌||◌, Option, none, some, ◌==◌, ltb, eqb, if◌then◌else◌,
}
use escld.Js.Int.{ℤ}
use escld.Js.Json.{
  Json, str, Engine, prop, is_object, is_string, is_nullish, is_text, is_safe_integer,
}
use escld.Js.Text.{utf16_length}

abbrev pub is_number : Option ℤ → Bool
is_number none = false
is_number (some t) = true

unfoldable pub timestamp_valid : Engine → Option Json → Bool
timestamp_valid engine (some (str s)) =
    if eqb (utf16_length s) 0 || ltb 64 (utf16_length s)
    then false
    else is_number (engine.date_parse s)
timestamp_valid engine _ = false

unfoldable pub string_or_absent : Option Json → Bool
string_or_absent o = is_nullish o || is_string o

-- `commonValid`.
unfoldable pub domain_common_valid : Engine → Json → Bool
domain_common_valid engine v =
    is_string (prop "eventId" v)
    && is_string (prop "eventType" v)
    && (is_text "1" (prop "eventVersion" v) || is_text "2" (prop "eventVersion" v))
    && is_string (prop "occurredAt" v)
    && timestamp_valid engine (prop "occurredAt" v)
    && is_object (prop "payload" v)

unfoldable pub domain_version_2_valid : Engine → Json → Bool
domain_version_2_valid engine v =
    is_string (prop "ingestedAt" v)
    && timestamp_valid engine (prop "ingestedAt" v)
    && is_string (prop "producer" v)
    && string_or_absent (prop "actorId" v)
    && string_or_absent (prop "entityType" v)
    && string_or_absent (prop "entityId" v)
    && (is_nullish (prop "entityVersion" v) || is_safe_integer (prop "entityVersion" v))
    && string_or_absent (prop "correlationId" v)
    && string_or_absent (prop "sessionId" v)
    && string_or_absent (prop "requestId" v)
    && string_or_absent (prop "experimentId" v)
    && string_or_absent (prop "experimentVariant" v)

unfoldable pub is_domain_envelope : Engine → Json → Bool
is_domain_envelope engine value =
    if not (is_object (some value))
    then false
    else if not (domain_common_valid engine value)
    then false
    else if is_text "1" (prop "eventVersion" value)
    then true
    else domain_version_2_valid engine value

-- `trendingContribution`: no kind, or a kind with its weight. No event type contributes to a hashtag.
pub data Kind : Type 0 where
  post hashtag : Kind

pub record Contribution : Type 0 where
  pub kind : Option Kind
  pub weight : ℕ

unfoldable pub trending_contribution : String → Contribution
trending_contribution event_type =
    if event_type == "post.created"
    then record { kind = some post; weight = 1 }
    else if event_type == "post.liked"
    then record { kind = some post; weight = 3 }
    else if event_type == "post.commented"
    then record { kind = some post; weight = 5 }
    else record { kind = none; weight = 0 }
