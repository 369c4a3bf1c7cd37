-- ===== src/Analytics/Agreement.antt =====
-- The envelopes that analytics/src/envelope.ts accepts and those that
-- bq-sink/src/message-handler.ts accepts, which read the same topics.
use escld.Prelude.{
  ◌≡◌, refl, Bool, true, false, not, ◌&&◌, ◌||◌, Option, none, some, arith, if◌then◌else◌,
}
use escld.Js.Json.{
  Json, null, bool, num, str, arr, obj, Engine, prop, is_object, is_nullish, is_text,
}
use escld.Analytics.Envelope.{
  timestamp_valid, string_or_absent, domain_common_valid, domain_version_2_valid,
  is_domain_envelope,
}
use escld.BqSink.Envelope.{
  is_valid_timestamp, optional_string, is_experiment_context, common_valid, version_2_valid,
  is_event_envelope,
}

-- What the warehouse asks of an envelope besides.
abbrev pub experiment_fits : Json → Bool
experiment_fits v =
    is_text "1" (prop "eventVersion" v)
    || is_nullish (prop "experiment" v)
    || is_experiment_context (prop "experiment" v)

is_valid_timestamp-agrees :
    (engine : Engine) (o : Option Json) → is_valid_timestamp engine o ≡ timestamp_valid engine o
unfolding is_valid_timestamp timestamp_valid
is_valid_timestamp-agrees engine none = refl
is_valid_timestamp-agrees engine (some null) = refl
is_valid_timestamp-agrees engine (some (bool b)) = refl
is_valid_timestamp-agrees engine (some (num n)) = refl
is_valid_timestamp-agrees engine (some (arr vs)) = refl
is_valid_timestamp-agrees engine (some (obj fs)) = refl
is_valid_timestamp-agrees engine (some (str s)) = ground arith

common_valid-agrees :
    (engine : Engine) (v : Json) → common_valid engine v ≡ domain_common_valid engine v
unfolding common_valid domain_common_valid
common_valid-agrees engine v = rw (is_valid_timestamp-agrees engine (prop "occurredAt" v)) refl

version_2_valid-agrees :
    (engine : Engine) (v : Json)
    → version_2_valid engine v ≡ (
        domain_version_2_valid engine v
        && (is_nullish (prop "experiment" v) || is_experiment_context (prop "experiment" v)))
unfolding version_2_valid domain_version_2_valid optional_string string_or_absent
version_2_valid-agrees engine v = rw (is_valid_timestamp-agrees engine (prop "ingestedAt" v)) refl

-- The warehouse sink accepts a value exactly where the analytics service does and, in version 2, its
-- experiment is absent, null, or an object whose id and variant are texts where they are there.
pub is_event_envelope-agrees :
    (engine : Engine) (v : Json)
    → is_event_envelope engine v ≡ (is_domain_envelope engine v && experiment_fits v)
unfolding is_event_envelope is_domain_envelope
is_event_envelope-agrees engine v =
    rw (common_valid-agrees engine v, version_2_valid-agrees engine v)
      (choose (is_object (some v)) (domain_common_valid engine v)
        (is_text "1" (prop "eventVersion" v)) (domain_version_2_valid engine v)
        (is_nullish (prop "experiment" v)) (is_experiment_context (prop "experiment" v)))
  where
    choose :
        (a b c d e f : Bool)
        → (if not a
            then false
            else (if not b then false else (if c then true else (d && (e || f)))))
          ≡ ((if not a then false else (if not b then false else (if c then true else d)))
              && (c || e || f))
    choose a b c d e f = ground arith
