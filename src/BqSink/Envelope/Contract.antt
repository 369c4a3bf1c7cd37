-- ===== src/BqSink/Envelope/Contract.antt =====
-- Which JSON values `isEventEnvelope` of bq-sink/src/message-handler.ts accepts, as a specification.
pub mod Fields
use escld.Prelude.{◌≡◌, ◌↔◌, ◌⊎◌, inl, inr, true, some, arith, Bool-cases}
use escld.Js.Json.{Json, str, Engine, prop, is_object, is_string_iff, is_text}
use escld.BqSink.Envelope.{common_valid, version_2_valid, is_event_envelope}
pub use escld.BqSink.Envelope.Contract.Fields.{IsEnvelope}
use escld.BqSink.Envelope.Contract.Fields.{
  IsCommon, IsVersion2, is_nullish_iff, optional_string_iff, is_text_iff, is_object_iff,
  is_valid_timestamp_iff, or_iff, ◌and_also◌, entity_version_iff, is_experiment_context_iff,
  has_prop,
}

module _ (engine : Engine) (v : Json) where
  IsOneOrTwo : Type 0
  IsOneOrTwo = (prop "eventVersion" v ≡ some (str "1")) ⊎ (prop "eventVersion" v ≡ some (str "2"))

  common_valid_iff : (common_valid engine v ≡ true) ↔ (IsCommon engine v × IsOneOrTwo)
  unfolding common_valid IsOneOrTwo
  common_valid_iff =
      let parts =
        is_string_iff (prop "eventId" v)
        and_also is_string_iff (prop "eventType" v)
        and_also or_iff (is_text_iff "1" (prop "eventVersion" v))
            (is_text_iff "2" (prop "eventVersion" v))
        and_also is_string_iff (prop "occurredAt" v)
        and_also is_valid_timestamp_iff engine (prop "occurredAt" v)
        and_also is_object_iff (prop "payload" v) in
      (
        λ h.
            let (((((i, t), w), o), ts), p) = parts.0 h in
            (record { event_id = i; event_type = t; occurred_at = ts; payload = p }, w),
        λ (c, w). parts.1 (
          ((((c.event_id, c.event_type), w), (c.occurred_at.0, c.occurred_at.1)), c.occurred_at),
          c.payload,
        ),
      )

  version_2_valid_iff : (version_2_valid engine v ≡ true) ↔ IsVersion2 engine v
  unfolding version_2_valid
  version_2_valid_iff =
      let parts =
        is_string_iff (prop "ingestedAt" v)
        and_also is_valid_timestamp_iff engine (prop "ingestedAt" v)
        and_also is_string_iff (prop "producer" v)
        and_also optional_string_iff (prop "actorId" v)
        and_also optional_string_iff (prop "entityType" v)
        and_also optional_string_iff (prop "entityId" v)
        and_also entity_version_iff (prop "entityVersion" v)
        and_also optional_string_iff (prop "correlationId" v)
        and_also optional_string_iff (prop "sessionId" v)
        and_also optional_string_iff (prop "requestId" v)
        and_also optional_string_iff (prop "experimentId" v)
        and_also optional_string_iff (prop "experimentVariant" v)
        and_also or_iff (is_nullish_iff (prop "experiment" v))
            (is_experiment_context_iff (prop "experiment" v)) in
      (
        λ h.
            let ((((((((((((i, ts), p), a), et), ei), ev), c), s), r), xi), xv), x) = parts.0 h in
            record {
              ingested_at = ts;
              producer = p;
              actor_id = a;
              entity_type = et;
              entity_id = ei;
              entity_version = ev;
              correlation_id = c;
              session_id = s;
              request_id = r;
              experiment_id = xi;
              experiment_variant = xv;
              experiment = x;
            },
        λ e. parts.1 (
          (
            (
              (
                (
                  (
                    (
                      (
                        (
                          (
                            (((e.ingested_at.0, e.ingested_at.1), e.ingested_at), e.producer),
                            e.actor_id,
                          ),
                          e.entity_type,
                        ),
                        e.entity_id,
                      ),
                      e.entity_version,
                    ),
                    e.correlation_id,
                  ),
                  e.session_id,
                ),
                e.request_id,
              ),
              e.experiment_id,
            ),
            e.experiment_variant,
          ),
          e.experiment,
        ),
      )

  is_object-IsCommon : IsCommon engine v → is_object (some v) ≡ true
  is_object-IsCommon c = has_prop v "eventId" c.event_id.1

  accepted : is_event_envelope engine v ≡ true → IsEnvelope engine v
  unfolding is_event_envelope IsOneOrTwo
  accepted h =
      let (c, w) = common_valid_iff.0 (ground arith) in
      elim (Bool-cases (is_text "1" (prop "eventVersion" v))) [
        | inl one ↦ (c, inl ((is_text_iff "1" (prop "eventVersion" v)).0 one))
        | inr other ↦ elim w [
          | inl one ↦ (c, inl one)
          | inr two ↦ (c, inr (two, version_2_valid_iff.0 (ground arith)))
        ]
      ]

  accepts : IsEnvelope engine v → is_event_envelope engine v ≡ true
  unfolding is_event_envelope IsOneOrTwo
  accepts (c, inl one) =
      rw (is_object-IsCommon c, common_valid_iff.1 (c, inl one))
        (rw ((is_text_iff "1" (prop "eventVersion" v)).1 one))
  accepts (c, inr (two, e)) =
      rw (is_object-IsCommon c, common_valid_iff.1 (c, inr two), version_2_valid_iff.1 e)
        (ground arith)

  -- `isEventEnvelope` accepts exactly the values that meet the contract.
  pub is_event_envelope_iff : (is_event_envelope engine v ≡ true) ↔ IsEnvelope engine v
  is_event_envelope_iff = (accepted, accepts)
