-- ===== src/BqSink/Envelope/Contract/Fields.antt =====
-- The contract of the single fields of an envelope, beside the tests of bq-sink/src/types.ts.
use escld.Prelude.{
  ◌≤◌, ◌<◌, String, ◌≡◌, refl, sym, subst, ◌↔◌, ◌⊎◌, inl, inr, Bool, true, false, ◌&&◌, ◌||◌,
  Option, none, some, arith, eq_iff, leb→le,
}
use escld.Js.Int.{ℤ, abs}
use escld.Js.Json.{
  Json, null, num, int, fraction, str, obj, arr, bool, Engine, prop, is_object, is_nullish, is_text,
  is_safe_integer, max_safe_integer,
}
use escld.Js.Text.{utf16_length}
use escld.BqSink.Envelope.{is_finite, is_valid_timestamp, optional_string, is_experiment_context}

abbrev pub IsText : Option Json → Type 0
IsText o = (s : String) × (o ≡ some (str s))

abbrev pub IsAbsent : Option Json → Type 0
IsAbsent o = (o ≡ none) ⊎ (o ≡ some null)

abbrev pub IsOptionalText : Option Json → Type 0
IsOptionalText o = IsAbsent o ⊎ IsText o

-- A text of 1 to 64 code units that stands for a date.
abbrev pub IsTimestamp : Engine → Option Json → Type 0
IsTimestamp engine o =
    (s : String) × (o ≡ some (str s))
    × (0 < utf16_length s)
    × (utf16_length s ≤ 64)
    × (t : ℤ) × (engine.date_parse s ≡ some t)

abbrev pub IsInteger : Option Json → Type 0
IsInteger o = (z : ℤ) × (o ≡ some (num (int z))) × (abs z ≤ max_safe_integer)

-- An object or an array.
abbrev pub IsObject : Option Json → Type 0
IsObject o = (v : Json) × (o ≡ some v) × (is_object (some v) ≡ true)

abbrev pub IsExperiment : Option Json → Type 0
IsExperiment o =
    (v : Json) × (o ≡ some v)
    × (is_object (some v) ≡ true)
    × IsOptionalText (prop "id" v)
    × IsOptionalText (prop "variant" v)

pub record IsCommon (engine : Engine) (v : Json) : Type 0 where
  pub event_id : IsText (prop "eventId" v)
  pub event_type : IsText (prop "eventType" v)
  pub occurred_at : IsTimestamp engine (prop "occurredAt" v)
  pub payload : IsObject (prop "payload" v)

pub record IsVersion2 (engine : Engine) (v : Json) : Type 0 where
  pub ingested_at : IsTimestamp engine (prop "ingestedAt" v)
  pub producer : IsText (prop "producer" v)
  pub actor_id : IsOptionalText (prop "actorId" v)
  pub entity_type : IsOptionalText (prop "entityType" v)
  pub entity_id : IsOptionalText (prop "entityId" v)
  pub entity_version : IsAbsent (prop "entityVersion" v) ⊎ IsInteger (prop "entityVersion" v)
  pub correlation_id : IsOptionalText (prop "correlationId" v)
  pub session_id : IsOptionalText (prop "sessionId" v)
  pub request_id : IsOptionalText (prop "requestId" v)
  pub experiment_id : IsOptionalText (prop "experimentId" v)
  pub experiment_variant : IsOptionalText (prop "experimentVariant" v)
  pub experiment : IsAbsent (prop "experiment" v) ⊎ IsExperiment (prop "experiment" v)

-- The contract of an event envelope: version 1 asks for the common fields, version 2 for more.
abbrev pub IsEnvelope : Engine → Json → Type 0
IsEnvelope engine v =
    IsCommon engine v
    × ((prop "eventVersion" v ≡ some (str "1"))
        ⊎ ((prop "eventVersion" v ≡ some (str "2")) × IsVersion2 engine v))

pub is_nullish_iff : (o : Option Json) → (is_nullish o ≡ true) ↔ IsAbsent o
is_nullish_iff none = (λ _. inl refl, λ _. refl)
is_nullish_iff (some null) = (λ _. inr refl, λ _. refl)
is_nullish_iff (some (str s)) = ground arith
is_nullish_iff (some (bool b)) = ground arith
is_nullish_iff (some (num n)) = ground arith
is_nullish_iff (some (arr vs)) = ground arith
is_nullish_iff (some (obj fs)) = ground arith

pub optional_string_iff : (o : Option Json) → (optional_string o ≡ true) ↔ IsOptionalText o
unfolding optional_string
optional_string_iff none = (λ _. inl (inl refl), λ _. refl)
optional_string_iff (some null) = (λ _. inl (inr refl), λ _. refl)
optional_string_iff (some (str s)) = (λ _. inr (s, refl), λ _. refl)
optional_string_iff (some (bool b)) = ground arith
optional_string_iff (some (num n)) = ground arith
optional_string_iff (some (arr vs)) = ground arith
optional_string_iff (some (obj fs)) = ground arith

pub is_text_iff :
    (text : String) (o : Option Json) → (is_text text o ≡ true) ↔ (o ≡ some (str text))
is_text_iff text (some (str s)) = ground (arith, eq_iff s text)
is_text_iff text none = ground arith
is_text_iff text (some null) = ground arith
is_text_iff text (some (bool b)) = ground arith
is_text_iff text (some (num n)) = ground arith
is_text_iff text (some (arr vs)) = ground arith
is_text_iff text (some (obj fs)) = ground arith

pub is_object_iff : (o : Option Json) → (is_object o ≡ true) ↔ IsObject o
is_object_iff none = ground arith
is_object_iff (some v) = (λ h. (v, refl, h), λ (w, e, h). subst (λ x. is_object x ≡ true) (sym e) h)

is_safe_integer_iff : (o : Option Json) → (is_safe_integer o ≡ true) ↔ IsInteger o
is_safe_integer_iff (some (num (int z))) = (λ h. (z, refl, leb→le _ _ h), λ (y, e, h). ground arith)
is_safe_integer_iff (some (num (fraction n))) = ground arith
is_safe_integer_iff none = ground arith
is_safe_integer_iff (some null) = ground arith
is_safe_integer_iff (some (str s)) = ground arith
is_safe_integer_iff (some (bool b)) = ground arith
is_safe_integer_iff (some (arr vs)) = ground arith
is_safe_integer_iff (some (obj fs)) = ground arith

is_finite_iff : (o : Option ℤ) → (is_finite o ≡ true) ↔ ((t : ℤ) × (o ≡ some t))
is_finite_iff none = ground arith
is_finite_iff (some t) = (λ _. (t, refl), λ _. refl)

pub is_valid_timestamp_iff :
    (engine : Engine) (o : Option Json)
    → (is_valid_timestamp engine o ≡ true) ↔ IsTimestamp engine o
unfolding is_valid_timestamp
is_valid_timestamp_iff engine none = ground arith
is_valid_timestamp_iff engine (some null) = ground arith
is_valid_timestamp_iff engine (some (bool b)) = ground arith
is_valid_timestamp_iff engine (some (num n)) = ground arith
is_valid_timestamp_iff engine (some (arr vs)) = ground arith
is_valid_timestamp_iff engine (some (obj fs)) = ground arith
is_valid_timestamp_iff engine (some (str s)) = (
  λ h.
      let (t, e) = (is_finite_iff (engine.date_parse s)).0 (ground arith) in
      (s, refl, ground arith, ground arith, t, e),
  λ (x, e, low, high, t, parsed). ground arith,
)

pub or_iff :
    {a b : Bool} {P Q : Type 0} → (a ≡ true) ↔ P → (b ≡ true) ↔ Q → ((a || b) ≡ true) ↔ (P ⊎ Q)
or_iff {a = true} p q = (λ _. inl (p.0 refl), λ _. refl)
or_iff {a = false} p q = (λ h. inr (q.0 h), elim [ inl x ↦ cc (p.1 x) | inr y ↦ q.1 y ])

infixl 35 ◌and_also◌
pub ◌and_also◌ :
    {a b : Bool} {P Q : Type 0} → (a ≡ true) ↔ P → (b ≡ true) ↔ Q → ((a && b) ≡ true) ↔ (P × Q)
◌and_also◌ {a = true} p q = (λ h. (p.0 refl, q.0 h), λ (x, y). q.1 y)
◌and_also◌ {a = false} p q = (λ h. cc, λ (x, y). cc (p.1 x))

pub entity_version_iff :
    (o : Option Json) → ((is_nullish o || is_safe_integer o) ≡ true) ↔ (IsAbsent o ⊎ IsInteger o)
entity_version_iff o = or_iff (is_nullish_iff o) (is_safe_integer_iff o)

pub is_experiment_context_iff :
    (o : Option Json) → (is_experiment_context o ≡ true) ↔ IsExperiment o
unfolding is_experiment_context
is_experiment_context_iff none = ground arith
is_experiment_context_iff (some v) = (
  λ h. (
    v,
    refl,
    ground arith,
    (optional_string_iff (prop "id" v)).0 (ground arith),
    (optional_string_iff (prop "variant" v)).0 (ground arith),
  ),
  λ (w, e, o, a, b).
      let same : w ≡ v = cc in
      let ob : is_object (some v) ≡ true = subst (λ x. is_object (some x) ≡ true) same o in
      let ia =
        (optional_string_iff (prop "id" v)).1 (subst (λ x. IsOptionalText (prop "id" x)) same a) in
      let ib =
        (optional_string_iff (prop "variant" v)).1
          (subst (λ x. IsOptionalText (prop "variant" x)) same b) in
      ground arith,
)

-- Only an object has a property.
pub has_prop :
    (v : Json) (key : String) {s : String} → prop key v ≡ some (str s) → is_object (some v) ≡ true
has_prop (obj fs) key e = refl
has_prop null key e = cc
has_prop (bool b) key e = cc
has_prop (num n) key e = cc
has_prop (str s) key e = cc
has_prop (arr vs) key e = cc
