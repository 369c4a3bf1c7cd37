-- ===== src/BqSink/Messages/Rows.antt =====
-- Where the content of parsed messages comes from: `parseMessage` of bq-sink/src/message-handler.ts.
use escld.Prelude.{
  ℕ, ◌-◌, ◌≤◌, ◌<◌, String, ◌≡◌, refl, ap, ◌⊎◌, inl, inr, true, false, Option, none, some, List,
  arith, leb, eqb, leb→le, Bool-cases,
}
use escld.Js.Int.{pos}
use escld.Js.Json.{
  Json, num, str, int, Engine, prop, as_string, or_null, find, find-assign, find-assign_all,
  has_key, entries,
}
use escld.Js.Text.{units, utf16_length, utf16_take}
use escld.BqSink.Envelope.{is_event_envelope}
use escld.BqSink.Messages.Parse.{
  TableRef, KafkaMessage, InsertRow, ParsedMessage, event, dead_letter, Origin, quarantine_id,
  dead_letter_row, event_row, columns, text_or_empty, malformed_json, invalid_envelope,
  unmapped_type, max_raw_length, parse_message, route, check,
}

-- A row whose identity and origin columns are the envelope's and Kafka's, whatever the payload
-- holds, and which has the payload's other properties unchanged.
pub record IsLandingRow (at : Origin) (header : Option String) (raw : Json)
    (row : List (String × Json)) : Type 0 where
  pub event_id : find "eventId" row ≡ some (or_null (prop "eventId" raw))
  pub event_type : find "eventType" row ≡ some (or_null (prop "eventType" raw))
  pub event_version : find "eventVersion" row ≡ some (or_null (prop "eventVersion" raw))
  pub occurred_at : find "occurredAt" row ≡ some (or_null (prop "occurredAt" raw))
  pub actor_id : find "actorId" row ≡ some (or_null (prop "actorId" raw))
  pub producer : find "producer" row ≡ some (or_null (prop "producer" raw))
  pub payload : find "eventPayload" row ≡ some (or_null (prop "payload" raw))
  pub topic : find "sourceTopic" row ≡ some (str at.topic)
  pub partition : find "sourcePartition" row ≡ some (num (int (pos at.partition)))
  pub offset : find "sourceOffset" row ≡ some (str at.offset)
  pub others :
      (key : String)
      → has_key key (columns at header raw) ≡ false
      → find key row ≡ find key (entries (or_null (prop "payload" raw)))

event_row-others :
    (at : Origin) (header : Option String) (raw : Json) (key : String)
    → has_key key (columns at header raw) ≡ false
    → find key (event_row at header raw) ≡ find key (entries (or_null (prop "payload" raw)))
unfolding event_row
event_row-others at header raw key h =
    find-assign_all key (columns at header raw) (entries (or_null (prop "payload" raw))) h

event_row-IsLandingRow :
    (at : Origin) (header : Option String) (raw : Json)
    → IsLandingRow at header raw (event_row at header raw)
unfolding event_row
event_row-IsLandingRow at header raw = record {
  event_id = simp find-assign;
  event_type = simp find-assign;
  event_version = simp find-assign;
  occurred_at = simp find-assign;
  actor_id = simp find-assign;
  producer = simp find-assign;
  payload = simp find-assign;
  topic = simp find-assign;
  partition = simp find-assign;
  offset = simp find-assign;
  others = event_row-others at header raw;
}

utf16_length-take : (n : ℕ) (s : String) → utf16_length (utf16_take n s) ≤ n
unfolding utf16_length utf16_take
utf16_length-take n String.[] = omega arith
utf16_length-take n (String.◌∷◌ c s) = elim (Bool-cases (leb (units c) n)) [
  | inl fits ↦ rw fits (omega (arith, utf16_length-take (n - units c) s, leb→le _ _ fits))
  | inr over ↦ rw over (elim (Bool-cases (eqb n 0)) [
    | inl none_left ↦ rw none_left (omega arith)
    | inr some_left ↦ rw some_left (ground arith)
  ])
]

-- Only a text that is too long is cut.
utf16_take-kept : (n : ℕ) (s : String) → (utf16_take n s ≡ s) ⊎ (n < utf16_length s)
unfolding utf16_length utf16_take
utf16_take-kept n String.[] = inl refl
utf16_take-kept n (String.◌∷◌ c s) = elim (Bool-cases (leb (units c) n)) [
  | inr over ↦ inr (ground (arith, over))
  | inl fits ↦ elim (utf16_take-kept (n - units c) s) [
    | inl same ↦ inl (rw fits (ap (λ t. String.◌∷◌ c t) same))
    | inr longer ↦ inr (omega (arith, longer, leb→le _ _ fits))
  ]
]

module _ (engine : Engine) (lookup_table : String → Option TableRef) (topic : String)
    (partition : ℕ) (now : String) (message : KafkaMessage) where
  abbrev pub origin : Origin
  origin = record { topic = topic; partition = partition; offset = message.offset }

  abbrev pub text : String
  text = text_or_empty message.value

  -- What the handler knows of a message that it lands as an event.
  pub record FromEvent (offset : String) (t : TableRef) (event_type : String) (r : InsertRow)
      (envelope_json : String) : Type 0 where
    pub raw : Json
    pub parsed : engine.json_parse text ≡ some raw
    pub valid : is_event_envelope engine raw ≡ true
    pub typed : event_type ≡ as_string (prop "eventType" raw)
    pub routed : lookup_table event_type ≡ some t
    pub same_offset : offset ≡ message.offset
    pub same_text : envelope_json ≡ text
    pub id : r.insert_id ≡ as_string (prop "eventId" raw)
    pub row : IsLandingRow origin message.correlation_header raw r.row

  -- Why a message is quarantined.
  abbrev pub Because : String → Type 0
  Because reason =
      ((reason ≡ malformed_json) × (engine.json_parse text ≡ none))
      ⊎ ((raw : Json) × (reason ≡ invalid_envelope)
          × (engine.json_parse text ≡ some raw)
          × (is_event_envelope engine raw ≡ false))
      ⊎ ((raw : Json) × (reason ≡ unmapped_type)
          × (engine.json_parse text ≡ some raw)
          × (is_event_envelope engine raw ≡ true)
          × (lookup_table (as_string (prop "eventType" raw)) ≡ none))

  pub record FromFailure (offset reason : String) (r : InsertRow) : Type 0 where
    pub because : Because reason
    pub same_offset : offset ≡ message.offset
    pub id : r.insert_id ≡ quarantine_id origin
    pub recorded : find "reason" r.row ≡ some (str reason)
    pub raw_message : find "rawMessage" r.row ≡ some (str (utf16_take max_raw_length text))
    pub capped : utf16_length (utf16_take max_raw_length text) ≤ max_raw_length
    pub kept : (utf16_take max_raw_length text ≡ text) ⊎ (max_raw_length < utf16_length text)

  abbrev pub Parsed : ParsedMessage → Type 0
  Parsed (event o t ty r e) = FromEvent o t ty r e
  Parsed (dead_letter o why r) = FromFailure o why r

  failure :
      (reason : String)
      → Because reason
      → FromFailure message.offset reason
          (dead_letter_row now origin message.correlation_header reason text)
  unfolding dead_letter_row
  failure reason h = record {
    because = h;
    same_offset = refl;
    id = refl;
    recorded = refl;
    raw_message = refl;
    capped = utf16_length-take max_raw_length text;
    kept = utf16_take-kept max_raw_length text;
  }

  route-Parsed :
      (raw : Json) (found : Option TableRef)
      → engine.json_parse text ≡ some raw
      → is_event_envelope engine raw ≡ true
      → lookup_table (as_string (prop "eventType" raw)) ≡ found
      → Parsed (route engine lookup_table origin message text raw now found)
  unfolding route
  route-Parsed raw none p v l = failure unmapped_type (inr (inr (raw, refl, p, v, l)))
  route-Parsed raw (some t) p v l = record {
    raw = raw;
    parsed = p;
    valid = v;
    typed = refl;
    routed = l;
    same_offset = refl;
    same_text = refl;
    id = refl;
    row = event_row-IsLandingRow origin message.correlation_header raw;
  }

  check-Parsed :
      (parsed : Option Json)
      → engine.json_parse text ≡ parsed
      → Parsed (check engine lookup_table origin message text now parsed)
  unfolding check
  check-Parsed none p = failure malformed_json (inl (refl, p))
  check-Parsed (some raw) p = elim (Bool-cases (is_event_envelope engine raw)) [
    | inl valid ↦ rw valid (route-Parsed raw _ p valid refl)
    | inr invalid ↦ rw invalid (failure invalid_envelope (inr (inl (raw, refl, p, invalid))))
  ]

  -- A message becomes an event exactly for a valid envelope whose type has a table: its row has the
  -- envelope's identity and Kafka's origin, which no property of the payload can replace. Any other
  -- message is quarantined under the reason that holds of it, with its text, cut to 65,536 units where it is longer.
  pub parse_message-Parsed : Parsed (parse_message engine lookup_table topic partition now message)
  unfolding parse_message
  parse_message-Parsed = check-Parsed (engine.json_parse text) refl
