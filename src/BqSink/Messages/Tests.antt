-- ===== src/BqSink/Messages/Tests.antt =====
-- Runs of bq-sink's message handling on concrete messages.
use escld.Prelude.{
  ℕ, ◌+◌, String, ◌≡◌, refl, ◌↔◌, true, false, none, some, List, [], ◌∷◌, arith, ◌==◌, eqb,
  if◌then◌else◌, ok, err,
}
use escld.Js.Int.{pos}
use escld.Js.Json.{Json, str, obj, end, field, Engine}
use escld.Js.Text.{utf16_length}
use escld.BqSink.Envelope.{is_event_envelope, common_valid, is_valid_timestamp}
use escld.BqSink.Envelope.Contract.{IsEnvelope, is_event_envelope_iff}
use escld.BqSink.Messages.Parse.{
  table, inherited, table_for_event_type, KafkaMessage, InsertRow, event, Origin, parse_message,
}
use escld.BqSink.Messages.Batch.{
  Deps, Payload, Batch, Ending, threw, handle_batch, gather, land, settle, estimate_row_bytes,
  same_destination, parse_all,
}
use escld.BqSink.Messages.Trace.{handle_batch-Run}
use escld.BqSink.Messages.Runs.{Run}
use escld.BqSink.Messages.Counts.{Tally, handle_batch-Tally}
use escld.BqSink.Messages.Rows.{Parsed, parse_message-Parsed}
use escld.BqSink.Messages.Ids.{
  quarantine_id-injective, reads, raw_tables, table_for_event_type-reads, parse_message-inherited,
}

abbrev envelope : String → Json
envelope event_type = obj (
    field "eventId" (str "e1") (
      field "eventType" (str event_type) (
        field "eventVersion" (str "1") (
          field "occurredAt" (str "2026-01-01") (
            field "payload" (obj (field "postId" (str "p1") (field "eventId" (str "forged") end)))
              end)))))

-- An engine that knows three texts.
abbrev pub toy_engine : Engine
toy_engine = record {
  json_parse = λ s.
      if s == "liked"
      then some (envelope "post.liked")
      else if s == "constructor"
      then some (envelope "constructor")
      else if s == "empty"
      then some (obj end)
      else none;
  date_parse = λ s. some (pos 1);
  stringify = λ row. some "row";
  to_lower_case = λ s. s;
  is_positive = λ o. eqb 1 0;
  as_text = λ v. none;
}

abbrev message : String → String → KafkaMessage
message text offset = record { value = some text; correlation_header = none; offset = offset }

-- A warehouse that counts its writes, and fails at the second of them.
abbrev toy_deps : Deps ℕ
toy_deps = record {
  table_for_event_type = table_for_event_type;
  insert_events = λ t rows w. if eqb w 1 then (err, w + 1) else (ok 0, w + 1);
  insert_dead_letters = λ rows w. if eqb w 1 then (err, w + 1) else (ok tt, w + 1);
  write_batch = none;
}

-- A Kafka that answers every call.
abbrev pub in_peace : Payload
in_peace = record { is_wanted = λ i. true; commits = λ i. true; beats = λ i. true }

abbrev start : Batch ℕ
start = record {
  world = 0;
  stats = record { jobs_succeeded = pos 0; jobs_failed = 0; jobs_quarantined = 0 };
  effects = [];
}

abbrev pub messages : List KafkaMessage
messages = message "liked" "7" ∷ message "liked" "8" ∷ message "?" "9" ∷ []

abbrev run : Ending × Batch ℕ
run = handle_batch toy_deps "t" 0 toy_engine (λ i. "now") in_peace 500 messages start

-- The two events land together, then the quarantine write fails.
run_ends : run.0 ≡ threw
unfolding handle_batch parse_message is_event_envelope common_valid is_valid_timestamp gather land
    settle estimate_row_bytes same_destination table_for_event_type utf16_length
run_ends = refl

run_counts : run.1.stats.jobs_failed ≡ 1
unfolding handle_batch parse_message is_event_envelope common_valid is_valid_timestamp gather land
    settle estimate_row_bytes same_destination table_for_event_type utf16_length
run_counts = refl

-- The commit of the first chunk is rejected: two offsets are resolved and nothing counts as failed.
abbrev cut_off : Ending × Batch ℕ
cut_off =
    handle_batch toy_deps "t" 0 toy_engine (λ i. "now") (record in_peace { commits = λ i. false })
      500 messages start

cut_off_counts : (cut_off.0 ≡ threw) × (cut_off.1.stats.jobs_failed ≡ 0)
unfolding handle_batch parse_message is_event_envelope common_valid is_valid_timestamp gather land
    settle estimate_row_bytes same_destination table_for_event_type utf16_length
cut_off_counts = (refl, refl)

handle_batch-Run_example :
    Run toy_deps "t" 0 toy_engine 500 in_peace 0
      (parse_all toy_deps "t" 0 toy_engine (λ i. "now") 0 messages)
      run.0
      start
      run.1
handle_batch-Run_example =
    handle_batch-Run toy_deps "t" 0 toy_engine (λ i. "now") in_peace 500 messages start

handle_batch-Tally_example :
    Tally toy_deps "t" 0 toy_engine 500 in_peace run.0
      (parse_all toy_deps "t" 0 toy_engine (λ i. "now") 0 messages)
      start
      run.1
handle_batch-Tally_example =
    handle_batch-Tally toy_deps "t" 0 toy_engine (λ i. "now") in_peace 500 messages start

parse_message-Parsed_example :
    Parsed toy_engine table_for_event_type "t" 0 "now"
      (message "liked" "7")
      (parse_message toy_engine table_for_event_type "t" 0 "now" (message "liked" "7"))
parse_message-Parsed_example =
    parse_message-Parsed toy_engine table_for_event_type "t" 0 "now" (message "liked" "7")

is_event_envelope_iff_example :
    (is_event_envelope toy_engine (envelope "post.liked") ≡ true)
    ↔ IsEnvelope toy_engine (envelope "post.liked")
is_event_envelope_iff_example = is_event_envelope_iff toy_engine (envelope "post.liked")

abbrev origin : String → String → Origin
origin topic offset = record { topic = topic; partition = 3; offset = offset }

quarantine_id-injective_example : origin "a-b" "12" ≡ origin "a-b" "12"
quarantine_id-injective_example =
    quarantine_id-injective (origin "a-b" "12") (origin "a-b" "12") (omega arith) (omega arith) refl

table_for_event_type-reads_example :
    (table_for_event_type "post.liked" ≡ some (table "raw_post_liked"))
    ↔ (reads raw_tables "raw_post_liked" "post.liked" ≡ true)
table_for_event_type-reads_example = table_for_event_type-reads "post.liked" "raw_post_liked"

parse_message-inherited_example :
    (r : InsertRow) × (parse_message toy_engine table_for_event_type "t" 0 "now"
        (message "constructor" "7")
      ≡ event "7" (inherited "constructor") "constructor" r "constructor")
unfolding is_event_envelope common_valid is_valid_timestamp utf16_length
parse_message-inherited_example =
    parse_message-inherited toy_engine "t" 0 "now" (message "constructor" "7")
      (envelope "constructor") refl refl refl
