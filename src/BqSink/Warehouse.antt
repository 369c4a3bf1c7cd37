-- ===== src/BqSink/Warehouse.antt =====
-- The warehouse client: `insertEvents` and `insertDeadLetters` of bq-sink/src/bigquery.ts, over the
-- streaming inserts of BigQuery.
pub mod Quarantine
use escld.Prelude.{
  ℕ, suc, String, Bool, true, false, not, ◌||◌, Option, none, some, List, [], ◌∷◌, ◌==◌,
  if◌then◌else◌, length, any, Result, ok, err,
}
use Prim.Native.String.{◌++◌ as append_text}
use escld.Js.Json.{Json, str, Engine, or_null, ◌or_else◌, find}
use escld.Js.Text.{decimal, utf16_take}
use escld.BqSink.Messages.Parse.{InsertRow}

pub record RowError : Type 0 where
  pub reason : Option String
  pub message : Option String

-- `row` is what BigQuery gives back of a row that it rejected.
pub record RejectedRow : Type 0 where
  pub insert_id : Option String
  pub json : Option (List (String × Json))

pub record PartialInsertFailure : Type 0 where
  pub row : Option RejectedRow
  pub errors : List RowError

-- What an insert throws: a PartialFailureError with its failures, or anything else.
pub data InsertError : Type 0 where
  partial_failure : List PartialInsertFailure → InsertError
  other_error : InsertError

pub data Inserted : Type 0 where
  inserted : Inserted
  thrown : InsertError → Inserted

pub record BigQuery (W : Type 0) : Type 0 where
  pub insert_raw : (table : String) → List InsertRow → W → Inserted × W

abbrev pub is_permanent_reason : String → Bool
is_permanent_reason reason = reason == "invalid" || reason == "invalidQuery"

-- A missing or empty reason counts as transient.
abbrev pub is_transient_reason : Option String → Bool
is_transient_reason none = true
is_transient_reason (some reason) = reason == "" || not (is_permanent_reason reason)

abbrev pub no_errors : List RowError → Bool
no_errors [] = true
no_errors (e ∷ es) = false

unfoldable pub is_transient_failure : PartialInsertFailure → Bool
is_transient_failure failure =
    no_errors failure.errors || any (λ e. is_transient_reason e.reason) failure.errors

-- `partialFailures`: an empty list of failures is none.
unfoldable pub partial_failures : InsertError → Option (List PartialInsertFailure)
partial_failures other_error = none
partial_failures (partial_failure []) = none
partial_failures (partial_failure (f ∷ fs)) = some (f ∷ fs)

abbrev pub nonempty_messages : List RowError → List String
nonempty_messages [] = []
nonempty_messages (e ∷ es) = elim e.message [
  | none ↦ nonempty_messages es
  | some message ↦ if message == "" then nonempty_messages es else message ∷ nonempty_messages es
]

abbrev pub joined : List String → String
joined [] = ""
joined (s ∷ []) = s
joined (s ∷ ss) = append_text s (append_text "; " (joined ss))

abbrev pub json_of : Option RejectedRow → List (String × Json)
json_of none = []
json_of (some row) = elim row.json [ none ↦ [] | some fields ↦ fields ]

abbrev pub insert_id_of : Option RejectedRow → Option String
insert_id_of none = none
insert_id_of (some row) = row.insert_id

abbrev pub json_text : Option String → Option Json
json_text none = none
json_text (some s) = some (str s)

abbrev pub or_text : Option String → String → String
or_text none s = s
or_text (some t) s = t

abbrev pub ingestion_errors : String
ingestion_errors = "raw_ingestion_errors"

module _ (engine : Engine) (now table : String) where
  -- The quarantine row of the failure with this index, given the text of its original row.
  abbrev pub with_text : ℕ → PartialInsertFailure → String → InsertRow
  with_text index failure raw =
      let fields = json_of failure.row in
      let field_or_null = λ (key : String). or_null (find key fields) in
      record {
        insert_id = append_text "bq-reject-" (
            or_text (insert_id_of failure.row)
              (append_text table (append_text "-" (decimal index))));
        row =
            ("quarantinedAt", str now)
            ∷ (
              "eventId",
              or_null (find "eventId" fields or_else json_text (insert_id_of failure.row)),
            )
            ∷ ("eventType", field_or_null "eventType")
            ∷ ("topic", field_or_null "sourceTopic")
            ∷ ("partition", field_or_null "sourcePartition")
            ∷ ("offset", field_or_null "sourceOffset")
            ∷ ("sourceTopic", field_or_null "sourceTopic")
            ∷ ("sourcePartition", field_or_null "sourcePartition")
            ∷ ("sourceOffset", field_or_null "sourceOffset")
            ∷ ("reason", str "BIGQUERY_ROW_REJECTED")
            ∷ ("correlationId", field_or_null "correlationId")
            ∷ ("errorMessage", str (utf16_take 4096 (joined (nonempty_messages failure.errors))))
            ∷ ("rawMessage", str (utf16_take 65536 raw))
            ∷ [];
      }

  abbrev pub prepend : Option InsertRow → Option (List InsertRow) → Option (List InsertRow)
  prepend (some row) (some rows) = some (row ∷ rows)
  prepend _ _ = none

  abbrev pub quarantine_row : ℕ → PartialInsertFailure → Option InsertRow
  quarantine_row index failure = elim (engine.stringify (json_of failure.row)) [
    | none ↦ none
    | some raw ↦ some (with_text index failure raw)
  ]

  -- `none` where `JSON.stringify` throws.
  unfoldable pub quarantine_rows : ℕ → List PartialInsertFailure → Option (List InsertRow)
  quarantine_rows index [] = some []
  quarantine_rows index (failure ∷ failures) =
      prepend (quarantine_row index failure) (quarantine_rows (suc index) failures)

module _ {W : Type 0} (big_query : BigQuery W) (engine : Engine) (now : String) where
  unfoldable pub insert_dead_letters : List InsertRow → W → Result (Unit {0}) × W
  insert_dead_letters rows w =
      let (outcome, after) = big_query.insert_raw ingestion_errors rows w in
      (elim outcome [ inserted ↦ ok tt | thrown e ↦ err ], after)

  abbrev pub quarantined : Option (List InsertRow) → W → Result ℕ × W
  quarantined none w = (err, w)
  quarantined (some rows) w =
      let (outcome, after) = big_query.insert_raw ingestion_errors rows w in
      (elim outcome [ inserted ↦ ok (length rows) | thrown e ↦ err ], after)

  abbrev pub after_failures : String → Option (List PartialInsertFailure) → W → Result ℕ × W
  after_failures table none w = (err, w)
  after_failures table (some failures) w =
      if any is_transient_failure failures
      then (err, w)
      else quarantined (quarantine_rows engine now table 0 failures) w

  abbrev pub after_insert : String → Inserted → W → Result ℕ × W
  after_insert table inserted w = (ok 0, w)
  after_insert table (thrown error) w = after_failures table (partial_failures error) w

  unfoldable pub insert_events : (table : String) → List InsertRow → W → Result ℕ × W
  unfolding quarantine_rows partial_failures is_transient_failure
  insert_events table rows w =
      let (outcome, after) = big_query.insert_raw table rows w in after_insert table outcome after
