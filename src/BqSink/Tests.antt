-- ===== src/BqSink/Tests.antt =====
-- Runs of bq-sink's warehouse client, its merges and its export.
use escld.Prelude.{
  ℕ, ◌+◌, ◌≡◌, refl, ◌⊎◌, false, none, some, List, [], ◌∷◌, arith, ◌==◌, if◌then◌else◌, ok, err,
  String, true, ◌↔◌, All,
}
use escld.Js.Int.{pos}
use escld.Js.Json.{str, Engine, Number}
use escld.BqSink.Messages.Parse.{InsertRow}
use escld.BqSink.Warehouse.{
  PartialInsertFailure, partial_failure, inserted, thrown, BigQuery, is_transient_failure,
  partial_failures, quarantine_rows, insert_events,
}
use escld.BqSink.Warehouse.Quarantine.{IsLanded, insert_events-IsLanded}
use escld.BqSink.Messages.Batch.{ArchiveRecord}
use escld.BqSink.Archive.{Bucket, write_batch}
use escld.BqSink.Archive.Lines.{lines, is_line, write_batch-lines}
use escld.Js.Text.{decimal, utf16_take, utf16_drop}
use escld.BqSink.Canonicalize.{Merges, request, requests, merge_ends, Covers, request-Covers}
use escld.BqSink.Export.{Item, num, write_insights_items}
use escld.BqSink.Export.Counts.{total, write_insights_items-total}

abbrev toy_engine : Engine
toy_engine = record {
  json_parse = λ s. none;
  date_parse = λ s. none;
  stringify = λ row. some "row";
  to_lower_case = λ s. s;
  is_positive = λ o. false;
  as_text = λ v. none;
}

abbrev failure : PartialInsertFailure
failure = record {
  row = some (record { insert_id = some "e1"; json = some (("eventId", str "e1") ∷ []) });
  errors = record { reason = some "invalid"; message = some "no such field" } ∷ [];
}

-- The landing tables reject one row for good; the quarantine table takes everything.
abbrev toy_big_query : BigQuery ℕ
toy_big_query = record {
  insert_raw = λ table rows w. (
    if table == "raw_ingestion_errors" then inserted else thrown (partial_failure (failure ∷ [])),
    w + 1,
  );
}

abbrev rows : List InsertRow
rows = record { insert_id = "e1"; row = ("eventId", str "e1") ∷ [] } ∷ []

insert_events-IsLanded_example : IsLanded toy_big_query toy_engine "2026" "raw_post_liked" rows 0 1
unfolding insert_events partial_failures is_transient_failure quarantine_rows
insert_events-IsLanded_example =
    insert_events-IsLanded toy_big_query toy_engine "2026" "raw_post_liked" rows 0 1 refl

-- A merge of two days is under way.
abbrev merging : Merges
merging = record { pending_lookback_days = 0; under_way = some 2; succeeded = 0; failed = 0 }

request-Covers_example :
    ((merging.under_way ≡ none) × Covers 30 (request 30 merging))
    ⊎ Covers 30 (merge_ends err (requests (2 ∷ 2 ∷ []) (request 30 merging)))
request-Covers_example = request-Covers 30 (2 ∷ 2 ∷ []) err merging (omega arith)

abbrev item : Item
item = ("likeCount", num (Number.int (pos 3))) ∷ []

write_insights_items-total_example :
    total (write_insights_items (λ batch w. (ok 1, w + 1)) (item ∷ item ∷ []) 0).0 ≡ pos 2
write_insights_items-total_example =
    write_insights_items-total (λ batch w. (ok 1, w + 1)) (item ∷ item ∷ []) 0

abbrev record_of : String → ArchiveRecord
record_of envelope = record {
  topic = "post.liked";
  partition = 3;
  offset = "7";
  envelope_json = envelope;
}

-- The world is what was put.
abbrev bucket : Bucket (List (String × String))
bucket = record {
  put_object = λ key body w. (ok tt, (key, body) ∷ w);
  iso_time = λ w. "2026-11-26T18:20:35.000Z";
}

archive_run :
    write_batch bucket "archive//" (record_of "{}" ∷ record_of "[]" ∷ []) []
    ≡ (ok tt, ("archive/dt=2026-11-26/hour=18/post.liked-3-7.json.gz", "{}\n[]") ∷ [])
unfolding write_batch decimal utf16_take utf16_drop
archive_run = refl

write_batch-lines_example :
    (key body : String) × (write_batch bucket "archive//" (record_of "{}" ∷ record_of "[]" ∷ []) []
      ≡ (ok tt, (key, body) ∷ []))
    × ((lines body ≡ "{}" ∷ "[]" ∷ []) ↔ All (λ e. is_line e ≡ true) ("{}" ∷ "[]" ∷ []))
write_batch-lines_example =
    write_batch-lines bucket "archive//" (record_of "{}") (record_of "[]" ∷ []) []
