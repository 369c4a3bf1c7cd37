-- ===== src/BqSink/Service/Tests.antt =====
-- A run of bq-sink over a BigQuery that rejects the events of one table.
use escld.Prelude.{
  ◌≢◌, String, ◌≡◌, refl, subst, ◌⊎◌, inl, inr, Bool, true, false, some, List, [], ◌∷◌, ◌++◌, map,
  arith, ◌==◌, All, concat, All-map, ok,
}
use escld.Js.Int.{pos}
use escld.Js.Text.{utf16_length, decimal}
use escld.BqSink.Envelope.{is_event_envelope, common_valid, is_valid_timestamp}
use escld.BqSink.Messages.Parse.{
  InsertRow, ParsedMessage, table_for_event_type, parse_message, dead_letter_row, quarantine_id,
}
use escld.BqSink.Messages.Batch.{
  Batch, Ending, finished, handle_batch, gather, land, settle, estimate_row_bytes, same_destination,
  parse_all, archive_records,
}
use escld.BqSink.Messages.Runs.{blocks, Cut, uncut, cut_chunk, cut_block}
use escld.BqSink.Messages.Tests.{toy_engine, messages, in_peace}
use escld.BqSink.Archive.{write_batch}
use escld.BqSink.Warehouse.{
  PartialInsertFailure, partial_failure, Inserted, inserted, thrown, insert_events,
  insert_dead_letters, is_transient_failure, partial_failures, quarantine_rows,
}
use escld.BqSink.Service.{Cloud, service_deps}
use escld.BqSink.Service.Inserts.{Documented, Named}
use escld.BqSink.Service.Rows.{IsKept}
use escld.BqSink.Service.Kept.{handle_batch-IsKept}

-- The rows that the tables hold.
abbrev Stored : Type 0
Stored = List (String × InsertRow)

abbrev Holds : String → InsertRow → Stored → Type 0
Holds t r [] = ⊥
Holds t r ((t', r') ∷ w) = ((t' ≡ t) × (r' ≡ r)) ⊎ Holds t r w

abbrev invalid : InsertRow → PartialInsertFailure
invalid r = record {
  row = some (record { insert_id = some r.insert_id; json = some r.row });
  errors = record { reason = some "invalid"; message = some "no such field" } ∷ [];
}

abbrev store : String → List InsertRow → Stored → Stored
store t [] w = w
store t (r ∷ rs) w = (t, r) ∷ store t rs w

-- `raw_post_liked` rejects every row.
abbrev insert_into : Bool → String → List InsertRow → Stored → Inserted × Stored
insert_into true t rows w = (thrown (partial_failure (map invalid rows)), w)
insert_into false t rows w = (inserted, store t rows w)

abbrev cloud : Cloud Stored
cloud = record {
  big_query = record { insert_raw = λ t rows w. insert_into (t == "raw_post_liked") t rows w };
  bucket = record {
    put_object = λ key body w. (ok tt, w);
    iso_time = λ w. "2026-11-26T18:20:35.000Z";
  };
  inherited_text = λ key. key;
}

store-Holds :
    (t : String) (rows : List InsertRow) (w : Stored) → All (λ r. Holds t r (store t rows w)) rows
store-Holds t [] w = tt
store-Holds t (r ∷ rs) w = (inl (refl, refl), All-map (λ q h. inr h) rs (store-Holds t rs w))

Holds-store :
    (u t : String) (q : InsertRow) (rows : List InsertRow) (w : Stored)
    → Holds u q w
    → Holds u q (store t rows w)
Holds-store u t q [] w h = h
Holds-store u t q (r ∷ rs) w h = inr (Holds-store u t q rs w h)

invalid-Named : (rows : List InsertRow) → All (λ r. Named r (map invalid rows)) rows
invalid-Named [] = tt
invalid-Named (r ∷ rs) = (inl refl, All-map (λ q h. inr h) rs (invalid-Named rs))

cloud-Documented : Documented cloud Holds
cloud-Documented = record {
  stores = λ t rows w. stores (t == "raw_post_liked") t rows w;
  lists = λ t rows w fs. lists (t == "raw_post_liked") t rows w fs;
  stays = λ t r. record {
    insert_keeps = λ u rows w h. keeps (u == "raw_post_liked") t r u rows w h;
    put_keeps = λ key body w h. h;
  };
}
  where
    stores :
        (b : Bool) (t : String) (rows : List InsertRow) (w : Stored)
        → (insert_into b t rows w).0 ≡ inserted
        → All (λ r. Holds t r (insert_into b t rows w).1) rows
    stores true t rows w e = absurd (ground arith)
    stores false t rows w e = store-Holds t rows w

    lists :
        (b : Bool) (t : String) (rows : List InsertRow) (w : Stored)
        (fs : List PartialInsertFailure)
        → (insert_into b t rows w).0 ≡ thrown (partial_failure fs)
        → All (λ r. Holds t r (insert_into b t rows w).1 ⊎ Named r fs) rows
    lists true t rows w fs e =
        let same : map invalid rows ≡ fs = ground (arith, e) in
        All-map (λ r h. inr (subst (Named r) same h)) rows (invalid-Named rows)
    lists false t rows w fs e = absurd (ground arith)

    keeps :
        (b : Bool) (t : String) (r : InsertRow) (u : String) (rows : List InsertRow) (w : Stored)
        → Holds t r w
        → Holds t r (insert_into b u rows w).1
    keeps true t r u rows w h = h
    keeps false t r u rows w h = Holds-store t u r rows w h

abbrev start : Batch Stored
start = record {
  world = [];
  stats = record { jobs_succeeded = pos 0; jobs_failed = 0; jobs_quarantined = 0 };
  effects = [];
}

abbrev run : Ending × Batch Stored
run =
    handle_batch (service_deps cloud toy_engine (some "archive/")) "t" 0 toy_engine (λ i. "now")
      in_peace 500 messages start

-- Both events are rejected and kept in the quarantine table, where the third message lands too.
run_keeps :
    map {B = String × String} (λ p. (p.0, p.1.insert_id)) run.1.world
    ≡ ("raw_ingestion_errors", "quarantine-t-0-9")
      ∷ ("raw_ingestion_errors", "bq-reject-e1")
      ∷ ("raw_ingestion_errors", "bq-reject-e1")
      ∷ []
unfolding handle_batch parse_message is_event_envelope common_valid is_valid_timestamp gather land
    settle estimate_row_bytes same_destination table_for_event_type utf16_length insert_events
    insert_dead_letters is_transient_failure partial_failures quarantine_rows decimal
    dead_letter_row quarantine_id archive_records write_batch
run_keeps = refl

handle_batch-IsKept_example :
    (chunks : List (List ParsedMessage)) × (cut : Cut) × (left : List ParsedMessage) × (concat
          chunks
        ++ (cut_chunk cut ++ left)
      ≡ parse_all
          (service_deps cloud toy_engine (some "archive/"))
          "t"
          0
          toy_engine
          (λ i. "now")
          0
          messages)
    × (run.1.effects ≡ [] ++ (blocks chunks ++ cut_block cut))
    × All (IsKept cloud toy_engine Holds run.1.world) (concat chunks ++ cut_chunk cut)
    × (((cut ≡ uncut) × (left ≡ [])) ⊎ (run.0 ≢ finished))
handle_batch-IsKept_example =
    handle_batch-IsKept cloud toy_engine (some "archive/") Holds "t" 0 (λ i. "now") in_peace 500
      messages start cloud-Documented
