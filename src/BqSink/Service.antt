-- ===== src/BqSink/Service.antt =====
-- What `main` of bq-sink/src/index.ts hands to the message handler where the warehouse is configured:
-- the Warehouse of bigquery.ts and an archive.
pub mod Inserts
pub mod Rows
pub mod Kept
pub mod Tests
use escld.Prelude.{String, Option, none, some, ok}
use escld.Js.Json.{Engine}
use escld.BqSink.Messages.Parse.{TableRef, table, inherited, table_for_event_type}
use escld.BqSink.Messages.Batch.{Deps}
use escld.BqSink.Warehouse
use escld.BqSink.Warehouse.{BigQuery}
use escld.BqSink.Archive.{Bucket, write_batch}

-- The services that bq-sink writes to. `inherited_text` is what a template literal prints of a
-- property that every object inherits.
pub record Cloud (W : Type 0) : Type 0 where
  pub big_query : BigQuery W
  pub bucket : Bucket W
  pub inherited_text : String → String

module _ {W : Type 0} (cloud : Cloud W) (engine : Engine) where
  abbrev pub table_name : TableRef → String
  table_name (table t) = t
  table_name (inherited key) = cloud.inherited_text key

  -- The time at which the quarantine rows of a write are made: after the write.
  abbrev pub service_deps : (archive_prefix : Option String) → Deps W
  service_deps archive_prefix = record {
    table_for_event_type = table_for_event_type;
    insert_events = λ t rows w.
        Warehouse.insert_events cloud.big_query engine
          (cloud.bucket.iso_time (cloud.big_query.insert_raw (table_name t) rows w).1)
          (table_name t) rows w;
    insert_dead_letters = λ rows w. Warehouse.insert_dead_letters cloud.big_query engine "" rows w;
    write_batch = elim archive_prefix [
      | none ↦ some (λ records w. (ok tt, w))
      | some prefix ↦ some (λ records w. write_batch cloud.bucket prefix records w)
    ];
  }
