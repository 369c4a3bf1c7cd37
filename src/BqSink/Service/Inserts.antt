-- ===== src/BqSink/Service/Inserts.antt =====
-- What BigQuery and S3 document, and what an insert of the Warehouse of bq-sink/src/bigquery.ts
-- leaves as it was.
use escld.Prelude.{
  ℕ, suc, String, ◌≡◌, refl, sym, ap, ◌∙◌, subst, ◌⊎◌, inl, inr, Bool, true, false, Option, none,
  some, List, [], ◌∷◌, arith, eq_iff, if◌then◌else◌, any, All, err,
}
use Prim.Native.String.{◌++◌ as append_text}
use escld.Js.Json.{Engine}
use escld.Js.Text.{decimal}
use escld.BqSink.Messages.Parse.{TableRef, table, inherited, InsertRow}
use escld.BqSink.Messages.Batch.{same_table}
use escld.BqSink.Warehouse.{
  PartialInsertFailure, partial_failure, Inserted, inserted, thrown, partial_failures,
  is_transient_failure, insert_id_of, json_of, or_text, prepend, ingestion_errors, quarantine_row,
  quarantine_rows, with_text, quarantined, after_failures, after_insert, insert_events,
  insert_dead_letters,
}
use escld.BqSink.Service.{Cloud}

-- A failure that names the row.
abbrev pub Named : InsertRow → List PartialInsertFailure → Type 0
Named r [] = ⊥
Named r (f ∷ fs) = (insert_id_of f.row ≡ some r.insert_id) ⊎ Named r fs

-- Inserts and the archive leave it so.
pub record Closed {W : Type 0} (cloud : Cloud W) (P : W → Type 0) : Type 0 where
  pub insert_keeps :
      (t : String) (rows : List InsertRow) (w : W) → P w → P (cloud.big_query.insert_raw t rows w).1
  pub put_keeps : (key body : String) (w : W) → P w → P (cloud.bucket.put_object key body w).1

-- What BigQuery documents, where `Holds t r w` says that the table `t` holds the row `r`: an insert
-- that succeeds stores all rows, one that fails in part lists the rows that it did not store, and a
-- row stays.
pub record Documented {W : Type 0} (cloud : Cloud W) (Holds : String → InsertRow → W → Type 0)
    : Type 0 where
  pub stores :
      (t : String) (rows : List InsertRow) (w : W)
      → (cloud.big_query.insert_raw t rows w).0 ≡ inserted
      → All (λ r. Holds t r (cloud.big_query.insert_raw t rows w).1) rows
  pub lists :
      (t : String) (rows : List InsertRow) (w : W) (fs : List PartialInsertFailure)
      → (cloud.big_query.insert_raw t rows w).0 ≡ thrown (partial_failure fs)
      → All (λ r. Holds t r (cloud.big_query.insert_raw t rows w).1 ⊎ Named r fs) rows
  pub stays : (t : String) (r : InsertRow) → Closed cloud (Holds t r)

pub same_table-eq : (t u : TableRef) → same_table t u ≡ true → t ≡ u
same_table-eq (table a) (table b) h = ap table ((eq_iff a b).0 h)
same_table-eq (inherited a) (inherited b) h = ap inherited ((eq_iff a b).0 h)
same_table-eq (table a) (inherited b) h = absurd (ground arith)
same_table-eq (inherited a) (table b) h = absurd (ground arith)

module _ {W : Type 0} (cloud : Cloud W) (engine : Engine) where
  pub insert_events-Closed :
      (P : W → Type 0)
      → Closed cloud P
      → (now t : String) (rows : List InsertRow) (w : W) → P w
      → P (insert_events cloud.big_query engine now t rows w).1
  unfolding insert_events
  insert_events-Closed P closed now t rows w h = by_insert (cloud.big_query.insert_raw t rows w).0
    where
      after : W
      after = (cloud.big_query.insert_raw t rows w).1

      kept : P after
      kept = closed.insert_keeps t rows w h

      by_rows : (q : Option (List InsertRow)) → P (quarantined cloud.big_query engine now q after).1
      by_rows none = kept
      by_rows (some more) = closed.insert_keeps ingestion_errors more after kept

      by_test :
          (b : Bool) (q : Option (List InsertRow))
          → P (if b then (err, after) else quarantined cloud.big_query engine now q after).1
      by_test true q = kept
      by_test false q = by_rows q

      by_failures :
          (fs : Option (List PartialInsertFailure))
          → P (after_failures cloud.big_query engine now t fs after).1
      by_failures none = kept
      by_failures (some fs) =
          by_test (any is_transient_failure fs) (quarantine_rows engine now t 0 fs)

      by_insert : (o : Inserted) → P (after_insert cloud.big_query engine now t o after).1
      by_insert inserted = kept
      by_insert (thrown error) = by_failures (partial_failures error)

  pub insert_dead_letters-Closed :
      (P : W → Type 0)
      → Closed cloud P
      → (rows : List InsertRow) (w : W) → P w
      → P (insert_dead_letters cloud.big_query engine "" rows w).1
  unfolding insert_dead_letters
  insert_dead_letters-Closed P closed rows w h = closed.insert_keeps ingestion_errors rows w h

  quarantine_row-id :
      (now t id : String) (index : ℕ) (f : PartialInsertFailure) (q : InsertRow)
      → quarantine_row engine now t index f ≡ some q
      → insert_id_of f.row ≡ some id
      → q.insert_id ≡ append_text "bq-reject-" id
  quarantine_row-id now t id index f q e named = by_text (engine.stringify (json_of f.row)) e
    where
      id_of : Option InsertRow → String
      id_of none = ""
      id_of (some row) = row.insert_id

      by_text :
          (raw : Option String)
          → elim raw as (λ x. Option InsertRow) [
            | none ↦ none
            | some s ↦ some (with_text engine now t index f s)
          ]
            ≡ some q
          → q.insert_id ≡ append_text "bq-reject-" id
      by_text none e' = absurd (ground arith)
      by_text (some s) e' =
          sym (ap id_of e')
          ∙ ap
              (λ o.
                append_text "bq-reject-"
                  (or_text o (append_text t (append_text "-" (decimal index)))))
              named

  -- A row for every failure that is named, with an id made of the id of the row.
  pub quarantine_rows-Named :
      (now t : String) (P : InsertRow → Type 0) (r : InsertRow) (index : ℕ)
      (fs : List PartialInsertFailure) (qs : List InsertRow)
      → quarantine_rows engine now t index fs ≡ some qs
      → All P qs
      → Named r fs
      → (q : InsertRow) × (q.insert_id ≡ append_text "bq-reject-" r.insert_id) × P q
  unfolding quarantine_rows
  quarantine_rows-Named now t P r index [] qs e h n = elim n [ ]
  quarantine_rows-Named now t P r index (f ∷ fs) qs e h n =
      by_parts (quarantine_row engine now t index f) (quarantine_rows engine now t (suc index) fs)
        refl refl e (λ more. quarantine_rows-Named now t P r (suc index) fs more)
    where
      by_parts :
          (row : Option InsertRow) (rest : Option (List InsertRow))
          → quarantine_row engine now t index f ≡ row
          → quarantine_rows engine now t (suc index) fs ≡ rest
          → prepend engine now t row rest ≡ some qs
          → ((more : List InsertRow)
              → quarantine_rows engine now t (suc index) fs ≡ some more
              → All P more
              → Named r fs
              → (q : InsertRow) × (q.insert_id ≡ append_text "bq-reject-" r.insert_id) × P q)
          → (q : InsertRow) × (q.insert_id ≡ append_text "bq-reject-" r.insert_id) × P q
      by_parts none rest a b e' others = absurd (ground arith)
      by_parts (some row) none a b e' others = absurd (ground arith)
      by_parts (some row) (some more) a b e' others =
          let same : qs ≡ row ∷ more = ground (arith, e') in
          let held : P row × All P more = subst (All P) same h in
          elim n [
            | inl named ↦ (row, quarantine_row-id now t r.insert_id index f row a named, held.0)
            | inr later ↦ others more b held.1 later
          ]
