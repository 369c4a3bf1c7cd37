-- ===== src/BqSink/Service/Rows.antt =====
-- The rows that the Warehouse of bq-sink/src/bigquery.ts keeps at one write.
use escld.Prelude.{
  ℕ, ◌<◌, String, ◌≡◌, refl, ap, subst, ◌⊎◌, inl, inr, true, false, some, List, [], ◌∷◌, map, arith,
  length, any, All, All-map, Result, ok, err,
}
use Prim.Native.String.{◌++◌ as append_text}
use escld.Js.Json.{Engine}
use escld.BqSink.Messages.Parse.{TableRef, InsertRow, ParsedMessage, event, dead_letter, row_of}
use escld.BqSink.Messages.Batch.{same_destination}
use escld.BqSink.Warehouse.{
  PartialInsertFailure, partial_failure, Inserted, inserted, thrown, partial_failures,
  is_transient_failure, ingestion_errors, quarantine_rows, insert_events, insert_dead_letters,
}
use escld.BqSink.Warehouse.Quarantine.{insert_events-IsLanded}
use escld.BqSink.Service.{Cloud, table_name}
use escld.BqSink.Service.Inserts.{Closed, Documented, same_table-eq, quarantine_rows-Named}

module _ {W : Type 0} (cloud : Cloud W) (engine : Engine) where
  module _ (Holds : String → InsertRow → W → Type 0) where
    -- The table holds the row, or the quarantine table holds one that is named after it.
    abbrev pub IsKeptRow : String → W → InsertRow → Type 0
    IsKeptRow t w r =
        Holds t r w
        ⊎ ((q : InsertRow) × (q.insert_id ≡ append_text "bq-reject-" r.insert_id)
            × Holds ingestion_errors q w)

    abbrev pub IsKept : W → ParsedMessage → Type 0
    IsKept w (event o t ty r e) = IsKeptRow (table_name cloud engine t) w r
    IsKept w (dead_letter o why r) = Holds ingestion_errors r w

    module _ (documented : Documented cloud Holds) where
      pub insert_events-IsKept :
          (now t : String) (rows : List InsertRow) (w : W) (n : ℕ)
          → (insert_events cloud.big_query engine now t rows w).0 ≡ ok n
          → All (IsKeptRow t (insert_events cloud.big_query engine now t rows w).1) rows
      unfolding insert_events partial_failures
      insert_events-IsKept now t rows w n h =
          elim (insert_events-IsLanded cloud.big_query engine now t rows w n h) [
            | inl (e, z) ↦
                rw (e, insert_events) (All-map (λ r k. inl k) rows (documented.stores t rows w e))
            | inr rejected ↦
                by_failures rejected.failures rejected.quarantine rejected.threw rejected.permanent
                  rejected.made rejected.written
                  (omega (arith, rejected.counted, rejected.some_rejected))
          ]
        where
          by_failures :
              (fs : List PartialInsertFailure) (qs : List InsertRow)
              → (cloud.big_query.insert_raw t rows w).0 ≡ thrown (partial_failure fs)
              → any is_transient_failure fs ≡ false
              → quarantine_rows engine now t 0 fs ≡ some qs
              → (cloud.big_query.insert_raw ingestion_errors qs
                  (cloud.big_query.insert_raw t rows w).1).0
                ≡ inserted
              → 0 < length fs
              → All (IsKeptRow t (insert_events cloud.big_query engine now t rows w).1) rows
          by_failures [] qs e p m d z = absurd (omega (arith, z))
          by_failures (f ∷ fs) qs e p m d z =
              rw (e, p, m, insert_events)
                (All-map
                  (λ r k. elim k [
                    | inl held ↦
                        inl ((documented.stays t r).insert_keeps ingestion_errors qs _ held)
                    | inr named ↦ inr (
                        quarantine_rows-Named cloud engine now t
                          (λ q.
                            Holds ingestion_errors q
                              (cloud.big_query.insert_raw ingestion_errors qs
                                (cloud.big_query.insert_raw t rows w).1).1)
                          r 0 (f ∷ fs) qs m (documented.stores ingestion_errors qs _ d) named)
                  ])
                  rows (documented.lists t rows w (f ∷ fs) e))

      pub insert_dead_letters-IsKept :
          (rows : List InsertRow) (w w' : W)
          → insert_dead_letters cloud.big_query engine "" rows w ≡ (ok tt, w')
          → All (λ r. Holds ingestion_errors r w') rows
      unfolding insert_dead_letters
      insert_dead_letters-IsKept rows w w' h =
          subst (λ v. All (λ r. Holds ingestion_errors r v) rows) (ap (λ p. p.1) h)
            (documented.stores ingestion_errors rows w
              (by_outcome (cloud.big_query.insert_raw ingestion_errors rows w).0 (ap (λ p. p.0) h)))
        where
          by_outcome :
              (o : Inserted)
              → elim o as (λ x. Result (Unit {0})) [ inserted ↦ ok tt | thrown e ↦ err ] ≡ ok tt
              → o ≡ inserted
          by_outcome inserted e = refl
          by_outcome (thrown x) e = absurd (ground arith)

      pub IsKept-Closed : (p : ParsedMessage) → Closed cloud (λ w. IsKept w p)
      IsKept-Closed (dead_letter o why r) = documented.stays ingestion_errors r
      IsKept-Closed (event o t ty r e) = record {
        insert_keeps = λ t' rows w k. elim k [
          | inl held ↦
              inl ((documented.stays (table_name cloud engine t) r).insert_keeps t' rows w held)
          | inr (q, named, held) ↦
              inr (q, named, (documented.stays ingestion_errors q).insert_keeps t' rows w held)
        ];
        put_keeps = λ key body w k. elim k [
          | inl held ↦
              inl ((documented.stays (table_name cloud engine t) r).put_keeps key body w held)
          | inr (q, named, held) ↦
              inr (q, named, (documented.stays ingestion_errors q).put_keeps key body w held)
        ];
      }

      -- The rows of a chunk of events are kept as the rows of one table.
      pub events-IsKept :
          (w : W) (o : String) (t : TableRef) (ty : String) (r : InsertRow) (e : String)
          (more : List ParsedMessage)
          → All (λ p. same_destination (event o t ty r e) p ≡ true) more
          → All (IsKeptRow (table_name cloud engine t) w) (map row_of more)
          → All (IsKept w) more
      unfolding same_destination
      events-IsKept w o t ty r e [] a k = tt
      events-IsKept w o t ty r e (dead_letter o' why r' ∷ more) (b, a) k = absurd (ground arith)
      events-IsKept w o t ty r e (event o' t' ty' r' e' ∷ more) (b, a) (held, k) = (
        subst (λ u. IsKeptRow (table_name cloud engine u) w r') (same_table-eq t t' b) held,
        events-IsKept w o t ty r e more a k,
      )

      pub dead_letters-IsKept :
          (w : W) (o : String) (why : String) (r : InsertRow) (more : List ParsedMessage)
          → All (λ p. same_destination (dead_letter o why r) p ≡ true) more
          → All (λ q. Holds ingestion_errors q w) (map row_of more)
          → All (IsKept w) more
      unfolding same_destination
      dead_letters-IsKept w o why r [] a k = tt
      dead_letters-IsKept w o why r (event o' t' ty' r' e' ∷ more) (b, a) k = absurd (ground arith)
      dead_letters-IsKept w o why r (dead_letter o' why' r' ∷ more) (b, a) (held, k) =
          (held, dead_letters-IsKept w o why r more a k)
