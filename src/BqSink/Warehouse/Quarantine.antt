-- ===== src/BqSink/Warehouse/Quarantine.antt =====
-- When `insertEvents` of bq-sink/src/bigquery.ts reports success.
use escld.Prelude.{
  ℕ, suc, ◌<◌, String, ◌≡◌, refl, sym, ◌∙◌, subst, ◌⊎◌, inl, inr, false, Option, none, some, List,
  [], ◌∷◌, arith, if◌then◌else◌, Bool-cases, length, any, Result, ok, err,
}
use escld.Js.Json.{Engine}
use escld.BqSink.Messages.Parse.{InsertRow}
use escld.BqSink.Warehouse.{
  PartialInsertFailure, InsertError, partial_failure, other_error, Inserted, inserted, thrown,
  BigQuery, is_transient_failure, partial_failures, ingestion_errors, quarantine_row,
  quarantine_rows, prepend, quarantined, after_failures, after_insert, insert_events,
}

length-quarantine_rows :
    (engine : Engine) (now table : String) (index : ℕ) (failures : List PartialInsertFailure)
    (rows : List InsertRow)
    → quarantine_rows engine now table index failures ≡ some rows
    → length rows ≡ length failures
unfolding quarantine_rows
length-quarantine_rows engine now table index [] rows e = ground arith
length-quarantine_rows engine now table index (f ∷ fs) rows e =
    by_parts (quarantine_row engine now table index f)
      (quarantine_rows engine now table (suc index) fs) refl e
      (λ more. length-quarantine_rows engine now table (suc index) fs more)
  where
    by_parts :
        (row : Option InsertRow) (rest : Option (List InsertRow))
        → quarantine_rows engine now table (suc index) fs ≡ rest
        → prepend engine now table row rest ≡ some rows
        → ((more : List InsertRow)
            → quarantine_rows engine now table (suc index) fs ≡ some more
            → length more ≡ length fs)
        → length rows ≡ suc (length fs)
    by_parts (some row) (some more) q e k = ground (arith, k more q, e)
    by_parts none rest q e k = ground arith
    by_parts (some row) none q e k = ground arith

-- The rows that the insert rejected, each for good, and that were written to the quarantine table.
pub record Rejected {W : Type 0} (big_query : BigQuery W) (engine : Engine) (now table : String)
    (rows : List InsertRow) (w : W) (n : ℕ) : Type 0 where
  pub failures : List PartialInsertFailure
  pub quarantine : List InsertRow
  pub threw : (big_query.insert_raw table rows w).0 ≡ thrown (partial_failure failures)
  pub permanent : any is_transient_failure failures ≡ false
  pub some_rejected : 0 < n
  pub counted : length failures ≡ n
  pub made : quarantine_rows engine now table 0 failures ≡ some quarantine
  pub kept : length quarantine ≡ n
  pub written :
      (big_query.insert_raw ingestion_errors quarantine (big_query.insert_raw table rows w).1).0
      ≡ inserted

abbrev pub IsLanded :
    {W : Type 0} → BigQuery W → Engine → (now table : String) → List InsertRow → W → ℕ → Type 0
IsLanded big_query engine now table rows w n =
    (((big_query.insert_raw table rows w).0 ≡ inserted) × (n ≡ 0))
    ⊎ Rejected big_query engine now table rows w n

module _ {W : Type 0} (big_query : BigQuery W) (engine : Engine) (now table : String)
    (rows : List InsertRow) (w : W) where
  by_quarantine :
      (n : ℕ) (f : PartialInsertFailure) (fs : List PartialInsertFailure)
      → (big_query.insert_raw table rows w).0 ≡ thrown (partial_failure (f ∷ fs))
      → any is_transient_failure (f ∷ fs) ≡ false
      → (q : Option (List InsertRow)) → quarantine_rows engine now table 0 (f ∷ fs) ≡ q
      → (quarantined big_query engine now q (big_query.insert_raw table rows w).1).0 ≡ ok n
      → Rejected big_query engine now table rows w n
  by_quarantine n f fs e p none same h = absurd (ground arith)
  by_quarantine n f fs e p (some more) same h =
      by_outcome
        (big_query.insert_raw ingestion_errors more (big_query.insert_raw table rows w).1).0 refl h
    where
      by_outcome :
          (outcome : Inserted)
          → (big_query.insert_raw ingestion_errors more (big_query.insert_raw table rows w).1).0
            ≡ outcome
          → elim outcome as (λ x. Result ℕ) [ inserted ↦ ok (length more) | thrown e ↦ err ] ≡ ok n
          → Rejected big_query engine now table rows w n
      by_outcome inserted o h' =
          let many = length-quarantine_rows engine now table 0 (f ∷ fs) more same in
          let kept_rows : length more ≡ n = ground (arith, h') in
          record {
            failures = f ∷ fs;
            quarantine = more;
            threw = e;
            permanent = p;
            some_rejected = omega (arith, many, kept_rows);
            counted = sym many ∙ kept_rows;
            made = same;
            kept = kept_rows;
            written = o;
          }
      by_outcome (thrown x) o h' = absurd (ground arith)

  by_error :
      (n : ℕ) (error : InsertError)
      → (big_query.insert_raw table rows w).0 ≡ thrown error
      → (after_failures big_query engine now table
          (partial_failures error)
          (big_query.insert_raw table rows w).1).0
        ≡ ok n
      → Rejected big_query engine now table rows w n
  unfolding partial_failures
  by_error n other_error e h = absurd (ground arith)
  by_error n (partial_failure []) e h = absurd (ground arith)
  by_error n (partial_failure (f ∷ fs)) e h =
      elim (Bool-cases (any is_transient_failure (f ∷ fs))) [
        | inl transient ↦ absurd (ground (arith, transient, h))
        | inr permanent ↦
            by_quarantine n f fs e permanent (quarantine_rows engine now table 0 (f ∷ fs)) refl (
              subst
                (λ b.
                  (if b
                    then (err, (big_query.insert_raw table rows w).1)
                    else quarantined big_query engine now
                        (quarantine_rows engine now table 0 (f ∷ fs))
                        (big_query.insert_raw table rows w).1).0
                  ≡ ok n)
                permanent h)
      ]

  -- `insertEvents` reports success only where BigQuery took all rows, or rejected rows all of which
  -- failed for a permanent reason and for each of which a row was written to the quarantine table;
  -- and then it reports their number.
  pub insert_events-IsLanded :
      (n : ℕ)
      → (insert_events big_query engine now table rows w).0 ≡ ok n
      → IsLanded big_query engine now table rows w n
  unfolding insert_events
  insert_events-IsLanded n h = by_insert (big_query.insert_raw table rows w).0 refl h
    where
      by_insert :
          (outcome : Inserted)
          → (big_query.insert_raw table rows w).0 ≡ outcome
          → (after_insert big_query engine now table outcome
              (big_query.insert_raw table rows w).1).0
            ≡ ok n
          → IsLanded big_query engine now table rows w n
      by_insert inserted e h' = inl (e, ground arith)
      by_insert (thrown error) e h' = inr (by_error n error e h')
