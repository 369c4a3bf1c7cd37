-- ===== src/BqSink/Canonical/Script/Reconciled.antt =====
-- What the whole script of bq-sink/src/canonicalizer.ts leaves of canonical_events and
-- event_conflicts, wherever it ends.
use escld.Prelude.{
  ◌⊎◌, inl, inr, Bool-cases, ℕ, ◌+◌, String, true, false, ◌≡◌, refl, sym, subst, List, arith,
}
use escld.BqSink.Canonical.Rows.{RawRow, Functions, candidate_events}
use escld.BqSink.Canonical.Reconcile.{Ledger}
use escld.BqSink.Canonical.Reconcile.Agreement.{IsClean, IsReconciled, reconcile-IsReconciled}
use escld.BqSink.Canonical.Script.{
  Tables, Ended, finished, failed, Clock, roll_up, lineage, canonical_merge, are_identifiers,
  canonicalize,
}

abbrev pub tables_of : Ended → Tables
tables_of (finished t) = t
tables_of (failed t) = t

abbrev Keeps : Ledger → Ended → Type 0
Keeps l e = (tables_of e).ledger ≡ l

module _ (bq : Functions) (clock : Clock) (lookback_days outcome_lookback_days : ℕ) where
  lineage-Keeps :
      (t : Tables) → Keeps t.ledger (lineage bq clock lookback_days outcome_lookback_days t)
  unfolding lineage roll_up
  lineage-Keeps t = ground arith

  merge-IsReconciled :
      (raw : String → List RawRow) (t : Tables)
      → IsClean t.ledger
      → IsReconciled
          (candidate_events bq raw clock.candidates_at lookback_days)
          t.ledger
          (tables_of (canonical_merge bq clock lookback_days outcome_lookback_days raw t)).ledger
  unfolding canonical_merge
  merge-IsReconciled raw t clean =
      let candidates = candidate_events bq raw clock.candidates_at lookback_days in
      let (after, e, done) =
        reconcile-IsReconciled bq clock.conflicts_at clock.winners_at candidates t.ledger clean in
      rw (e, canonical_merge)
        (subst (IsReconciled candidates t.ledger)
          (sym (lineage-Keeps (record t { ledger = after }))) done)

-- Where every id stands once in canonical_events, once in event_conflicts and not in both,
-- canonicalize writes nothing if a name is unsafe, and otherwise reconciles these two tables with
-- the events of the look-back, also where a later statement fails and stops it.
pub canonicalize-IsReconciled :
    (bq : Functions) (clock : Clock) (project dataset analytics_dataset : String)
    (lookback_days : ℕ) (raw : String → List RawRow) (t : Tables)
    → IsClean t.ledger
    → let ended = canonicalize bq clock project dataset analytics_dataset lookback_days raw t in
      ((are_identifiers project dataset analytics_dataset ≡ false) × (ended ≡ failed t))
      ⊎ ((are_identifiers project dataset analytics_dataset ≡ true)
          × IsReconciled
              (candidate_events bq raw clock.candidates_at lookback_days)
              t.ledger
              (tables_of ended).ledger)
unfolding canonicalize
canonicalize-IsReconciled bq clock project dataset analytics_dataset lookback_days raw t clean =
    elim (Bool-cases (are_identifiers project dataset analytics_dataset)) [
      | inr unsafe ↦ inl (unsafe, rw (unsafe, canonicalize) refl)
      | inl safe ↦ inr (
        safe,
        rw (safe, canonicalize)
            (merge-IsReconciled bq clock lookback_days (lookback_days + 2) raw t clean),
      )
    ]
