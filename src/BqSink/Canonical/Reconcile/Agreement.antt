-- ===== src/BqSink/Canonical/Reconcile/Agreement.antt =====
-- What the first half of bq-sink/src/canonicalizer.ts leaves in canonical_events and
-- event_conflicts.
use escld.Prelude.{ℕ, String, ◌≡◌, refl, Bool, true, false, ◌||◌, List, ◌++◌, map, arith, ok}
use escld.BqSink.Sql.{listed}
use escld.BqSink.Sql.Lists.{Unique}
use escld.BqSink.Sql.Held.{held, held-append}
use escld.BqSink.Sql.Merges.{merge-ok}
use escld.BqSink.Canonical.Rows.{Event, Functions}
use escld.BqSink.Canonical.Reconcile.{
  Conflict, EventConflict, Ledger, id_of, canonical_id, current_id, conflict_id, event_of, compared,
  variant_of, type_of, current_conflicts, merge_conflicts, update_conflict, insert_conflict,
  delete_conflicting, winners, merge_winners, reconcile,
}
use escld.BqSink.Canonical.Reconcile.Conflicts.{
  Agree, current_conflicts-Unique, listed_of_current, Agree-of_current,
}
use escld.BqSink.Canonical.Reconcile.Merged.{
  listed-merged, merged-Unique, held-merged, listed-compared, held-compared,
}

abbrev pub is_canonical : String → Ledger → Bool
is_canonical k ledger = listed k (map canonical_id ledger.canonical_events)

abbrev pub is_in_conflict : String → Ledger → Bool
is_in_conflict k ledger = listed k (map conflict_id ledger.event_conflicts)

-- An id stands once in canonical_events, once in event_conflicts, and not in both.
pub record IsClean (ledger : Ledger) : Type 0 where
  pub canonical_once : Unique (map canonical_id ledger.canonical_events)
  pub conflicts_once : Unique (map conflict_id ledger.event_conflicts)
  pub apart : (k : String) → is_canonical k ledger ≡ true → is_in_conflict k ledger ≡ false

-- The conflicts after the merge into event_conflicts.
pub merge_conflicts-ok :
    (now : ℕ) (candidates : List Event) (ledger : Ledger)
    → let current = current_conflicts candidates ledger.canonical_events in
      (known : List EventConflict) × (merge_conflicts now current ledger.event_conflicts ≡ ok known)
      × ((k : String)
          → listed k (map conflict_id known)
            ≡ (is_in_conflict k ledger || listed k (map current_id current)))
      × (Unique (map conflict_id ledger.event_conflicts) → Unique (map conflict_id known))
unfolding merge_conflicts
merge_conflicts-ok now candidates ledger =
    merge-ok current_id conflict_id (update_conflict now) (insert_conflict now) (λ s t. refl)
      (λ s. refl) (current_conflicts candidates ledger.canonical_events) ledger.event_conflicts
      (current_conflicts-Unique candidates ledger.canonical_events)

pub record IsReconciled (candidates : List Event) (before after : Ledger) : Type 0 where
  pub clean : IsClean after
  -- No id is lost, none comes from elsewhere, and a conflict stays one.
  pub accounted :
      (k : String)
      → (is_canonical k after || is_in_conflict k after)
        ≡ ((is_canonical k before || is_in_conflict k before) || listed k (map id_of candidates))
  pub conflicts_stay : (k : String) → is_in_conflict k before ≡ true → is_in_conflict k after ≡ true
  -- A canonical event has the type and the payload of every candidate with its id.
  pub agree :
      (k : String)
      → listed k (map id_of candidates) ≡ true
      → is_canonical k after ≡ true
      → Agree variant_of k (map event_of after.canonical_events ++ candidates)
        × Agree type_of k (map event_of after.canonical_events ++ candidates)

-- Values that are all held in the comparison agree where they agree there.
pub Agree-mono :
    (value : Event → String) (k : String) (xs ys : List Event)
    → ((v : String) → held id_of value v k xs ≡ true → held id_of value v k ys ≡ true)
    → Agree value k ys
    → Agree value k xs
Agree-mono value k xs ys sub a v w p q = a v w (sub v p) (sub w q)

module _ (bq : Functions) (conflicts_at winners_at : ℕ) (candidates : List Event)
    (before : Ledger) where
  abbrev current : List Conflict
  current = current_conflicts candidates before.canonical_events

  abbrev merged : List EventConflict → Ledger
  merged known = record {
    canonical_events =
        merge_winners winners_at (winners bq candidates current known)
          (delete_conflicting current before.canonical_events);
    event_conflicts = known;
  }

  held-both :
      (known : List EventConflict) (value : Event → String) (v k : String)
      → listed k (map id_of candidates) ≡ true
      → held id_of value v k (map event_of (merged known).canonical_events ++ candidates) ≡ true
      → held id_of value v k (compared candidates before.canonical_events) ≡ true
  held-both known value v k c h = ground (
    arith,
    held-append id_of value v k (map event_of (merged known).canonical_events) candidates,
    held-merged bq winners_at candidates current known before.canonical_events value v k,
    held-compared candidates before.canonical_events value v k,
  )

  -- The script does not fail here, and leaves the two tables reconciled.
  pub reconcile-IsReconciled :
      IsClean before
      → (after : Ledger) × (reconcile bq conflicts_at winners_at candidates before ≡ ok after)
        × IsReconciled candidates before after
  unfolding reconcile
  reconcile-IsReconciled clean =
      let (known, e, keys, once) = merge_conflicts-ok conflicts_at candidates before in
      let ids = λ (k : String).
        listed-merged bq winners_at candidates current known before.canonical_events k in
      let seen = λ (k : String). listed_of_current candidates before.canonical_events k in
      let all = λ (k : String). listed-compared candidates before.canonical_events k in
      (
        merged known,
        rw (e, reconcile) refl,
        record {
          clean = record {
            canonical_once =
                merged-Unique bq winners_at candidates current known before.canonical_events
                  clean.canonical_once;
            conflicts_once = once clean.conflicts_once;
            apart = λ k h. ground (arith, ids k, keys k, clean.apart k);
          };
          accounted = λ k. ground (arith, ids k, keys k, clean.apart k, seen k, all k);
          conflicts_stay = λ k h. ground (arith, keys k);
          agree = λ k c h.
              let (variants, types) =
                Agree-of_current candidates before.canonical_events k (ground (arith, all k))
                  (ground (arith, ids k)) in
              (
                Agree-mono variant_of k (map event_of (merged known).canonical_events ++ candidates)
                    (compared candidates before.canonical_events)
                    (λ v. held-both known variant_of v k c) variants,
                Agree-mono type_of k (map event_of (merged known).canonical_events ++ candidates)
                    (compared candidates before.canonical_events)
                    (λ v. held-both known type_of v k c) types,
              );
        },
      )
