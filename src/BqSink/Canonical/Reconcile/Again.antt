-- ===== src/BqSink/Canonical/Reconcile/Again.antt =====
-- A second run of the first half of bq-sink/src/canonicalizer.ts over the same candidates.
use escld.Prelude.{
  ℕ, String, ◌≡◌, refl, ap, inl, inr, Bool, true, false, not, List, [], ◌∷◌, ◌++◌, map, arith,
  eq_iff, Bool-cases, ok,
}
use escld.BqSink.Sql.{listed, where_true}
use escld.BqSink.Sql.Held.{held, held-append}
use escld.BqSink.Sql.Ranks.{merge_missing-nothing}
use escld.BqSink.Canonical.Rows.{Event, Functions}
use escld.BqSink.Canonical.Reconcile.{
  Conflict, Ledger, id_of, canonical_id, current_id, event_of, compared, variant_of, type_of,
  current_conflicts, delete_conflicting, winners, merge_winners, insert_winner, reconcile,
}
use escld.BqSink.Canonical.Reconcile.Conflicts.{listed_of_current, current_of_Agree}
use escld.BqSink.Canonical.Reconcile.Merged.{listed-compared, held-compared, listed-won}
use escld.BqSink.Canonical.Reconcile.Agreement.{
  is_canonical, is_in_conflict, IsClean, IsReconciled, reconcile-IsReconciled, merge_conflicts-ok,
  Agree-mono,
}

where_true-all {ℓ} :
    {A : Type ℓ} (key : A → String) (q : String → Bool) (rows : List A)
    → ((k : String) → listed k (map key rows) ≡ true → q k ≡ true)
    → where_true (λ r. q (key r)) rows ≡ rows
where_true-all key q [] h = refl
where_true-all key q (r ∷ rows) h =
    rw (h (key r) (ground (arith, eq_iff (key r) (key r))))
      (ap (λ rs. r ∷ rs) (where_true-all key q rows λ k m. h k (ground (arith, m))))

module _ (bq : Functions) (conflicts_at winners_at : ℕ) (candidates : List Event) (before : Ledger)
    (after : Ledger) (done : IsReconciled candidates before after) where
  abbrev found : List Conflict
  found = current_conflicts candidates after.canonical_events

  -- The second run finds no conflict of a canonical event.
  not_found : (k : String) → is_canonical k after ≡ true → listed k (map current_id found) ≡ false
  not_found k h = elim (Bool-cases (listed k (map id_of candidates))) [
    | inl c ↦
        let (variants, types) = done.agree k c h in
        current_of_Agree candidates after.canonical_events k
          (Agree-mono variant_of k (compared candidates after.canonical_events)
            (map event_of after.canonical_events ++ candidates) (λ v p. either variant_of v k p)
            variants)
          (Agree-mono type_of k (compared candidates after.canonical_events)
            (map event_of after.canonical_events ++ candidates) (λ v p. either type_of v k p) types)
    | inr c ↦ ground (
      arith,
      listed_of_current candidates after.canonical_events k,
      listed-compared candidates after.canonical_events k,
    )
  ]
    where
      either :
          (value : Event → String) (v k : String)
          → held id_of value v k (compared candidates after.canonical_events) ≡ true
          → held id_of value v k (map event_of after.canonical_events ++ candidates) ≡ true
      either value v k p = ground (
        arith,
        held-compared candidates after.canonical_events value v k,
        held-append id_of value v k (map event_of after.canonical_events) candidates,
      )

  nothing_deleted : delete_conflicting found after.canonical_events ≡ after.canonical_events
  unfolding delete_conflicting
  nothing_deleted =
      where_true-all canonical_id (λ k. not (listed k (map current_id found)))
        after.canonical_events λ k h. ground (arith, not_found k h)

  -- It leaves canonical_events as they are, to the row, and finds no further id in conflict.
  reconcile-again :
      (again : Ledger) × (reconcile bq conflicts_at winners_at candidates after ≡ ok again)
      × (again.canonical_events ≡ after.canonical_events)
      × ((k : String) → is_in_conflict k again ≡ is_in_conflict k after)
  unfolding reconcile merge_winners
  reconcile-again =
      let (known, e, keys, once) = merge_conflicts-ok conflicts_at candidates after in
      (
        record {
          canonical_events =
              merge_winners winners_at (winners bq candidates found known)
                (delete_conflicting found after.canonical_events);
          event_conflicts = known;
        },
        rw (e, reconcile) refl,
        rw nothing_deleted (
            merge_missing-nothing id_of canonical_id (insert_winner winners_at) (λ s. refl)
              (winners bq candidates found known) after.canonical_events
              λ k h. ground (
                arith,
                listed-won bq winners_at candidates found known after.canonical_events k,
                keys k,
                done.accounted k,
              )),
        λ k. ground (
          arith,
          keys k,
          listed_of_current candidates after.canonical_events k,
          listed-compared candidates after.canonical_events k,
          done.accounted k,
          not_found k,
        ),
      )

-- A second run over the same candidates, at whatever times, succeeds after the first and leaves
-- canonical_events as they are, to the row, and the same ids in conflict.
pub reconcile-twice :
    (bq : Functions) (conflicts_at winners_at conflicts_at' winners_at' : ℕ)
    (candidates : List Event) (before : Ledger)
    → IsClean before
    → (after again : Ledger) × (reconcile bq conflicts_at winners_at candidates before ≡ ok after)
      × (reconcile bq conflicts_at' winners_at' candidates after ≡ ok again)
      × (again.canonical_events ≡ after.canonical_events)
      × ((k : String) → is_in_conflict k again ≡ is_in_conflict k after)
reconcile-twice bq conflicts_at winners_at conflicts_at' winners_at' candidates before clean =
    let (after, e, done) =
      reconcile-IsReconciled bq conflicts_at winners_at candidates before clean in
    let (again, e', same, ids) =
      reconcile-again bq conflicts_at' winners_at' candidates before after done in
    (after, again, e, e', same, ids)
