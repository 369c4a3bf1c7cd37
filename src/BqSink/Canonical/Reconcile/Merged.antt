-- ===== src/BqSink/Canonical/Reconcile/Merged.antt =====
-- The events that bq-sink/src/canonicalizer.ts compares, and those that its merge leaves.
use escld.Prelude.{
  ℕ, String, ◌≡◌, refl, sym, ap, ◌∙◌, true, not, ◌&&◌, ◌||◌, List, [], ◌∷◌, ◌++◌, map, arith, any,
}
use mathlib.Core.List.{map-append}
use escld.BqSink.Sql.{listed, where_true, merge_missing}
use escld.BqSink.Sql.Lists.{
  Unique, listed-append, listed-where_true, Unique-where_true, map-where_true,
}
use escld.BqSink.Sql.Held.{held, held-append, held-where_true, held_of_where_true}
use escld.BqSink.Sql.Ranks.{
  first_ranked-Unique, listed-first_ranked, held-first_ranked, listed-merge_missing,
  merge_missing-Unique, same_key,
}
use escld.BqSink.Canonical.Rows.{Event, Functions, event_before}
use escld.BqSink.Canonical.Reconcile.{
  CanonicalEvent, Conflict, EventConflict, id_of, canonical_id, current_id, conflict_id, event_of,
  compared, delete_conflicting, winners, merge_winners, insert_winner,
}

module _ (bq : Functions) (now : ℕ) (candidates : List Event) (current : List Conflict)
    (known : List EventConflict) (canonical : List CanonicalEvent) where
  abbrev pub won : List Event
  won = winners bq candidates current known

  abbrev pub left : List CanonicalEvent
  left = delete_conflicting current canonical

  pub listed-won :
      (k : String)
      → listed k (map id_of won) ≡ (
          (not (listed k (map current_id current)) && not (listed k (map conflict_id known)))
          && listed k (map id_of candidates))
  unfolding winners
  listed-won k =
      listed-first_ranked id_of (event_before bq) k (
        where_true
          (λ e.
            not (listed (id_of e) (map current_id current))
            && not (listed (id_of e) (map conflict_id known)))
          candidates)
      ∙ listed-where_true id_of
          (λ j. not (listed j (map current_id current)) && not (listed j (map conflict_id known))) k
          candidates

  won-Unique : Unique (map id_of won)
  unfolding winners
  won-Unique = first_ranked-Unique id_of (event_before bq) (
      where_true
        (λ e.
          not (listed (id_of e) (map current_id current))
          && not (listed (id_of e) (map conflict_id known)))
        candidates)

  held-won :
      (value : Event → String) (v k : String)
      → held id_of value v k won ≡ true
      → held id_of value v k candidates ≡ true
  unfolding winners
  held-won value v k h =
      held_of_where_true id_of value v k
        (λ e.
          not (listed (id_of e) (map current_id current))
          && not (listed (id_of e) (map conflict_id known)))
        candidates
        (held-first_ranked id_of (event_before bq) value v k
          (where_true
            (λ e.
              not (listed (id_of e) (map current_id current))
              && not (listed (id_of e) (map conflict_id known)))
            candidates)
          h)

  listed-left :
      (k : String)
      → listed k (map canonical_id left)
        ≡ (not (listed k (map current_id current)) && listed k (map canonical_id canonical))
  unfolding delete_conflicting
  listed-left k =
      listed-where_true canonical_id (λ j. not (listed j (map current_id current))) k canonical

  left-Unique : Unique (map canonical_id canonical) → Unique (map canonical_id left)
  unfolding delete_conflicting
  left-Unique =
      Unique-where_true canonical_id (λ c. not (listed (canonical_id c) (map current_id current)))
        canonical

  pub listed-merged :
      (k : String)
      → listed k (map canonical_id (merge_winners now won left)) ≡ (
          not (listed k (map current_id current))
          && (listed k (map canonical_id canonical)
              || (not (listed k (map conflict_id known)) && listed k (map id_of candidates))))
  unfolding merge_winners
  listed-merged k = ground (
    arith,
    listed-merge_missing id_of canonical_id (insert_winner now) (λ s. refl) k won left,
    listed-won k,
    listed-left k,
  )

  pub merged-Unique :
      Unique (map canonical_id canonical) → Unique (map canonical_id (merge_winners now won left))
  unfolding merge_winners
  merged-Unique u =
      merge_missing-Unique id_of canonical_id (insert_winner now) (λ s. refl) won left won-Unique
        (left-Unique u)

  map-event_of-insert : (es : List Event) → map event_of (map (insert_winner now) es) ≡ es
  map-event_of-insert [] = refl
  map-event_of-insert (e ∷ es) = rw (map-event_of-insert es) refl

  -- What a canonical event holds, it held before or a candidate holds it.
  pub held-merged :
      (value : Event → String) (v k : String)
      → held id_of value v k (map event_of (merge_winners now won left)) ≡ true
      → (held id_of value v k (map event_of canonical) || held id_of value v k candidates) ≡ true
  unfolding merge_winners merge_missing delete_conflicting
  held-merged value v k h =
      let kept = λ (c : CanonicalEvent). not (listed (canonical_id c) (map current_id current)) in
      let fresh = where_true (λ s. not (any (same_key id_of canonical_id s) left)) won in
      let split : map event_of (left ++ map (insert_winner now) fresh)
          ≡ map event_of left ++ fresh =
        map-append event_of left (map (insert_winner now) fresh)
        ∙ ap (λ es. map event_of left ++ es) (map-event_of-insert fresh) in
      let old : map event_of left
          ≡ where_true (λ e. not (listed (id_of e) (map current_id current)))
              (map event_of canonical) =
        map-where_true event_of (λ e. not (listed (id_of e) (map current_id current))) canonical in
      let both = sym (ap (held id_of value v k) split) ∙ h in
      ground (
        arith,
        held-append id_of value v k (map event_of left) fresh,
        both,
        ap (held id_of value v k) old,
        held_of_where_true id_of value v k (λ e. not (listed (id_of e) (map current_id current)))
            (map event_of canonical),
        held_of_where_true id_of value v k (λ s. not (any (same_key id_of canonical_id s) left))
            won,
        held-won value v k,
      )

module _ (candidates : List Event) (canonical : List CanonicalEvent) where
  pub listed-compared :
      (k : String)
      → listed k (map id_of (compared candidates canonical)) ≡ listed k (map id_of candidates)
  unfolding compared
  listed-compared k = ground (
    arith,
    ap (listed k) (
        map-append id_of candidates
          (where_true (λ e. listed e.event_id (map id_of candidates)) (map event_of canonical))),
    listed-append k (map id_of candidates) (
        map id_of
          (where_true (λ e. listed e.event_id (map id_of candidates)) (map event_of canonical))),
    listed-where_true id_of (λ j. listed j (map id_of candidates)) k (map event_of canonical),
  )

  pub held-compared :
      (value : Event → String) (v k : String)
      → held id_of value v k (compared candidates canonical) ≡ (
          held id_of value v k candidates
          || (listed k (map id_of candidates) && held id_of value v k (map event_of canonical)))
  unfolding compared
  held-compared value v k =
      held-append id_of value v k candidates
        (where_true (λ e. listed e.event_id (map id_of candidates)) (map event_of canonical))
      ∙ ap (λ b. held id_of value v k candidates || b)
          (held-where_true id_of value v k (λ j. listed j (map id_of candidates))
            (map event_of canonical))
