-- ===== src/BqSink/Canonical/Daily/Rollups.antt =====
-- What the daily rows add up to: bq-sink/src/canonicalizer.ts.
use escld.Prelude.{
  ℕ, ◌+◌, ◌≤◌, ◌≡◌, refl, sym, ap, ◌∙◌, inl, inr, Bool, none, some, List, [], ◌∷◌, ◌++◌, map, arith,
  ltb, if◌then◌else◌, lt→ltb, Bool-cases, length,
}
use escld.BqSink.Canonical.Rows.{Functions}
use escld.BqSink.Canonical.Engagement.{Cell, same_cell, cells, group_of, count_if}
use escld.BqSink.Canonical.Outcomes.{ImpressionOutcome}
use escld.BqSink.Canonical.Daily.{OutcomeAgg, aggregate, outcome_agg, at_cell, agg_cell, column}
use escld.BqSink.Canonical.Daily.Cells.{
  times, none_more, same_cell_iff, times-cells, total, total_of_groups, total_of_rows,
  total_of_groups-rows,
}

times-append : (c : Cell) (xs ys : List Cell) → times c (xs ++ ys) ≡ times c xs + times c ys
times-append c [] ys = omega arith
times-append c (x ∷ xs) ys = omega (arith, times-append c xs ys)

pub total-map {ℓ κ} :
    {A : Type ℓ} {B : Type κ} (f : B → ℕ) (g : A → B) (xs : List A)
    → total f (map g xs) ≡ total (λ x. f (g x)) xs
total-map f g [] = refl
total-map f g (x ∷ xs) = rw (total-map f g xs) refl

pub total-one {ℓ} : {A : Type ℓ} (xs : List A) → total (λ x. 1) xs ≡ length xs
total-one [] = refl
total-one (x ∷ xs) = omega (arith, total-one xs)

pub total-count_if {ℓ} :
    {A : Type ℓ} (p : A → Bool) (xs : List A) → total (λ x. if p x then 1 else 0) xs ≡ count_if p xs
total-count_if p [] = refl
total-count_if p (x ∷ xs) = rw (total-count_if p xs) refl

-- Every row is in the list of cells once.
abbrev EachOnce {ℓ} : {A : Type ℓ} → List Cell → List (Cell × A) → Type 0
EachOnce cs [] = Unit
EachOnce cs ((c, x) ∷ rows) = (times c cs ≡ 1) × EachOnce cs rows

total_of_rows-once {ℓ} :
    {A : Type ℓ} (weight : A → ℕ) (cs : List Cell) (rows : List (Cell × A))
    → EachOnce cs rows
    → total_of_rows weight cs rows ≡ total weight (map (λ r. r.1) rows)
total_of_rows-once weight cs [] h = refl
total_of_rows-once weight cs ((c, x) ∷ rows) (once, h) =
    rw once (omega (arith, total_of_rows-once weight cs rows h))

module _ (bq : Functions) (rows : List (Cell × ImpressionOutcome)) (extra : List Cell) where
  abbrev pub aggs : List OutcomeAgg
  aggs = outcome_agg bq rows

  abbrev keys : List Cell
  keys = map (λ r. r.0) rows

  -- The cells of a table that joins the aggregates with other rows.
  abbrev pub joined : List Cell
  joined = cells (map agg_cell aggs ++ extra)

  agg_cells : (ks : List Cell) → map agg_cell (map (aggregate bq rows) ks) ≡ ks
  unfolding aggregate
  agg_cells [] = refl
  agg_cells (k ∷ ks) = rw (agg_cells ks) refl

  at_cell-aggregate :
      (c : Cell) (ks : List Cell)
      → at_cell agg_cell c (map (aggregate bq rows) ks)
        ≡ (if ltb 0 (times c ks) then some (aggregate bq rows c) else none)
  unfolding aggregate
  at_cell-aggregate c [] = refl
  at_cell-aggregate c (k ∷ ks) = elim (Bool-cases (same_cell k c)) [
    | inl e ↦
        rw (e, lt→ltb 0 (1 + times c ks) (omega arith))
          (ap (λ x. some (aggregate bq rows x)) ((same_cell_iff k c).0 e))
    | inr e ↦ rw e (
        at_cell-aggregate c ks
        ∙ ap (λ n. if ltb 0 n then some (aggregate bq rows c) else none)
            (sym (none_more (times c ks))))
  ]

  no_group :
      (c : Cell) (rs : List (Cell × ImpressionOutcome))
      → times c (map (λ r. r.0) rs) ≡ 0
      → group_of c rs ≡ []
  no_group c [] h = refl
  no_group c ((d, o) ∷ rs) h = elim (Bool-cases (same_cell d c)) [
    | inl e ↦ absurd (ground (arith, e, h))
    | inr e ↦ rw e (no_group c rs (ground (arith, e, h)))
  ]

  module _ (weight : ImpressionOutcome → ℕ) (field : OutcomeAgg → ℕ)
      (is_total : (c : Cell) → field (aggregate bq rows c) ≡ total weight (group_of c rows)) where
    column-total :
        (c : Cell) → column (at_cell agg_cell c aggs) field 0 ≡ total weight (group_of c rows)
    unfolding outcome_agg
    column-total c =
        let found = at_cell-aggregate c (cells keys) in
        elim (Bool-cases (ltb 0 (times c (cells keys)))) [
          | inl e ↦ ap (λ o. column o field 0) (rw e at found) ∙ is_total c
          | inr e ↦
              ap (λ o. column o field 0) (rw e at found)
              ∙ sym (ap (total weight) (no_group c rows (ground (arith, times-cells c keys, e))))
        ]

    columns-total :
        (cs : List Cell)
        → total (λ c. column (at_cell agg_cell c aggs) field 0) cs ≡ total_of_groups weight cs rows
    columns-total [] = refl
    columns-total (c ∷ cs) = rw (column-total c, columns-total cs) refl

    joined-once :
        (rs : List (Cell × ImpressionOutcome))
        → ((c : Cell) → times c (map (λ r. r.0) rs) ≤ times c keys)
        → EachOnce joined rs
    unfolding outcome_agg
    joined-once [] h = tt
    joined-once ((c, o) ∷ rs) h = (
      ground (
        arith,
        times-cells c (map agg_cell aggs ++ extra),
        times-append c (map agg_cell aggs) extra,
        ap (times c) (agg_cells (cells keys)),
        times-cells c keys,
        h c,
        same_cell_iff c c,
      ),
      joined-once rs λ d. omega (arith, h d),
    )

    -- The column adds up to the weight of all rows.
    pub joined-total :
        total (λ c. column (at_cell agg_cell c aggs) field 0) joined
        ≡ total weight (map (λ r. r.1) rows)
    joined-total =
        columns-total joined
        ∙ total_of_groups-rows weight joined rows
        ∙ total_of_rows-once weight joined rows (joined-once rows (λ c. omega arith))
