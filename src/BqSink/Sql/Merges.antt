-- ===== src/BqSink/Sql/Merges.antt =====
-- The merge of bq-sink/src/canonicalizer.ts that updates rows of the target.
use escld.Prelude.{
  ◌≤◌, String, ◌≡◌, refl, sym, ap, subst, ◌↔◌, inl, inr, Bool, true, false, not, ◌||◌, List, [],
  ◌∷◌, ◌++◌, map, arith, ◌==◌, eq_iff, Bool-cases, length, any, ok,
}
use escld.BqSink.Sql.{listed, where_true, distinct_by, update_row, update_rows, merge}
use escld.BqSink.Sql.Lists.{Unique}
use escld.BqSink.Sql.Ranks.{same_key, missing, listed-with_inserted, inserted-Unique}

module _ {ℓ κ} {S : Type ℓ} {T : Type κ} (source_key : S → String) (target_key : T → String)
    (update : S → T → T) (insert : S → T)
    (updated : (s : S) (t : T) → target_key (update s t) ≡ target_key t)
    (kept : (s : S) → target_key (insert s) ≡ source_key s) where
  abbrev on_key : S → T → Bool
  on_key = same_key source_key target_key

  none_matches :
      (t : T) (source : List S)
      → listed (target_key t) (map source_key source) ≡ false
      → where_true (λ s. on_key s t) source ≡ []
  none_matches t [] h = refl
  none_matches t (s ∷ source) h = ground (
    arith,
    none_matches t source,
    eq_iff (target_key t) (source_key s),
    eq_iff (source_key s) (target_key t),
  )

  -- No two rows of the source match one row of the target.
  update_row-ok :
      (t : T) (source : List S)
      → Unique (map source_key source)
      → (t' : T) × (update_row on_key update source t ≡ ok t') × (target_key t' ≡ target_key t)
  unfolding update_row
  update_row-ok t [] u = (t, refl, refl)
  update_row-ok t (s ∷ source) (new, u) = elim (Bool-cases (target_key t == source_key s)) [
    | inl e ↦ (
      update s t,
      rw
          (
            e,
            none_matches t source (
                subst (λ k. listed k (map source_key source) ≡ false)
                  (sym ((eq_iff (target_key t) (source_key s)).0 e)) new),
            update_row,
          )
          refl,
      updated s t,
    )
    | inr e ↦ let (t', p, q) = update_row-ok t source u in (t', ground (arith, p), q)
  ]

  update_rows-ok :
      (source : List S) (target : List T)
      → Unique (map source_key source)
      → (ts : List T) × (update_rows on_key update source target ≡ ok ts)
        × (map target_key ts ≡ map target_key target)
  unfolding update_rows
  update_rows-ok source [] u = ([], refl, refl)
  update_rows-ok source (t ∷ target) u =
      let (t', p, q) = update_row-ok t source u in
      let (ts, p', q') = update_rows-ok source target u in
      (t' ∷ ts, rw (p, p', update_rows) refl, rw (q, q') refl)

  -- Where no key of the source stands twice, the merge succeeds, and a key stands in the target
  -- afterwards exactly if it stood there or in the source.
  pub merge-ok :
      (source : List S) (target : List T)
      → Unique (map source_key source)
      → (ts : List T) × (merge on_key update insert source target ≡ ok ts)
        × ((k : String)
            → listed k (map target_key ts)
              ≡ (listed k (map target_key target) || listed k (map source_key source)))
        × (Unique (map target_key target) → Unique (map target_key ts))
  unfolding merge
  merge-ok source target u =
      let (ts, p, q) = update_rows-ok source target u in
      (
        ts ++ map insert (missing source_key target_key source target),
        rw (p, merge) refl,
        λ k. listed-with_inserted source_key target_key insert kept k source target ts q,
        inserted-Unique source_key target_key insert kept source target ts q u,
      )

-- No two rows of the source match one row of the target.
abbrev pub AtMostOne {ℓ κ} : {S : Type ℓ} {T : Type κ} → (S → T → Bool) → List S → Type κ
AtMostOne {T} matches source = (t : T) → length (where_true (λ s. matches s t) source) ≤ 1

module _ {ℓ κ} {S : Type ℓ} {T : Type κ} (matches : S → T → Bool) (update : S → T → T)
    (insert : S → T) (source : List S) (single : AtMostOne matches source) where
  update_row-finishes :
      (t : T) (found : List S)
      → where_true (λ s. matches s t) source ≡ found
      → (t' : T) × (update_row matches update source t ≡ ok t')
  unfolding update_row
  update_row-finishes t [] e = (t, rw (e, update_row) refl)
  update_row-finishes t (s ∷ []) e = (update s t, rw (e, update_row) refl)
  update_row-finishes t (s ∷ s' ∷ more) e = absurd (omega (arith, single t, ap length e))

  update_rows-finishes :
      (target : List T) → (ts : List T) × (update_rows matches update source target ≡ ok ts)
  unfolding update_rows
  update_rows-finishes [] = ([], refl)
  update_rows-finishes (t ∷ target) =
      let (t', p) = update_row-finishes t (where_true (λ s. matches s t) source) refl in
      let (ts, p') = update_rows-finishes target in (t' ∷ ts, rw (p, p', update_rows) refl)

  pub merge-finishes :
      (target : List T) → (ts : List T) × (merge matches update insert source target ≡ ok ts)
  unfolding merge
  merge-finishes target =
      let (ts, p) = update_rows-finishes target in
      (ts ++ map insert (where_true (λ s. not (any (matches s) target)) source), rw (p, merge) refl)

-- The groups of a `GROUP BY` have different keys.
module _ {ℓ} {K : Type ℓ} (same : K → K → Bool)
    (same_iff : (a b : K) → (same a b ≡ true) ↔ (a ≡ b)) where
  no_key :
      (k : K) (xs : List K)
      → any (same k) xs ≡ false
      → where_true (same k) (distinct_by same xs) ≡ []
  unfolding distinct_by
  no_key k [] h = refl
  no_key k (x ∷ xs) h = ground (arith, no_key k xs)

  one_key : (k : K) (xs : List K) → length (where_true (same k) (distinct_by same xs)) ≤ 1
  unfolding distinct_by
  one_key k [] = omega arith
  one_key k (x ∷ xs) = elim (Bool-cases (any (same x) xs)) [
    | inl e ↦ rw e (one_key k xs)
    | inr e ↦ rw e (elim (Bool-cases (same k x)) [
      | inl f ↦
          rw (f, no_key k xs (subst (λ y. any (same y) xs ≡ false) (sym ((same_iff k x).0 f)) e))
            (omega arith)
      | inr f ↦ rw f (one_key k xs)
    ])
  ]

  rows_of_key {κ} :
      {R : Type κ} (key : R → K) (row : K → R)
      → ((k : K) → key (row k) ≡ k)
      → (k : K) (ks : List K)
      → length (where_true (λ r. same k (key r)) (map row ks)) ≡ length (where_true (same k) ks)
  rows_of_key key row made k [] = refl
  rows_of_key key row made k (j ∷ ks) = ground (arith, made j, rows_of_key key row made k ks)

  -- Rows that are made for the groups match a row of the target at most once.
  pub AtMostOne-rows {κ} :
      {R : Type κ} (key : R → K) (row : K → R)
      → ((k : K) → key (row k) ≡ k)
      → (xs : List K) → AtMostOne (λ s t. same (key t) (key s)) (map row (distinct_by same xs))
  AtMostOne-rows key row made xs t =
      omega (arith, rows_of_key key row made (key t) (distinct_by same xs), one_key (key t) xs)
