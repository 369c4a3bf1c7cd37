-- ===== src/BqSink/Sql/Inserts.antt =====
-- Inserts into columns that are NOT NULL: bq-sink/src/canonicalizer.ts.
use escld.Prelude.{
  ◌≡◌, refl, sym, ◌∙◌, ◌↔◌, inl, inr, Bool, true, false, not, Option, some, List, [], ◌∷◌, ◌++◌,
  Bool-cases, Option-cases, all, any, All, All-append, ok, err,
}
use escld.BqSink.Sql.{where_true, is_not_null, insert_rows, merge_required}

pub All-where_true {ℓ κ} :
    {A : Type ℓ} (P : A → Type κ) (p : A → Bool) (xs : List A) → All P xs → All P (where_true p xs)
All-where_true P p [] h = tt
All-where_true P p (x ∷ xs) (q, h) = elim (Bool-cases (p x)) [
  | inl e ↦ rw e (q, All-where_true P p xs h)
  | inr e ↦ rw e (All-where_true P p xs h)
]

module _ {ℓ κ} {S : Type ℓ} {T : Type κ} (insert : S → Option T) where
  abbrev pub fails : List S → Bool
  fails source = any (λ s. not (is_not_null (insert s))) source

  insert_rows-err : (source : List S) → fails source ≡ true → insert_rows insert source ≡ err
  unfolding insert_rows
  insert_rows-err [] h = cc
  insert_rows-err (s ∷ source) h = elim (Option-cases (insert s)) [
    | inl e ↦ rw (e, insert_rows) refl
    | inr (t, e) ↦ rw (e, insert_rows-err source (rw e at h), insert_rows) refl
  ]

  -- The row that is made satisfies P.
  abbrev pub Makes {μ} : (T → Type μ) → S → Type (κ ⊔ μ)
  Makes P s = (t : T) → insert s ≡ some t → P t

  -- Rows without a NULL are all inserted, and satisfy what each row that is made satisfies.
  insert_rows-ok {μ} :
      (P : T → Type μ) (source : List S)
      → All (Makes P) source
      → fails source ≡ false
      → (ts : List T) × (insert_rows insert source ≡ ok ts) × All P ts
  unfolding insert_rows
  insert_rows-ok P [] all h = ([], refl, tt)
  insert_rows-ok P (s ∷ source) (made, all) h = elim (Option-cases (insert s)) [
    | inl e ↦ cc (rw e at h)
    | inr (t, e) ↦
        let (ts, p, q) = insert_rows-ok P source all (rw e at h) in
        (t ∷ ts, rw (e, p, insert_rows) refl, (made t e, q))
  ]

  all_make : (source : List S) → All (Makes (λ t. Unit {0})) source
  all_make [] = tt
  all_make (s ∷ source) = (λ t e. tt, all_make source)

  module _ (matches : S → T → Bool) where
    abbrev pub unmatched : List S → List T → List S
    unmatched source target = where_true (λ s. not (any (matches s) target)) source

    -- The merge fails exactly where a row without a match has a NULL in such a column.
    pub merge_required-err_iff :
        (source : List S) (target : List T)
        → (merge_required matches insert source target ≡ err)
          ↔ (fails (unmatched source target) ≡ true)
    unfolding merge_required
    merge_required-err_iff source target = (
      λ h. elim (Bool-cases (fails (unmatched source target))) [
        | inl e ↦ e
        | inr e ↦
            let (ts, p, q) =
              insert_rows-ok (λ t. Unit {0}) (unmatched source target)
                (all_make (unmatched source target)) e in
            let done : merge_required matches insert source target ≡ ok (target ++ ts) =
              rw (p, merge_required) refl in
            cc (sym done ∙ h)
      ],
      λ h. rw (insert_rows-err (unmatched source target) h, merge_required) refl,
    )

    pub merge_required-All {μ} :
        (P : T → Type μ) (source : List S) (target : List T)
        → All (Makes P) source
        → All P target
        → fails (unmatched source target) ≡ false
        → (ts : List T) × (merge_required matches insert source target ≡ ok ts) × All P ts
    unfolding merge_required
    merge_required-All P source target made old h =
        let (ts, p, q) =
          insert_rows-ok P (unmatched source target)
            (All-where_true (Makes P) (λ s. not (any (matches s) target)) source made) h in
        (target ++ ts, rw (p, merge_required) refl, All-append P target ts old q)
