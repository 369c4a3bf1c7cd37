-- ===== src/BqSink/Sql/Written.antt =====
-- A MERGE whose source replaces the rows that it matches leaves every row of the source in the table.
use escld.Prelude.{
  ◌≡◌, refl, sym, ap, ◌∙◌, ◌⊎◌, inl, inr, Bool, true, not, List, [], ◌∷◌, ◌++◌, map, arith,
  Bool-cases, length, any, All, ok,
}
use escld.BqSink.Sql.{where_true, update_row, update_rows, merge}
use escld.BqSink.Sql.Merges.{AtMostOne}

abbrev pub In : {A : Type 0} → A → List A → Type 0
In x [] = ⊥
In x (y ∷ ys) = (y ≡ x) ⊎ In x ys

In-where :
    {A : Type 0} (p : A → Bool) (x : A) (ys : List A)
    → In x ys
    → p x ≡ true
    → In x (where_true p ys)
In-where p x [] h e = elim h [ ]
In-where p x (y ∷ ys) (inl here) e = rw (ap p here ∙ e) (inl here)
In-where p x (y ∷ ys) (inr later) e = elim (Bool-cases (p y)) [
  | inl kept ↦ rw kept (inr (In-where p x ys later e))
  | inr dropped ↦ rw dropped (In-where p x ys later e)
]

In-front : {A : Type 0} (x : A) (xs ys : List A) → In x xs → In x (xs ++ ys)
In-front x [] ys h = elim h [ ]
In-front x (z ∷ xs) ys (inl here) = inl here
In-front x (z ∷ xs) ys (inr later) = inr (In-front x xs ys later)

In-back : {A : Type 0} (x : A) (xs ys : List A) → In x ys → In x (xs ++ ys)
In-back x [] ys h = h
In-back x (z ∷ xs) ys h = inr (In-back x xs ys h)

In-map : {A : Type 0} (x : A) (xs : List A) → In x xs → In x (map (λ y. y) xs)
In-map x [] h = h
In-map x (y ∷ ys) (inl here) = inl here
In-map x (y ∷ ys) (inr later) = inr (In-map x ys later)

pub All-In : {A : Type 0} (P : A → Type 0) (xs : List A) → ((x : A) → In x xs → P x) → All P xs
All-In P [] f = tt
All-In P (x ∷ xs) f = (f x (inl refl), All-In P xs (λ y h. f y (inr h)))

module _ {S : Type 0} (matches : S → S → Bool) (update : S → S → S) (source : List S)
    (single : AtMostOne matches source)
    (replaces : (s t : S) → matches s t ≡ true → update s t ≡ s) where
  update_row-writes :
      (s t : S) → In s source → matches s t ≡ true → update_row matches update source t ≡ ok s
  unfolding update_row
  update_row-writes s t among hit =
      by_found (where_true (λ r. matches r t) source) refl
        (In-where (λ r. matches r t) s source among hit)
    where
      by_found :
          (found : List S)
          → where_true (λ r. matches r t) source ≡ found
          → In s found
          → update_row matches update source t ≡ ok s
      by_found [] e h = elim h [ ]
      by_found (r ∷ []) e (inl same) =
          rw (e, update_row) (ap ok (ap (λ x. update x t) same ∙ replaces s t hit))
      by_found (r ∷ []) e (inr h) = elim h [ ]
      by_found (r ∷ r' ∷ more) e h = absurd (omega (arith, single t, ap length e))

  update_row-cases : (t : S) → (t' : S) × (update_row matches update source t ≡ ok t')
  unfolding update_row
  update_row-cases t = by_found (where_true (λ r. matches r t) source) refl
    where
      by_found :
          (found : List S)
          → where_true (λ r. matches r t) source ≡ found
          → (t' : S) × (update_row matches update source t ≡ ok t')
      by_found [] e = (t, rw (e, update_row) refl)
      by_found (r ∷ []) e = (update r t, rw (e, update_row) refl)
      by_found (r ∷ r' ∷ more) e = absurd (omega (arith, single t, ap length e))

  update_rows-writes :
      (target : List S)
      → (ts : List S) × (update_rows matches update source target ≡ ok ts)
        × ((s : S) → In s source → any (matches s) target ≡ true → In s ts)
  unfolding update_rows
  update_rows-writes [] = ([], refl, λ s among hit. absurd (ground arith))
  update_rows-writes (t ∷ target) =
      let (t', p) = update_row-cases t in
      let (ts, p', later) = update_rows-writes target in
      (
        t' ∷ ts,
        rw (p, p', update_rows) refl,
        λ s among hit. elim (Bool-cases (matches s t)) [
          | inl here ↦ inl (same t' s (sym p ∙ update_row-writes s t among here))
          | inr elsewhere ↦ inr (later s among (ground (arith, hit, elsewhere)))
        ],
      )
    where
      same : (a b : S) → ok a ≡ ok b → a ≡ b
      same a b e = ground (arith, e)

  pub merge-writes :
      (target : List S)
      → (ts : List S) × (merge matches update (λ s. s) source target ≡ ok ts)
        × All (λ s. In s ts) source
  unfolding merge
  merge-writes target =
      let (ts, p, later) = update_rows-writes target in
      let inserted = where_true (λ s. not (any (matches s) target)) source in
      (
        ts ++ map (λ s. s) inserted,
        rw (p, merge) refl,
        All-In (λ s. In s (ts ++ map (λ s. s) inserted)) source
            (λ s among. elim (Bool-cases (any (matches s) target)) [
              | inl hit ↦ In-front s ts (map (λ s. s) inserted) (later s among hit)
              | inr missed ↦ In-back s ts (map (λ s. s) inserted) (
                  In-map s inserted
                    (In-where (λ s. not (any (matches s) target)) s source among (ap not missed)))
            ]),
      )
