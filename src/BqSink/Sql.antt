-- ===== src/BqSink/Sql.antt =====
-- The SQL that bq-sink/src/canonicalizer.ts writes its statements in, on tables as lists of rows
-- in some order. `none` is NULL, and a test that is NULL counts as false.
pub mod Lists
pub mod Held
pub mod Ranks
pub mod Merges
pub mod Written
pub mod Best
pub mod Inserts
use escld.Prelude.{
  ℕ, min, max, String, Bool, true, false, not, ◌&&◌, ◌||◌, Option, none, some, List, [], ◌∷◌, ◌++◌,
  map, ◌==◌, ltb, eqb, if◌then◌else◌, any, Result, ok, err,
}
use Prim.Native.Char.{code}
use Prim.Native.String.{◌∷◌}

-- `key IN (…)`.
abbrev pub listed : String → List String → Bool
listed key [] = false
listed key (x ∷ xs) = x == key || listed key xs

-- `WHERE`.
abbrev pub where_true {ℓ} : {A : Type ℓ} → (A → Bool) → List A → List A
where_true p [] = []
where_true p (x ∷ xs) = let rest = where_true p xs in if p x then x ∷ rest else rest

-- The rows whose key is the given one.
abbrev pub with_key {ℓ} : {A : Type ℓ} → (A → String) → String → List A → List A
with_key key k rows = where_true (λ r. key r == k) rows

-- `SELECT DISTINCT`, and the keys of a `GROUP BY`.
unfoldable pub distinct : List String → List String
distinct [] = []
distinct (x ∷ xs) = let rest = distinct xs in if listed x xs then rest else x ∷ rest

-- The keys of a `GROUP BY` of several columns.
unfoldable pub distinct_by {ℓ} : {A : Type ℓ} → (A → A → Bool) → List A → List A
distinct_by same [] = []
distinct_by same (x ∷ xs) =
    let rest = distinct_by same xs in if any (same x) xs then rest else x ∷ rest

-- `COALESCE(a, b)`; `IFNULL(a, b)` is `or_value`.
abbrev pub coalesce {ℓ} : {A : Type ℓ} → Option A → Option A → Option A
coalesce none b = b
coalesce (some a) b = some a

abbrev pub or_value {ℓ} : {A : Type ℓ} → Option A → A → A
or_value none b = b
or_value (some a) b = a

abbrev pub is_not_null {ℓ} : {A : Type ℓ} → Option A → Bool
is_not_null none = false
is_not_null (some a) = true

-- `a = b` on texts.
abbrev pub equal : Option String → Option String → Bool
equal (some a) (some b) = a == b
equal _ _ = false

-- `MIN` and `MAX` over a group that has a row.
abbrev pub least : ℕ → List ℕ → ℕ
least n [] = n
least n (m ∷ ms) = least (min n m) ms

abbrev pub greatest : ℕ → List ℕ → ℕ
greatest n [] = n
greatest n (m ∷ ms) = greatest (max n m) ms

-- Texts are ordered by their code points.
unfoldable pub text_before : String → String → Bool
text_before s String.[] = false
text_before String.[] (d ∷ t) = true
text_before (c ∷ s) (d ∷ t) = ltb (code c) (code d) || (eqb (code c) (code d) && text_before s t)

unfoldable pub insert_text : String → List String → List String
insert_text x [] = x ∷ []
insert_text x (y ∷ ys) = if text_before y x then y ∷ insert_text x ys else x ∷ y ∷ ys

-- `ORDER BY` a text.
unfoldable pub sorted : List String → List String
unfolding insert_text
sorted [] = []
sorted (x ∷ xs) = insert_text x (sorted xs)

-- The rows whose `ROW_NUMBER() OVER (PARTITION BY key ORDER BY …)` is 1; rows that tie may be
-- numbered in any order, here in that of the table.
unfoldable pub challenge {ℓ} : {A : Type ℓ} → (A → String) → (A → A → Bool) → A → List A → List A
challenge key before r [] = r ∷ []
challenge key before r (w ∷ ws) =
    if key w == key r then (if before w r then w else r) ∷ ws else w ∷ challenge key before r ws

unfoldable pub first_ranked {ℓ} : {A : Type ℓ} → (A → String) → (A → A → Bool) → List A → List A
unfolding challenge
first_ranked key before [] = []
first_ranked key before (r ∷ rows) = challenge key before r (first_ranked key before rows)

-- `MERGE … WHEN NOT MATCHED THEN INSERT`.
unfoldable pub merge_missing {ℓ κ} :
    {S : Type ℓ} {T : Type κ} → (S → T → Bool) → (S → T) → List S → List T → List T
merge_missing matches insert source target =
    target ++ map insert (where_true (λ s. not (any (matches s) target)) source)

-- `MERGE … WHEN MATCHED THEN UPDATE … WHEN NOT MATCHED THEN INSERT`. BigQuery fails where a row of
-- the target matches more than one row of the source.
unfoldable pub update_row {ℓ κ} :
    {S : Type ℓ} {T : Type κ} → (S → T → Bool) → (S → T → T) → List S → T → Result T
update_row matches update source t = elim (where_true (λ s. matches s t) source) [
  | [] ↦ ok t
  | s ∷ more ↦ elim more [ [] ↦ ok (update s t) | _ ∷ _ ↦ err ]
]

unfoldable pub update_rows {ℓ κ} :
    {S : Type ℓ} {T : Type κ} → (S → T → Bool) → (S → T → T) → List S → List T → Result (List T)
unfolding update_row
update_rows matches update source [] = ok []
update_rows matches update source (t ∷ ts) = elim (update_row matches update source t) [
  | err ↦ err
  | ok t' ↦ elim (update_rows matches update source ts) [ err ↦ err | ok ts' ↦ ok (t' ∷ ts') ]
]

unfoldable pub merge {ℓ κ} :
    {S : Type ℓ} {T : Type κ}
    → (S → T → Bool)
    → (S → T → T)
    → (S → T)
    → List S
    → List T
    → Result (List T)
unfolding update_rows
merge matches update insert source target = elim (update_rows matches update source target) [
  | err ↦ err
  | ok updated ↦ ok (updated ++ map insert (where_true (λ s. not (any (matches s) target)) source))
]

-- The rows of an INSERT; `none` is a row with NULL in a column that is NOT NULL, on which BigQuery
-- fails.
unfoldable pub insert_rows {ℓ κ} :
    {S : Type ℓ} {T : Type κ} → (S → Option T) → List S → Result (List T)
insert_rows insert [] = ok []
insert_rows insert (s ∷ source) = elim (insert s) [
  | none ↦ err
  | some t ↦ elim (insert_rows insert source) [ err ↦ err | ok ts ↦ ok (t ∷ ts) ]
]

-- `MERGE … WHEN NOT MATCHED THEN INSERT` into such columns.
unfoldable pub merge_required {ℓ κ} :
    {S : Type ℓ} {T : Type κ} → (S → T → Bool) → (S → Option T) → List S → List T → Result (List T)
unfolding insert_rows
merge_required matches insert source target =
    elim (insert_rows insert (where_true (λ s. not (any (matches s) target)) source)) [
      | err ↦ err
      | ok ts ↦ ok (target ++ ts)
    ]
