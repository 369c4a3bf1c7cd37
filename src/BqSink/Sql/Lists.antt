-- ===== src/BqSink/Sql/Lists.antt =====
-- What the set operations of SQL keep of their rows: bq-sink/src/canonicalizer.ts.
use escld.Prelude.{
  String, ◌≡◌, refl, sym, ◌∙◌, inl, inr, Bool, true, false, ◌&&◌, ◌||◌, List, [], ◌∷◌, ◌++◌, map,
  arith, eq_iff, ltb, lt→ltb, Bool-cases, length,
}
use escld.BqSink.Sql.{listed, where_true, distinct}

-- No key stands twice.
abbrev pub Unique : List String → Type 0
Unique [] = Unit
Unique (x ∷ xs) = (listed x xs ≡ false) × Unique xs

-- All keys are one.
abbrev pub AllSame : List String → Type 0
AllSame xs = (x y : String) → listed x xs ≡ true → listed y xs ≡ true → x ≡ y

pub listed-append :
    (k : String) (xs ys : List String) → listed k (xs ++ ys) ≡ (listed k xs || listed k ys)
listed-append k [] ys = refl
listed-append k (x ∷ xs) ys = ground (arith, listed-append k xs ys)

pub listed-distinct : (k : String) (xs : List String) → listed k (distinct xs) ≡ listed k xs
unfolding distinct
listed-distinct k [] = refl
listed-distinct k (x ∷ xs) = ground (arith, listed-distinct k xs, eq_iff x k)

pub distinct-Unique : (xs : List String) → Unique (distinct xs)
unfolding distinct
distinct-Unique [] = tt
distinct-Unique (x ∷ xs) = elim (Bool-cases (listed x xs)) [
  | inl old ↦ rw old (distinct-Unique xs)
  | inr new ↦ rw new (listed-distinct x xs ∙ new, distinct-Unique xs)
]

short-AllSame : (xs : List String) → ltb 1 (length xs) ≡ false → AllSame xs
short-AllSame [] h x y p q = cc
short-AllSame (z ∷ []) h x y p q = ground (arith, eq_iff z x, eq_iff z y)
short-AllSame (z ∷ w ∷ xs) h x y p q = ground (arith, lt→ltb 1 (length (z ∷ w ∷ xs)) (omega arith))

AllSame-short : (xs : List String) → Unique xs → AllSame xs → ltb 1 (length xs) ≡ false
AllSame-short [] u h = refl
AllSame-short (z ∷ []) u h = refl
AllSame-short (z ∷ w ∷ xs) (new, u) h =
    ground (arith, h z w, eq_iff z z, eq_iff w w, eq_iff w z, eq_iff z w)

-- A group has at most one distinct value exactly where all its values are the same.
pub distinct-AllSame : (xs : List String) → ltb 1 (length (distinct xs)) ≡ false → AllSame xs
distinct-AllSame xs h x y p q =
    short-AllSame (distinct xs) h x y (listed-distinct x xs ∙ p) (listed-distinct y xs ∙ q)

pub AllSame-distinct : (xs : List String) → AllSame xs → ltb 1 (length (distinct xs)) ≡ false
AllSame-distinct xs h =
    AllSame-short (distinct xs) (distinct-Unique xs)
      λ x y p q. h x y (sym (listed-distinct x xs) ∙ p) (sym (listed-distinct y xs) ∙ q)

module _ {ℓ} {A : Type ℓ} (key : A → String) where
  -- The keys that a filter on keys leaves.
  pub listed-where_true :
      (q : String → Bool) (k : String) (rows : List A)
      → listed k (map key (where_true (λ r. q (key r)) rows)) ≡ (q k && listed k (map key rows))
  listed-where_true q k [] = ground arith
  listed-where_true q k (r ∷ rows) = ground (arith, listed-where_true q k rows, eq_iff (key r) k)

  pub listed_of_where_true :
      (p : A → Bool) (k : String) (rows : List A)
      → listed k (map key (where_true p rows)) ≡ true
      → listed k (map key rows) ≡ true
  listed_of_where_true p k [] h = h
  listed_of_where_true p k (r ∷ rows) h =
      ground (arith, listed_of_where_true p k rows, eq_iff (key r) k)

  pub Unique-where_true :
      (p : A → Bool) (rows : List A) → Unique (map key rows) → Unique (map key (where_true p rows))
  Unique-where_true p [] u = tt
  Unique-where_true p (r ∷ rows) (new, u) = elim (Bool-cases (p r)) [
    | inl e ↦ rw e (
      elim (Bool-cases (listed (key r) (map key (where_true p rows)))) [
        | inl old ↦ cc (listed_of_where_true p (key r) rows old)
        | inr new' ↦ new'
      ],
      Unique-where_true p rows u,
    )
    | inr e ↦ rw e (Unique-where_true p rows u)
  ]

pub Unique-append :
    (xs ys : List String)
    → Unique xs
    → Unique ys
    → ((k : String) → listed k xs ≡ true → listed k ys ≡ false)
    → Unique (xs ++ ys)
Unique-append [] ys u v apart = v
Unique-append (x ∷ xs) ys (new, u) v apart = (
  ground (arith, listed-append x xs ys, apart x, eq_iff x x),
  Unique-append xs ys u v λ k h. apart k (ground (arith, h)),
)

pub map-where_true {ℓ κ} :
    {A : Type ℓ} {B : Type κ} (f : A → B) (p : B → Bool) (xs : List A)
    → map f (where_true (λ x. p (f x)) xs) ≡ where_true p (map f xs)
map-where_true f p [] = refl
map-where_true f p (x ∷ xs) = ground (arith, map-where_true f p xs)

-- The keys of rows that are made for keys, and filtered.
pub listed-made {ℓ} :
    {A : Type ℓ} (key : A → String) (make : String → A) (p : A → Bool)
    → ((k : String) → key (make k) ≡ k)
    → (k : String) (ks : List String)
    → listed k (map key (where_true p (map make ks))) ≡ (listed k ks && p (make k))
listed-made key make p made k [] = refl
listed-made key make p made k (j ∷ ks) =
    ground (arith, listed-made key make p made k ks, made j, eq_iff j k, eq_iff (key (make j)) k)
