-- ===== src/BqSink/Sql/Held.antt =====
-- Which values the rows of a key hold: bq-sink/src/canonicalizer.ts.
use escld.Prelude.{
  String, ◌≡◌, refl, inl, inr, Bool, true, false, ◌&&◌, ◌||◌, List, [], ◌∷◌, ◌++◌, map, arith, ◌==◌,
  eq_iff, Bool-cases,
}
use escld.BqSink.Sql.{listed, where_true, with_key}

module _ {ℓ} {A : Type ℓ} (key : A → String) where
  -- Whether a row of the key holds the value.
  pub held : (A → String) → String → String → List A → Bool
  held value v k rows = listed v (map value (with_key key k rows))

  pub held-nil : (value : A → String) (v k : String) → held value v k [] ≡ false
  unfolding held
  held-nil value v k = refl

  pub held-cons :
      (value : A → String) (v k : String) (r : A) (rows : List A)
      → held value v k (r ∷ rows) ≡ ((key r == k && value r == v) || held value v k rows)
  unfolding held
  held-cons value v k r rows = ground arith

  pub held-append :
      (value : A → String) (v k : String) (xs ys : List A)
      → held value v k (xs ++ ys) ≡ (held value v k xs || held value v k ys)
  held-append value v k [] ys = ground (arith, held-nil value v k)
  held-append value v k (x ∷ xs) ys = ground (
    arith,
    held-append value v k xs ys,
    held-cons value v k x xs,
    held-cons value v k x (xs ++ ys),
  )

  pub held-where_true :
      (value : A → String) (v k : String) (q : String → Bool) (rows : List A)
      → held value v k (where_true (λ r. q (key r)) rows) ≡ (q k && held value v k rows)
  held-where_true value v k q [] = ground (arith, held-nil value v k)
  held-where_true value v k q (r ∷ rows) = elim (Bool-cases (q (key r))) [
    | inl e ↦ rw e (
        ground (
          arith,
          held-where_true value v k q rows,
          held-cons value v k r rows,
          held-cons value v k r (where_true (λ x. q (key x)) rows),
          eq_iff (key r) k,
        ))
    | inr e ↦ rw e (
        ground
          (arith, held-where_true value v k q rows, held-cons value v k r rows, eq_iff (key r) k))
  ]

  pub held_of_where_true :
      (value : A → String) (v k : String) (p : A → Bool) (rows : List A)
      → held value v k (where_true p rows) ≡ true
      → held value v k rows ≡ true
  held_of_where_true value v k p [] h = h
  held_of_where_true value v k p (r ∷ rows) h = elim (Bool-cases (p r)) [
    | inl e ↦ ground (
      arith,
      held_of_where_true value v k p rows,
      held-cons value v k r rows,
      held-cons value v k r (where_true p rows),
    )
    | inr e ↦ ground (arith, held_of_where_true value v k p rows, held-cons value v k r rows)
  ]

  pub listed_of_held :
      (value : A → String) (v k : String) (rows : List A)
      → held value v k rows ≡ true
      → listed k (map key rows) ≡ true
  listed_of_held value v k [] h = ground (arith, held-nil value v k)
  listed_of_held value v k (r ∷ rows) h =
      ground (arith, listed_of_held value v k rows, held-cons value v k r rows)

  -- A value that no row holds is in no group, and the others are.
  pub held-values :
      (value : A → String) (v k : String) (rows : List A)
      → held value v k rows ≡ listed v (map value (with_key key k rows))
  unfolding held
  held-values value v k rows = refl
