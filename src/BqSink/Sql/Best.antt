-- ===== src/BqSink/Sql/Best.antt =====
-- A row of rank one comes first by its ORDER BY: bq-sink/src/canonicalizer.ts.
use escld.Prelude.{
  ℕ, max, String, ◌≡◌, refl, inl, inr, Bool, List, [], ◌∷◌, arith, ◌==◌, eq_iff, ltb, if◌then◌else◌,
  Bool-cases, All,
}
use escld.BqSink.Sql.{challenge, first_ranked}

module _ {ℓ} {A : Type ℓ} (key : A → String) (rank : A → ℕ) where
  -- The greatest rank of the rows of a key.
  abbrev pub best : String → List A → ℕ
  best k [] = 0
  best k (r ∷ rows) = if key r == k then max (rank r) (best k rows) else best k rows

  -- ORDER BY the rank, downwards.
  abbrev pub outranks : A → A → Bool
  outranks a b = ltb (rank b) (rank a)

  best-challenge :
      (k : String) (r : A) (ws : List A)
      → best k (challenge key outranks r ws)
        ≡ (if key r == k then max (rank r) (best k ws) else best k ws)
  unfolding challenge
  best-challenge k r [] = refl
  best-challenge k r (w ∷ ws) = elim (Bool-cases (key w == key r)) [
    | inl e ↦ elim (Bool-cases (ltb (rank r) (rank w))) [
      | inl f ↦ rw (e, f) (ground (arith, eq_iff (key w) (key r), e, f))
      | inr f ↦ rw (e, f) (ground (arith, eq_iff (key w) (key r), e, f))
    ]
    | inr e ↦ rw e (
        ground (
          arith,
          best-challenge k r ws,
          eq_iff (key w) (key r),
          eq_iff (key w) k,
          eq_iff (key r) k,
        ))
  ]

  pub best-first_ranked :
      (k : String) (rows : List A) → best k (first_ranked key outranks rows) ≡ best k rows
  unfolding first_ranked
  best-first_ranked k [] = refl
  best-first_ranked k (r ∷ rows) =
      rw (best-challenge k r (first_ranked key outranks rows), best-first_ranked k rows) refl

module _ {ℓ κ} {A : Type ℓ} (P : A → Type κ) (key : A → String) (before : A → A → Bool) where
  All-challenge : (r : A) (ws : List A) → P r → All P ws → All P (challenge key before r ws)
  unfolding challenge
  All-challenge r [] p h = (p, tt)
  All-challenge r (w ∷ ws) p (q, h) = elim (Bool-cases (key w == key r)) [
    | inl e ↦ elim (Bool-cases (before w r)) [ inl f ↦ rw (e, f) (q, h) | inr f ↦ rw (e, f) (p, h) ]
    | inr e ↦ rw e (q, All-challenge r ws p h)
  ]

  pub All-first_ranked : (rows : List A) → All P rows → All P (first_ranked key before rows)
  unfolding first_ranked
  All-first_ranked [] h = tt
  All-first_ranked (r ∷ rows) (p, h) =
      All-challenge r (first_ranked key before rows) p (All-first_ranked rows h)
