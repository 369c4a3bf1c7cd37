-- ===== src/Worker/Storage/Attempts.antt =====
-- How often `withRetry` of worker/src/storage.ts calls.
use escld.Prelude.{
  ℕ, zero, suc, ◌+◌, ◌≤◌, ◌<◌, ◌≡◌, ◌⊎◌, inl, inr, Bool, true, false, arith, Bool-cases, Result, ok,
  err,
}
use escld.Worker.Storage.{retry_from, attempts, with_retry}

-- The call with a counter, and the abort test beside it.
abbrev pub counted : {W A : Type 0} → (W → Result A × W) → W × ℕ → Result A × (W × ℕ)
counted call (w, n) = let (answer, after) = call w in (answer, (after, n + 1))

abbrev pub beside : {W : Type 0} → (W → Bool) → W × ℕ → Bool
beside aborted (w, n) = aborted w

abbrev pub is_ok : {A : Type 0} → Result A → Bool
is_ok (ok a) = true
is_ok err = false

module _ {W A : Type 0} (aborted : W → Bool) (call : W → Result A × W) where
  -- The number of calls lies within the attempts; a success has been called for, and a failure that no
  -- abort explains has used them all.
  abbrev pub Counts : ℕ → ℕ → Result A × (W × ℕ) → Type 0
  Counts left n out =
      (n ≤ out.1.1)
      × (out.1.1 ≤ n + left)
      × (is_ok out.0 ≡ true → n < out.1.1)
      × (is_ok out.0 ≡ false → (aborted out.1.0 ≡ true) ⊎ (out.1.1 ≡ n + left))

  one_more :
      (left n : ℕ) (out : Result A × (W × ℕ)) → Counts left (n + 1) out → Counts (suc left) n out
  one_more left n (answer, (w, m)) (low, high, good, bad) = (
    omega (arith, low),
    omega (arith, high),
    (λ h. omega (arith, low)),
    λ h. elim (bad h) [ inl gone ↦ inl gone | inr all_used ↦ inr (omega (arith, all_used)) ],
  )

  retry_from-Counts :
      (left n : ℕ) (w : W) → Counts left n (retry_from (beside aborted) (counted call) left (w, n))
  unfolding retry_from
  retry_from-Counts zero n w =
      (omega arith, omega arith, (λ h. ground arith), λ h. inr (omega arith))
  retry_from-Counts (suc left) n w = elim (Bool-cases (aborted w)) [
    | inl gone ↦ rw gone (omega arith, omega arith, (λ h. ground arith), λ h. inl gone)
    | inr runs ↦
        rw runs (by_call (λ after. retry_from-Counts left (n + 1) after) (call w).0 (call w).1)
  ]
    where
      by_call :
          ((after : W)
            → Counts left (n + 1) (retry_from (beside aborted) (counted call) left (after, n + 1)))
          → (answer : Result A) (after : W)
          → Counts (suc left) n (elim answer as (λ x. Result A × (W × ℕ)) [
            | ok a ↦ (ok a, (after, n + 1))
            | err ↦ retry_from (beside aborted) (counted call) left (after, n + 1)
          ])
      by_call rest (ok a) after = (omega arith, omega arith, (λ h. omega arith), λ h. ground arith)
      by_call rest err after =
          one_more left n (retry_from (beside aborted) (counted call) left (after, n + 1))
            (rest after)

  -- A call that is retried is made at most three times: at least once if it succeeds, and three times
  -- if it fails and no abort came before.
  with_retry-Counts :
      (w : W) → Counts attempts 0 (with_retry (beside aborted) (counted call) (w, 0))
  unfolding with_retry
  with_retry-Counts w = retry_from-Counts 3 0 w
