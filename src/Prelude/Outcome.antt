-- ===== src/Prelude/Outcome.antt =====
-- The outcome of an operation that may throw; what is thrown is only logged.
use mathlib.Core.Path.{◌≡◌, refl}
use mathlib.Core.Logic.{◌⊎◌, inl, inr}

pub data Result {ℓ} (A : Type ℓ) : Type ℓ where
  ok : A → Result A
  err : Result A

pub Result-cases {ℓ} : {A : Type ℓ} (r : Result A) → ((a : A) × (r ≡ ok a)) ⊎ (r ≡ err)
Result-cases (ok a) = inl (a, refl)
Result-cases err = inr refl
