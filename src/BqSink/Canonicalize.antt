-- ===== src/BqSink/Canonicalize.antt =====
-- The loop of canonical merges: `canonicalize` of bq-sink/src/index.ts. It is split at its await: a
-- request comes in, and a merge that is under way ends.
use escld.Prelude.{
  ℕ, zero, suc, ◌+◌, ◌≤◌, ◌<◌, max, ◌≡◌, refl, sym, ap, subst, ◌⊎◌, inl, inr, Option, none, some,
  List, [], ◌∷◌, arith, Option-cases, Result, ok, err,
}

-- `under_way` is the look-back of the merge that the loop awaits, and none where no loop runs.
pub record Merges : Type 0 where
  pub pending_lookback_days : ℕ
  pub under_way : Option ℕ
  pub succeeded : ℕ
  pub failed : ℕ

-- The head of the `while`: the next merge starts, or the loop ends.
unfoldable pub next_merge : Merges → Merges
next_merge m = elim m.pending_lookback_days [
  | zero ↦ record m { under_way = none }
  | suc n ↦ record m { pending_lookback_days = 0; under_way = some (suc n) }
]

abbrev pub start_unless : Option ℕ → Merges → Merges
start_unless none m = next_merge m
start_unless (some days) m = m

unfoldable pub request : ℕ → Merges → Merges
unfolding next_merge
request days m =
    start_unless m.under_way (record m { pending_lookback_days = max m.pending_lookback_days days })

unfoldable pub merge_ends : Result (Unit {0}) → Merges → Merges
unfolding next_merge
merge_ends (ok u) m = next_merge (record m { succeeded = m.succeeded + 1 })
merge_ends err m = next_merge (record m { failed = m.failed + 1 })

-- Requests that come in one after the other.
abbrev pub requests : List ℕ → Merges → Merges
requests [] m = m
requests (days ∷ more) m = requests more (request days m)

-- A merge of at least so many days is under way.
abbrev pub Covers : ℕ → Merges → Type 0
Covers days m = (n : ℕ) × (m.under_way ≡ some n) × (days ≤ n)

next_merge-Covers :
    (days : ℕ) (m : Merges) → 0 < days → days ≤ m.pending_lookback_days → Covers days (next_merge m)
unfolding next_merge
next_merge-Covers days m p h = go m.pending_lookback_days refl h
  where
    go : (n : ℕ) → m.pending_lookback_days ≡ n → days ≤ n → Covers days (next_merge m)
    go zero e k = absurd (omega (arith, k, p))
    go (suc n) e k = (suc n, rw (e, next_merge) refl, k)

abbrev asked : ℕ → Merges → Merges
asked days m = record m { pending_lookback_days = max m.pending_lookback_days days }

request-busy :
    (running days : ℕ) (m : Merges) → m.under_way ≡ some running → request days m ≡ asked days m
unfolding request
request-busy running days m e = ap (λ o. start_unless o (asked days m)) e

request-idle :
    (days : ℕ) (m : Merges) → m.under_way ≡ none → request days m ≡ next_merge (asked days m)
unfolding request
request-idle days m e = ap (λ o. start_unless o (asked days m)) e

requests-pending :
    (running : ℕ) (between : List ℕ) (m : Merges)
    → m.under_way ≡ some running
    → m.pending_lookback_days ≤ (requests between m).pending_lookback_days
requests-pending running [] m e = omega arith
requests-pending running (days ∷ more) m e =
    subst (λ q. m.pending_lookback_days ≤ (requests more q).pending_lookback_days)
      (sym (request-busy running days m e))
      (omega (arith, requests-pending running more (asked days m) e))

merge_ends-pending :
    (days : ℕ) (answer : Result (Unit {0})) (m : Merges)
    → 0 < days
    → days ≤ m.pending_lookback_days
    → Covers days (merge_ends answer m)
unfolding merge_ends
merge_ends-pending days (ok u) m p h =
    next_merge-Covers days (record m { succeeded = m.succeeded + 1 }) p h
merge_ends-pending days err m p h = next_merge-Covers days (record m { failed = m.failed + 1 }) p h

-- No request is lost. Where no merge is under way, a request starts one of at least its days; where one
-- is, the next one that starts has at least its days, whatever else is requested until then and
-- however the first one ends.
pub request-Covers :
    (days : ℕ) (between : List ℕ) (answer : Result (Unit {0})) (m : Merges)
    → 0 < days
    → ((m.under_way ≡ none) × Covers days (request days m))
      ⊎ Covers days (merge_ends answer (requests between (request days m)))
request-Covers days between answer m p = elim (Option-cases m.under_way) [
  | inl idle ↦ inl (
    idle,
    subst (Covers days) (sym (request-idle days m idle))
        (next_merge-Covers days (asked days m) p (omega arith)),
  )
  | inr (running, busy) ↦ inr (
      subst (λ q. Covers days (merge_ends answer (requests between q)))
        (sym (request-busy running days m busy))
        (merge_ends-pending days answer (requests between (asked days m)) p
          (omega (arith, requests-pending running between (asked days m) busy))))
]
