-- ===== src/FeedWorker/Service/Recipients.antt =====
-- The recipients of a post in feed-worker/src/event-handler.ts: every id that occurs is one.
use escld.Prelude.{
  String, ◌≡◌, refl, sym, ◌∙◌, ◌⊎◌, inl, inr, List, [], ◌∷◌, ◌++◌, ◌==◌, eq_iff, Bool-cases, All,
}
use escld.FeedWorker.Events.{without, unique}
use escld.FeedWorker.Fanout.Stored.{Any}

without-Any :
    (x id : String) (xs : List String)
    → Any (λ y. y ≡ id) xs
    → (x ≡ id) ⊎ Any (λ y. y ≡ id) (without x xs)
without-Any x id [] h = elim h [ ]
without-Any x id (y ∷ xs) (inl here) = elim (Bool-cases (y == x)) [
  | inl same ↦ inl (sym ((eq_iff y x).0 same) ∙ here)
  | inr other ↦ rw other (inr (inl here))
]
without-Any x id (y ∷ xs) (inr later) = elim (without-Any x id xs later) [
  | inl e ↦ inl e
  | inr left ↦ elim (Bool-cases (y == x)) [
    | inl same ↦ rw same (inr left)
    | inr other ↦ rw other (inr (inr left))
  ]
]

pub unique-Any :
    (id : String) (xs : List String) → Any (λ y. y ≡ id) xs → Any (λ y. y ≡ id) (unique xs)
unfolding unique
unique-Any id [] h = h
unique-Any id (x ∷ xs) (inl here) = inl here
unique-Any id (x ∷ xs) (inr later) = without-Any x id (unique xs) (unique-Any id xs later)

pub Any-last : (ids : List String) (id : String) → Any (λ y. y ≡ id) (ids ++ id ∷ [])
Any-last [] id = inl refl
Any-last (x ∷ ids) id = inr (Any-last ids id)

pub Any-front :
    (id : String) (ids more : List String) → Any (λ y. y ≡ id) ids → Any (λ y. y ≡ id) (ids ++ more)
Any-front id [] more h = elim h [ ]
Any-front id (x ∷ ids) more (inl here) = inl here
Any-front id (x ∷ ids) more (inr later) = inr (Any-front id ids more later)

pub All-from :
    (P : String → Type 0) (ids : List String)
    → ((id : String) → Any (λ y. y ≡ id) ids → P id)
    → All P ids
All-from P [] f = tt
All-from P (id ∷ ids) f = (f id (inl refl), All-from P ids (λ i h. f i (inr h)))
