-- ===== src/Analytics/Processor/Keeps/Derived.antt =====
-- Which keys of analytics/src/features.ts and bucketed-trending.ts are derived data.
use escld.Prelude.{
  ℕ, String, ◌≡◌, ◌∙◌, ◌⊎◌, inl, inr, Option, none, some, List, [], ◌∷◌, arith, ◌==◌, Bool-cases,
  All,
}
use Prim.Native.String.{◌++◌ as append_text}
use escld.Js.Int.{ℤ}
use escld.Js.Text.{decimal_ℤ}
use escld.Js.Text.Cuts.{first, first-append}
use escld.Js.Json.{Engine}
use escld.Analytics.Redis.{key_of}
use escld.Analytics.Stores.{count_author, count_topics, bucket_key}

-- A key of trending or of the features.
abbrev pub IsDerived : String → Type 0
IsDerived key = (first key ≡ b't') ⊎ (first key ≡ b'f')

pub IsDerived-features :
    (rest : String) (name : String) → first name ≡ b'f' → IsDerived (append_text name rest)
IsDerived-features rest name h = inr (first-append name rest (omega arith) ∙ h)

pub bucket_key-IsDerived :
    (entity_type : String) (bucket : ℤ) → IsDerived (bucket_key entity_type bucket)
unfolding bucket_key
bucket_key-IsDerived entity_type bucket = inl (
    first-append "trending:b:" (append_text entity_type (append_text ":" (decimal_ℤ bucket)))
      (omega arith))

pub count_author-IsDerived :
    (key : String) (by : ℕ) (author : Option String)
    → IsDerived key
    → All (λ c. IsDerived (key_of c)) (count_author key by author)
count_author-IsDerived key by none h = tt
count_author-IsDerived key by (some author) h = elim (Bool-cases (author == "")) [
  | inl empty ↦ rw empty tt
  | inr full ↦ rw full (h, (h, tt))
]

pub count_topics-IsDerived :
    (engine : Engine) (key : String) (by : ℕ) (topics : List String)
    → IsDerived key
    → All (λ c. IsDerived (key_of c)) (count_topics engine key by topics)
count_topics-IsDerived engine key by [] h = tt
count_topics-IsDerived engine key by (topic ∷ topics) h =
    (h, (h, count_topics-IsDerived engine key by topics h))
