-- ===== src/Analytics/Processor/Keeps.antt =====
-- What stays true of the server through the steps of analytics/src/processor.ts: predicates that
-- commands on the keys of trending and features leave alone.
pub mod Derived
use escld.Prelude.{
  ℕ, min, String, refl, inl, inr, Bool, true, false, Option, none, some, List, [], ◌∷◌, ◌==◌, ltb,
  eqb, if◌then◌else◌, Option-cases, take, All, All-append, Result, ok, err,
}
use Prim.Native.String.{◌++◌ as append_text}
use escld.Js.Int.{ℤ}
use escld.Js.Json.{Json, str, Engine, prop, as_string, ◌or_else◌}
use escld.Analytics.Redis.{
  Command, key_of, Redis, Exec, IsSteady, ◌>>=◌, after, pure, apply_all, send, exec, ask,
}
use escld.Analytics.Stores.{
  author_pos, topic_pos, to_bucket, record_trending, trim, record_positive, record_hide,
  record_seen,
}
use escld.Analytics.Processor.{
  materialize, materialize_features, lift, apply_event, seen_if, record_tags, record_post,
}
use escld.Analytics.Processor.Payload.{
  event_type_of, payload_of, post_id_of, string_items, actor_of, time_or_zero, visited_tags,
  text_of, feature_author,
}
use escld.Analytics.Processor.Keeps.Derived.{
  IsDerived, IsDerived-features, bucket_key-IsDerived, count_author-IsDerived,
  count_topics-IsDerived,
}

-- A step keeps a predicate of the server, whether it returns or throws.
pub record Keeps {S A : Type 0} (P : S → Type 0) (m : Exec S A) : Type 0 where
  pub at : (s : S) → P s → P (m s).1

pub pure-Keeps : {S A : Type 0} {P : S → Type 0} (a : A) → Keeps {S = S} P (pure a)
pure-Keeps a = record { at = λ s p. p }

pub if-Keeps :
    {S A : Type 0} {P : S → Type 0} (b : Bool) {m n : Exec S A}
    → Keeps P m
    → Keeps P n
    → Keeps P (if b then m else n)
if-Keeps true hm hn = hm
if-Keeps false hm hn = hn

pub Keeps-bind :
    {S A B : Type 0} {P : S → Type 0} {m : Exec S A} {f : A → Exec S B}
    → Keeps P m
    → ((a : A) → Keeps P (f a))
    → Keeps P (m >>= f)
Keeps-bind {S} {A} {B} {P} {m} {f} hm hf = record { at = λ s p. go (m s) (hm.at s p) }
  where
    go : (q : Result A × S) → P q.1 → P (after q f).1
    go (ok a, s') p' = (hf a).at s' p'
    go (err, s') p' = p'

pub ask-Keeps :
    {S A : Type 0} (redis : Redis S)
    → IsSteady redis
    → {P : S → Type 0} (query : S → A) → Keeps P (ask redis query)
unfolding ask
ask-Keeps {S} redis steady {P} query = record { at = at_ask }
  where
    at_ask : (s : S) → P s → P (ask redis query s).1
    at_ask s p = elim (steady s) [ inl up ↦ rw up p | inr down ↦ rw down p ]

pub send-Keeps :
    {S : Type 0} (redis : Redis S)
    → IsSteady redis
    → {P : S → Type 0} (c : Command) → ((s : S) → P s → P (redis.apply c s))
    → Keeps P (send redis c)
unfolding send
send-Keeps {S} redis steady {P} c step = record { at = at_exec }
  where
    at_exec : (s : S) → P s → P (send redis c s).1
    at_exec s p = elim (steady s) [ inl up ↦ rw up (step s p) | inr down ↦ rw down p ]

module _ {S : Type 0} (redis : Redis S) (steady : IsSteady redis) (P : S → Type 0)
    (frame : (c : Command) (s : S) → IsDerived (key_of c) → P s → P (redis.apply c s)) where
  apply_all-keeps :
      (cs : List Command) (s : S)
      → All (λ c. IsDerived (key_of c)) cs
      → P s
      → P (apply_all redis cs s)
  apply_all-keeps [] s h p = p
  apply_all-keeps (c ∷ cs) s (k, h) p = apply_all-keeps cs (redis.apply c s) h (frame c s k p)

  pub exec-Keeps :
      (cs : List Command) → All (λ c. IsDerived (key_of c)) cs → Keeps P (exec redis cs)
  unfolding exec
  exec-Keeps cs h = record { at = at_exec }
    where
      at_exec : (s : S) → P s → P (exec redis cs s).1
      at_exec s p = elim (steady s) [
        | inl up ↦ rw up (apply_all-keeps cs s h p)
        | inr down ↦ rw down p
      ]

  module _ (engine : Engine) where
    pub record_trending-Keeps :
        (entity_type id : String) (weight : ℕ) (time : ℤ)
        → Keeps P (record_trending redis engine entity_type id weight time)
    unfolding record_trending
    record_trending-Keeps entity_type id weight time =
        let h = bucket_key-IsDerived entity_type (to_bucket time) in
        if-Keeps (eqb weight 0) (pure-Keeps tt) (exec-Keeps _ (h, (h, tt)))

    trim-Keeps : (key : String) → IsDerived key → Keeps P (trim redis engine key)
    unfolding trim
    trim-Keeps key h = Keeps-bind (ask-Keeps redis steady _) (λ size.
        if-Keeps (ltb 100 size) (send-Keeps redis steady _ (λ s. frame _ s h)) (pure-Keeps tt))

    author_pos-IsDerived : (viewer : String) → IsDerived (author_pos viewer)
    author_pos-IsDerived viewer = IsDerived-features viewer "features:author:pos:" refl

    topic_pos-IsDerived : (viewer : String) → IsDerived (topic_pos viewer)
    topic_pos-IsDerived viewer = IsDerived-features viewer "features:topic:pos:" refl

    record_positive-Keeps :
        (viewer : String) (author : Option String) (topics : List String) (weight : ℕ)
        → Keeps P (record_positive redis engine viewer author topics weight)
    unfolding record_positive
    record_positive-Keeps viewer author topics weight =
        if-Keeps (eqb (min 5 weight) 0) (pure-Keeps tt) (
          Keeps-bind
            (exec-Keeps _ (
              All-append (λ c. IsDerived (key_of c)) _ _
                (count_author-IsDerived _ _ author (author_pos-IsDerived viewer))
                (count_topics-IsDerived engine _ _ (take 10 topics) (topic_pos-IsDerived viewer))))
            (λ _.
              Keeps-bind (trim-Keeps _ (author_pos-IsDerived viewer))
                (λ _. trim-Keeps _ (topic_pos-IsDerived viewer))))

    record_hide-Keeps :
        (viewer : String) (author : Option String) (topics : List String)
        → Keeps P (record_hide redis engine viewer author topics)
    unfolding record_hide
    record_hide-Keeps viewer author topics = exec-Keeps _ (
        All-append (λ c. IsDerived (key_of c)) _ _
          (count_author-IsDerived _ _ author
            (IsDerived-features viewer "features:author:neg:" refl))
          (count_topics-IsDerived engine _ _ (take 10 topics)
            (IsDerived-features viewer "features:topic:neg:" refl)))

    record_seen-Keeps :
        (viewer post_id : String) → Keeps P (record_seen redis engine viewer post_id)
    unfolding record_seen
    record_seen-Keeps viewer post_id =
        let h = IsDerived-features viewer "features:seen:" refl in
        Keeps-bind (exec-Keeps _ (h, (h, tt))) (λ _. Keeps-bind (ask-Keeps redis steady _) (λ size.
          if-Keeps (ltb 2000 size) (send-Keeps redis steady _ (λ s. frame _ s h)) (pure-Keeps tt)))

    seen_if-Keeps :
        (viewer : String) (post_id : Option String) → Keeps P (seen_if redis engine viewer post_id)
    seen_if-Keeps viewer none = pure-Keeps tt
    seen_if-Keeps viewer (some post_id) = record_seen-Keeps viewer post_id

    materialize-Keeps : (viewer : String) (v : Json) → Keeps P (materialize redis engine viewer v)
    unfolding materialize
    materialize-Keeps viewer v =
        let tags = string_items (prop "tags" (payload_of v)) in
        let author = feature_author v in
        if-Keeps (event_type_of v == "post.impression") (seen_if-Keeps viewer (post_id_of v)) (
          if-Keeps (event_type_of v == "post.liked") (record_positive-Keeps viewer author tags 2) (
            if-Keeps (event_type_of v == "post.commented")
              (record_positive-Keeps viewer author tags 3)
              (if-Keeps (event_type_of v == "user.followed")
                (record_positive-Keeps viewer author [] 4)
                (if-Keeps (event_type_of v == "post.hidden") (record_hide-Keeps viewer author tags)
                  (pure-Keeps tt)))))

    materialize_features-Keeps : (v : Json) → Keeps P (materialize_features redis engine v)
    unfolding materialize_features
    materialize_features-Keeps v = elim (Option-cases (actor_of engine v)) [
      | inl absent ↦ rw (absent, materialize_features) (pure-Keeps tt)
      | inr (viewer, present) ↦ rw (present, materialize_features) (materialize-Keeps viewer v)
    ]

    record_tags-Keeps :
        (tags : List Json) (weight : ℕ) (time : ℤ)
        → Keeps P (record_tags redis engine tags weight time)
    unfolding record_tags
    record_tags-Keeps [] weight time = pure-Keeps tt
    record_tags-Keeps (str tag ∷ tags) weight time =
        if-Keeps (tag == "") (record_tags-Keeps tags weight time) (
          Keeps-bind (record_trending-Keeps "hashtags" _ weight time)
            (λ _. record_tags-Keeps tags weight time))
    record_tags-Keeps (_ ∷ tags) weight time = record_tags-Keeps tags weight time

    record_post-Keeps :
        (post_id : Option String) (weight : ℕ) (time : ℤ)
        → Keeps P (record_post redis engine post_id weight time)
    record_post-Keeps none weight time = pure-Keeps tt
    record_post-Keeps (some post_id) weight time = record_trending-Keeps "posts" post_id weight time

    lift-Keeps : {A : Type 0} (r : Result A) → Keeps P (lift redis engine r)
    lift-Keeps r = record { at = λ s p. p }

    pub apply_event-Keeps : (v : Json) (weight : ℕ) → Keeps P (apply_event redis engine v weight)
    unfolding apply_event
    apply_event-Keeps v weight =
        let time = time_or_zero (engine.date_parse (as_string (prop "occurredAt" v))) in
        Keeps-bind
          (if-Keeps (event_type_of v == "post.created")
            (lift-Keeps (visited_tags engine (prop "tags" (payload_of v)))) (pure-Keeps []))
          (λ tags. Keeps-bind (record_tags-Keeps tags weight time) (λ _.
            Keeps-bind
              (record_post-Keeps (text_of (prop "postId" (payload_of v) or_else prop "entityId" v))
                weight time)
              (λ _. materialize_features-Keeps v)))
