-- ===== src/Analytics/Processor/Messages.antt =====
-- What stays true of the server through a whole message of analytics/src/processor.ts.
use escld.Prelude.{
  ℕ, String, refl, inl, inr, Bool, true, false, not, ◌||◌, Option, none, some, List, [], ◌∷◌,
  Bool-cases, Option-cases,
}
use escld.Js.Json.{Json, Engine, prop}
use escld.Analytics.Envelope.{Kind, is_domain_envelope, trending_contribution}
use escld.Analytics.Redis.{
  Command, key_of, sadd, hset, expire, Redis, Exec, IsSteady, swallow, exec,
}
use escld.Analytics.Stores.{receipt_key, receipt_ttl_seconds, claim_script, try_claim}
use escld.Analytics.Processor.{
  suppress_posts, suppress_user, clear_features, apply_deletion, deleted_user, owned_posts, listed,
  is_suppressed, apply_if, claim_and_apply, contribute, process_event, process_message,
}
use escld.Analytics.Processor.Payload.{
  text_of, payload_of, actor_of, event_type_of, post_id_of, event_id_of, entity_key_of,
  deletion_events,
}
use escld.Analytics.Processor.Keeps.{
  Keeps, Keeps-bind, pure-Keeps, if-Keeps, ask-Keeps, exec-Keeps, send-Keeps, apply_event-Keeps,
}
use escld.Analytics.Processor.Keeps.Derived.{IsDerived, IsDerived-features}

-- What a predicate needs to outlast every message: the writes to derived keys, to the suppression
-- sets and to receipts leave it alone.
pub record Lasts {S : Type 0} (redis : Redis S) (P : S → Type 0) : Type 0 where
  pub derived : (c : Command) (s : S) → IsDerived (key_of c) → P s → P (redis.apply c s)
  pub users : (user : String) (s : S) → P s → P (redis.apply (sadd "suppression:users" user) s)
  pub posts : (post : String) (s : S) → P s → P (redis.apply (sadd "suppression:posts" post) s)
  pub receipts :
      (id : String) (pairs : List (String × String)) (s : S)
      → P s
      → P (redis.apply (hset (receipt_key id) pairs) s)
  pub receipt_times :
      (id : String) (s : S) → P s → P (redis.apply (expire (receipt_key id) receipt_ttl_seconds) s)

pub swallow-Keeps :
    {S : Type 0} {P : S → Type 0} {m : Exec S (Unit {0})} → Keeps P m → Keeps P (λ s. swallow (m s))
swallow-Keeps hm = record { at = λ s p. hm.at s p }

pub is_suppressed-Keeps :
    {S : Type 0} (redis : Redis S) (engine : Engine) (P : S → Type 0)
    → IsSteady redis
    → (actor post_id : Option String) → Keeps P (is_suppressed redis engine actor post_id)
unfolding is_suppressed
is_suppressed-Keeps {S} redis engine P steady actor post_id =
    Keeps-bind (listed-Keeps "suppression:users" actor) (λ user.
      Keeps-bind (listed-Keeps "suppression:posts" post_id) (λ post. pure-Keeps (user || post)))
  where
    listed-Keeps :
        (key : String) (member : Option String) → Keeps P (listed redis engine key member)
    listed-Keeps key none = pure-Keeps false
    listed-Keeps key (some member) = ask-Keeps redis steady (redis.is_member key member)

module _ {S : Type 0} (redis : Redis S) (engine : Engine) (P : S → Type 0) (steady : IsSteady redis)
    (lasts : Lasts redis P) where
  pub suppress_posts-Keeps : (ids : List String) → Keeps P (suppress_posts redis engine ids)
  suppress_posts-Keeps [] = record { at = λ s p. p }
  suppress_posts-Keeps (id ∷ ids) =
      Keeps-bind
        (swallow-Keeps (send-Keeps redis steady (sadd "suppression:posts" id) (lasts.posts id)))
        (λ _. suppress_posts-Keeps ids)

  pub clear-Keeps :
      (user : String) → Keeps P (λ s. swallow (exec redis (clear_features redis engine user) s))
  clear-Keeps user = swallow-Keeps (
      exec-Keeps redis steady P lasts.derived (clear_features redis engine user) (
        IsDerived-features user "features:author:pos:" refl,
        (
          IsDerived-features user "features:author:neg:" refl,
          (
            IsDerived-features user "features:topic:pos:" refl,
            (
              IsDerived-features user "features:topic:neg:" refl,
              (IsDerived-features user "features:seen:" refl, tt),
            ),
          ),
        ),
      ))

  suppress_user-Keeps : (user : Option String) → Keeps P (suppress_user redis engine user)
  suppress_user-Keeps none = pure-Keeps tt
  suppress_user-Keeps (some user) =
      Keeps-bind (send-Keeps redis steady (sadd "suppression:users" user) (lasts.users user))
        (λ _. clear-Keeps user)

  try_claim-Keeps : (id key now : String) → Keeps P (try_claim redis engine id key now)
  unfolding try_claim claim_script
  try_claim-Keeps id key now = record { at = at_claim }
    where
      at_claim : (s : S) → P s → P (try_claim redis engine id key now s).1
      at_claim s p = elim (steady s) [
        | inl up ↦ rw up (elim (Bool-cases (redis.exists (receipt_key id) s)) [
          | inl old ↦ rw old p
          | inr new ↦ rw new (lasts.receipt_times id _ (lasts.receipts id _ s p))
        ])
        | inr down ↦ rw down p
      ]

  claim_and_apply-Keeps :
      (kind : Option Kind) (weight : ℕ) (key : Option String) (now : String) (v : Json)
      → Keeps P (claim_and_apply redis engine kind weight key now v)
  claim_and_apply-Keeps none weight key now v = pure-Keeps tt
  claim_and_apply-Keeps (some kind) weight none now v = pure-Keeps tt
  claim_and_apply-Keeps (some kind) weight (some key) now v =
      Keeps-bind (try_claim-Keeps (event_id_of v) key now) apply_if-Keeps
    where
      apply_if-Keeps : (won : Bool) → Keeps P (apply_if redis engine won v weight)
      apply_if-Keeps true = apply_event-Keeps redis steady P lasts.derived engine v weight
      apply_if-Keeps false = pure-Keeps tt

  process_event-Keeps : (now : String) (v : Json) → Keeps P (process_event redis engine now v)
  unfolding process_event contribute apply_deletion
  process_event-Keeps now v =
      if-Keeps (deletion_events (event_type_of v))
        (Keeps-bind
          (suppress_user-Keeps (
            deleted_user redis engine (text_of (prop "userId" (payload_of v))) (actor_of engine v)))
          (λ _.
            suppress_posts-Keeps (owned_posts redis engine (prop "ownedPostIds" (payload_of v)))))
        (Keeps-bind (is_suppressed-Keeps redis engine P steady (actor_of engine v) (post_id_of v))
          (λ suppressed. if-Keeps suppressed (pure-Keeps tt) (
            let c = trending_contribution (event_type_of v) in
            claim_and_apply-Keeps c.kind c.weight (entity_key_of (event_type_of v) (post_id_of v))
              now v)))

  pub process_message-Keeps : (now raw : String) → Keeps P (process_message redis engine now raw)
  unfolding process_message
  process_message-Keeps now raw = elim (Option-cases (engine.json_parse raw)) [
    | inl bad ↦ rw (bad, process_message) (pure-Keeps tt)
    | inr (v, good) ↦
        rw (good, process_message)
          (if-Keeps (not (is_domain_envelope engine v)) (pure-Keeps tt) (process_event-Keeps now v))
  ]
