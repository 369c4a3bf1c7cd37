-- ===== src/Analytics/Processor/Effects.antt =====
-- What later deliveries to analytics/src/processor.ts can change: nothing for an event that has its
-- receipt, nothing on behalf of a deleted user.
use escld.Prelude.{
  ℕ, ◌<◌, lt→ltb, ◌∙◌, String, ◌≡◌, refl, ap, ◌≢◌, ◌⊎◌, inl, inr, Bool, true, false, Option, none,
  some, ◌==◌, eq_iff, Bool-cases, Result, ok, err,
}
use escld.Js.Json.{Json, Engine}
use escld.Analytics.Envelope.{Kind, trending_contribution}
use escld.Analytics.Redis.{Redis, RedisLaws, IsSteady, ask}
use escld.Analytics.Stores.{receipt_key, receipt_ttl_seconds, claim_script, try_claim}
use escld.Analytics.Processor.{is_suppressed, claim_and_apply, contribute, process_event}
use escld.Analytics.Processor.Payload.{
  actor_of, event_type_of, post_id_of, event_id_of, entity_key_of, deletion_events,
}
use escld.Analytics.Processor.Keeps.{apply_event-Keeps}
use escld.Analytics.Processor.Messages.{is_suppressed-Keeps}
use escld.Analytics.Processor.Deliveries.{HasReceipt, HasReceipt-Lasts}

module _ {S : Type 0} (redis : Redis S) (engine : Engine) (steady : IsSteady redis) where
  suppressed-same :
      (actor post_id : Option String) (s : S) → (is_suppressed redis engine actor post_id s).1 ≡ s
  suppressed-same actor post_id s =
      (is_suppressed-Keeps redis engine (λ x. x ≡ s) steady actor post_id).at s refl

  -- The check either throws or answers, and leaves the server.
  check-cases :
      (actor post_id : Option String) (s : S)
      → (is_suppressed redis engine actor post_id s ≡ (err, s))
        ⊎ ((b : Bool) × (is_suppressed redis engine actor post_id s ≡ (ok b, s)))
  check-cases actor post_id s =
      go (is_suppressed redis engine actor post_id s) (suppressed-same actor post_id s)
    where
      go : (q : Result Bool × S) → q.1 ≡ s → (q ≡ (err, s)) ⊎ ((b : Bool) × (q ≡ (ok b, s)))
      go (err, s') e = inl (ap (λ x. (err, x)) e)
      go (ok b, s') e = inr (b, ap (λ x. (ok b, x)) e)

  listed_user :
      (user : String) (post_id : Option String) (s : S)
      → redis.is_member "suppression:users" user s ≡ true
      → (is_suppressed redis engine (some user) post_id s ≡ (err, s))
        ⊎ (is_suppressed redis engine (some user) post_id s ≡ (ok true, s))
  unfolding is_suppressed ask
  listed_user user none s member = elim (steady s) [
    | inl up ↦ inr (rw (up, member) refl)
    | inr down ↦ inl (rw down refl)
  ]
  listed_user user (some post_id) s member = elim (steady s) [
    | inl up ↦ inr (rw (up, member, up) refl)
    | inr down ↦ inl (rw down refl)
  ]

  -- A suppressed actor's event changes nothing.
  pub suppressed-same_server :
      (now : String) (v : Json) (user : String) (s : S)
      → deletion_events (event_type_of v) ≡ false
      → actor_of engine v ≡ some user
      → redis.is_member "suppression:users" user s ≡ true
      → (process_event redis engine now v s).1 ≡ s
  unfolding process_event
  suppressed-same_server now v user s kept actor member =
      rw (kept, actor)
        elim (listed_user user (post_id_of v) s member) [
          | inl threw ↦ rw threw refl
          | inr stopped ↦ rw stopped refl
        ]

  -- An event that has its receipt changes nothing.
  claim_and_apply-same :
      (kind : Option Kind) (weight : ℕ) (key : Option String) (now : String) (v : Json) (s : S)
      → redis.exists (receipt_key (event_id_of v)) s ≡ true
      → (claim_and_apply redis engine kind weight key now v s).1 ≡ s
  unfolding try_claim claim_script
  claim_and_apply-same none weight key now v s receipt = refl
  claim_and_apply-same (some kind) weight none now v s receipt = refl
  claim_and_apply-same (some kind) weight (some key) now v s receipt = elim (steady s) [
    | inl up ↦ rw (up, receipt) refl
    | inr down ↦ rw down refl
  ]

  pub receipt-same_server :
      (now : String) (v : Json) (s : S)
      → deletion_events (event_type_of v) ≡ false
      → redis.exists (receipt_key (event_id_of v)) s ≡ true
      → (process_event redis engine now v s).1 ≡ s
  unfolding process_event contribute
  receipt-same_server now v s kept receipt =
      let c = trending_contribution (event_type_of v) in
      rw kept elim (check-cases (actor_of engine v) (post_id_of v) s) [
        | inl threw ↦ rw threw refl
        | inr (true, stopped) ↦ rw stopped refl
        | inr (false, passed) ↦ rw passed (
            claim_and_apply-same c.kind c.weight (entity_key_of (event_type_of v) (post_id_of v))
              now v s receipt)
      ]

  -- An event that has no trending weight changes nothing.
  pub process_event-unweighted :
      (now : String) (v : Json) (s : S)
      → deletion_events (event_type_of v) ≡ false
      → event_type_of v ≢ "post.created"
      → event_type_of v ≢ "post.liked"
      → event_type_of v ≢ "post.commented"
      → (process_event redis engine now v s).1 ≡ s
  unfolding process_event contribute trending_contribution
  process_event-unweighted now v s kept created liked commented =
      rw kept elim (check-cases (actor_of engine v) (post_id_of v) s) [
        | inl threw ↦ rw threw refl
        | inr (true, stopped) ↦ rw stopped refl
        | inr (false, passed) ↦
            rw
              (
                passed,
                different (event_type_of v) "post.created" created,
                different (event_type_of v) "post.liked" liked,
                different (event_type_of v) "post.commented" commented,
              )
              refl
      ]
    where
      different : (a b : String) → a ≢ b → (a == b) ≡ false
      different a b h = elim (Bool-cases (a == b)) [
        | inl same ↦ absurd (h ((eq_iff a b).0 same))
        | inr e ↦ e
      ]

module _ {S : Type 0} (redis : Redis S) (laws : RedisLaws redis) (engine : Engine)
    (steady : IsSteady redis) where
  -- An event changes nothing or leaves its receipt.
  claim_and_apply-claims :
      (kind : Option Kind) (weight : ℕ) (key : Option String) (now : String) (v : Json) (s : S)
      (left : ℕ)
      → left < receipt_ttl_seconds
      → ((claim_and_apply redis engine kind weight key now v s).1 ≡ s)
        ⊎ HasReceipt redis
            (event_id_of v)
            left
            (claim_and_apply redis engine kind weight key now v s).1
  unfolding try_claim claim_script
  claim_and_apply-claims none weight key now v s left short = inl refl
  claim_and_apply-claims (some kind) weight none now v s left short = inl refl
  claim_and_apply-claims (some kind) weight (some key) now v s left short = elim (steady s) [
    | inr down ↦ inl (rw down refl)
    | inl up ↦ elim (Bool-cases (redis.exists (receipt_key (event_id_of v)) s)) [
      | inl old ↦ inl (rw (up, old) refl)
      | inr new ↦
          let lasts = HasReceipt-Lasts redis laws (event_id_of v) left short in
          inr (
            rw (up, new)
              ((apply_event-Keeps redis steady (HasReceipt redis (event_id_of v) left) lasts.derived
                  engine v weight).at
                _
                (laws.outlives-expire (receipt_key (event_id_of v)) receipt_ttl_seconds left _
                    (laws.exists-hset _ _ s)
                  ∙ lt→ltb left receipt_ttl_seconds short)))
    ]
  ]

  pub process_event-claims :
      (now : String) (v : Json) (s : S) (left : ℕ)
      → left < receipt_ttl_seconds
      → deletion_events (event_type_of v) ≡ false
      → ((process_event redis engine now v s).1 ≡ s)
        ⊎ HasReceipt redis (event_id_of v) left (process_event redis engine now v s).1
  unfolding process_event contribute
  process_event-claims now v s left short kept =
      let c = trending_contribution (event_type_of v) in
      rw kept elim (check-cases redis engine steady (actor_of engine v) (post_id_of v) s) [
        | inl threw ↦ inl (rw threw refl)
        | inr (true, stopped) ↦ inl (rw stopped refl)
        | inr (false, passed) ↦ rw passed (
            claim_and_apply-claims c.kind c.weight (entity_key_of (event_type_of v) (post_id_of v))
              now v s left short)
      ]
