-- ===== src/Analytics/Processor/Guarantees.antt =====
-- What one delivery to analytics/src/processor.ts does for all the later ones.
use escld.Prelude.{
  ℕ, ◌+◌, ◌*◌, ◌<◌, arith, String, ◌≡◌, refl, sym, ◌∙◌, subst, ◌≢◌, ◌⊎◌, inl, inr, true, false,
  some, List, Bool-cases, All, ok,
}
use escld.Js.Json.{Json, Engine, prop}
use escld.Analytics.Envelope.{is_domain_envelope}
use escld.Analytics.Redis.{sadd, Redis, RedisLaws, send}
use escld.Analytics.Processor.{
  apply_deletion, deleted_user, owned_posts, process_event, process_message,
}
use escld.Analytics.Processor.Payload.{
  text_of, payload_of, actor_of, event_type_of, event_id_of, deletion_events,
}
use escld.Analytics.Stores.{receipt_key}
use escld.Analytics.Processor.Keeps.{Keeps-bind}
use escld.Analytics.Processor.Messages.{suppress_posts-Keeps, clear-Keeps}
use escld.Analytics.Processor.Deliveries.{
  Delivery, on, SteadyAt, deliver, deliver_all, deliver_all-lasts, on-Lasts, on-laws, HasReceipt,
  deliver_after, elapsed, deliver_after-HasReceipt, IsSuppressed, IsSuppressed-Lasts,
}
use escld.Analytics.Processor.Effects.{
  suppressed-same_server, receipt-same_server, process_event-claims, process_event-unweighted,
}

-- The delivery carries the event `v`, and it is no deletion.
pub record Carries {S : Type 0} (engine : Engine) (d : Delivery S) (v : Json) : Type 0 where
  pub parses : engine.json_parse d.raw ≡ some v
  pub no_deletion : deletion_events (event_type_of v) ≡ false

module _ {S : Type 0} (redis : Redis S) (engine : Engine) where
  -- A delivery does what its event does, or nothing.
  deliver-event :
      (d : Delivery S) (v : Json) (s : S)
      → engine.json_parse d.raw ≡ some v
      → (deliver redis engine d s ≡ s)
        ⊎ (deliver redis engine d s ≡ (process_event (on redis d) engine d.now v s).1)
  unfolding deliver process_message
  deliver-event d v s parses =
      rw (parses, deliver, process_message)
        elim (Bool-cases (is_domain_envelope engine v)) [
          | inl valid ↦ rw valid (inr refl)
          | inr invalid ↦ rw invalid (inl refl)
        ]

  -- An event that is not one of the three that count towards trending, and no deletion, leaves the
  -- server as it was, where every round trip fails or succeeds without another's change.
  pub deliver-unweighted :
      (d : Delivery S) (v : Json) (s : S)
      → SteadyAt redis d
      → Carries engine d v
      → event_type_of v ≢ "post.created"
      → event_type_of v ≢ "post.liked"
      → event_type_of v ≢ "post.commented"
      → deliver redis engine d s ≡ s
  deliver-unweighted d v s steady carries created liked commented =
      elim (deliver-event d v s carries.parses) [
        | inl same ↦ same
        | inr as_event ↦
            as_event
            ∙ process_event-unweighted (on redis d) engine steady d.now v s carries.no_deletion
                created liked commented
      ]

  module _ (laws : RedisLaws redis) where
    -- An event is applied at most once within eight days, under every pattern of failures: a delivery
    -- changes nothing, or else a later delivery with the same event id changes nothing, even where the
    -- first broke off half-way and whatever was delivered between the two, if the pauses between the
    -- deliveries are together less than eight days. Neither delivery is a deletion, no time passes
    -- during a delivery, and no other client writes to the server.
    pub deliver-at_most_once :
        (d again : Delivery S) (between : List (ℕ × Delivery S)) (pause : ℕ) (v w : Json) (s : S)
        → SteadyAt redis d
        → SteadyAt redis again
        → All (λ p. SteadyAt redis p.1) between
        → elapsed between + pause < 8 * 24 * 60 * 60
        → Carries engine d v
        → Carries engine again w
        → event_id_of w ≡ event_id_of v
        → let s' =
            redis.wait pause (deliver_after redis engine between (deliver redis engine d s)) in
          (deliver redis engine d s ≡ s) ⊎ (deliver redis engine again s' ≡ s')
    deliver-at_most_once d again between pause v w s steady steady' others short carries carries'
          same_id =
        elim (deliver-event d v s carries.parses) [
          | inl same ↦ inl same
          | inr as_event ↦
              elim (process_event-claims (on redis d) (on-laws d laws) engine steady d.now v s
                (elapsed between + pause) short carries.no_deletion) [
                  | inl same ↦ inl (as_event ∙ same)
                  | inr receipt ↦ inr (
                      later (
                        subst (HasReceipt redis (event_id_of v) (elapsed between + pause))
                          (sym as_event) receipt))
                ]
        ]
      where
        later :
            HasReceipt redis (event_id_of v) (elapsed between + pause) (deliver redis engine d s)
            → let s' =
                redis.wait pause (deliver_after redis engine between (deliver redis engine d s)) in
              deliver redis engine again s' ≡ s'
        later receipt =
            let before = deliver_after redis engine between (deliver redis engine d s) in
            let s' = redis.wait pause before in
            let key = receipt_key (event_id_of v) in
            let held : HasReceipt redis (event_id_of v) pause before =
              deliver_after-HasReceipt redis laws engine (event_id_of v) between pause
                (deliver redis engine d s) others short receipt in
            let there : redis.exists key s' ≡ true = laws.exists-outlives key 0 s' (
              laws.outlives-wait key pause 0 before
              ∙ subst (λ n. redis.outlives key n before ≡ true) (omega arith) held) in
            elim (deliver-event again w s' carries'.parses) [
              | inl same ↦ same
              | inr as_event ↦
                  as_event
                  ∙ receipt-same_server (on redis again) engine steady' again.now w s'
                      carries'.no_deletion
                      (subst (λ id. redis.exists (receipt_key id) s' ≡ true) (sym same_id) there)
            ]

    -- The end of a deletion, after the user was put into the suppression set.
    deletion-suppresses :
        (d : Delivery S) (v : Json) (user : String) (s : S)
        → SteadyAt redis d
        → d.connect s ≡ ok s
        → deleted_user
            (on redis d)
            engine
            (text_of (prop "userId" (payload_of v)))
            (actor_of engine v)
          ≡ some user
        → IsSuppressed redis "suppression:users" user (apply_deletion (on redis d) engine v s).1
    unfolding apply_deletion send
    deletion-suppresses d v user s steady up names =
        let P = IsSuppressed redis "suppression:users" user in
        let lasts = on-Lasts d (IsSuppressed-Lasts redis laws user) in
        rw (names, up)
          ((Keeps-bind (clear-Keeps (on redis d) engine P steady lasts user) (λ _.
              suppress_posts-Keeps (on redis d) engine P steady lasts
                (owned_posts (on redis d) engine (prop "ownedPostIds" (payload_of v))))).at
            (redis.apply (sadd "suppression:users" user) s)
            (laws.is_member-sadd "suppression:users" user s))

    -- The delivery of a valid deletion event suppresses its user, where it reaches the server.
    deliver-suppresses :
        (d : Delivery S) (v : Json) (user : String) (s : S)
        → SteadyAt redis d
        → d.connect s ≡ ok s
        → engine.json_parse d.raw ≡ some v
        → is_domain_envelope engine v ≡ true
        → deletion_events (event_type_of v) ≡ true
        → deleted_user
            (on redis d)
            engine
            (text_of (prop "userId" (payload_of v)))
            (actor_of engine v)
          ≡ some user
        → IsSuppressed redis "suppression:users" user (deliver redis engine d s)
    unfolding process_event deliver process_message
    deliver-suppresses d v user s steady up parses valid deletes names =
        rw (parses, deliver, process_message, valid, deletes)
          (deletion-suppresses d v user s steady up names)

    -- Once a valid deletion event for a user was delivered to a reachable server, no later event of
    -- that user changes the server, whatever was delivered between the two and whichever round trips failed
    -- then; no other client writes to the server.
    pub deliver-erases :
        (d later : Delivery S) (between : List (Delivery S)) (v w : Json) (user : String) (s : S)
        → SteadyAt redis d
        → SteadyAt redis later
        → All (SteadyAt redis) between
        → d.connect s ≡ ok s
        → engine.json_parse d.raw ≡ some v
        → is_domain_envelope engine v ≡ true
        → deletion_events (event_type_of v) ≡ true
        → deleted_user
            (on redis d)
            engine
            (text_of (prop "userId" (payload_of v)))
            (actor_of engine v)
          ≡ some user
        → Carries engine later w
        → actor_of engine w ≡ some user
        → deliver redis engine later (deliver_all redis engine between (deliver redis engine d s))
          ≡ deliver_all redis engine between (deliver redis engine d s)
    deliver-erases d later between v w user s steady steady' others up parses valid deletes names
          carries actor =
        let s' = deliver_all redis engine between (deliver redis engine d s) in
        elim (deliver-event later w s' carries.parses) [
          | inl same ↦ same
          | inr as_event ↦
              as_event
              ∙ suppressed-same_server (on redis later) engine steady' later.now w user s'
                  carries.no_deletion actor
                  (deliver_all-lasts redis engine (IsSuppressed redis "suppression:users" user)
                    (IsSuppressed-Lasts redis laws user) between (deliver redis engine d s) others
                    (deliver-suppresses d v user s steady up parses valid deletes names))
        ]
