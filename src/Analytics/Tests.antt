-- ===== src/Analytics/Tests.antt =====
-- Runs of the analytics processor on a toy server that keeps the laws of Redis.
use escld.Prelude.{
  ℕ, ◌+◌, ◌*◌, String, ◌≡◌, refl, ap, and_iff, Option, ◌≢◌, ◌⊎◌, inl, inr, Bool, true, false, not,
  ◌&&◌, ◌||◌, none, some, List, [], ◌∷◌, arith, ◌==◌, eq_iff, eq_refl, ltb, if◌then◌else◌,
  Bool-cases, Result, ok, err,
}
use escld.Js.Int.{pos}
use escld.Js.Json.{Json, str, obj, end, field, Engine}
use escld.Analytics.Redis.{
  Command, key_of, zincrby, expire, sadd, del, hset, zremrangebyrank, spop, Redis, RedisLaws,
  IsSteady, ask, send, exec,
}
use escld.Analytics.Envelope.{
  is_domain_envelope, domain_common_valid, timestamp_valid, trending_contribution,
}
use escld.Js.Text.{utf16_length}
use escld.Analytics.Stores.{try_claim, claim_script, record_trending, record_positive}
use escld.Analytics.Processor.{
  process_message, is_suppressed, apply_event, apply_deletion, Incoming, Consumer, EachBatch, threw,
  handle_records,
}
use escld.Analytics.Processor.Payload.{entity_key_of, feature_author}
use escld.Analytics.Processor.Deliveries.{Delivery, on, deliver, deliver_all, deliver_after}
use escld.Analytics.Processor.Guarantees.{
  Carries, deliver-unweighted, deliver-at_most_once, deliver-erases,
}
use escld.Analytics.Processor.Offsets.{Handled, handle_records-Handled}
use escld.Analytics.Agreement.{experiment_fits, is_event_envelope-agrees}
use escld.BqSink.Envelope.{is_event_envelope}

-- Sets and hashes by key, when keys expire, what time it is, and the number of commands that were run.
record Server : Type 0 where
  sets : String → String → Bool
  hashes : String → Bool
  ends : String → Option ℕ
  time : ℕ
  commands : ℕ

abbrev is_before : ℕ → Option ℕ → Bool
is_before time none = true
is_before time (some deadline) = ltb time deadline

abbrev run : Command → Server → Server
run (sadd k m) s = record s {
  sets = λ key member. (key == k && member == m) || s.sets key member;
  commands = s.commands + 1;
}
run (del k) s = record s {
  sets = λ key member. not (key == k) && s.sets key member;
  hashes = λ key. not (key == k) && s.hashes key;
  commands = s.commands + 1;
}
run (hset k pairs) s = record s {
  hashes = λ key. key == k || s.hashes key;
  ends = λ key. if key == k && not (is_before s.time (s.ends key)) then none else s.ends key;
  commands = s.commands + 1;
}
run (spop k n) s = record s {
  sets = λ key member. not (key == k) && s.sets key member;
  commands = s.commands + 1;
}
run (zincrby k by m) s = record s { commands = s.commands + 1 }
run (expire k n) s = record s {
  ends = λ key. if key == k then some (s.time + n) else s.ends key;
  commands = s.commands + 1;
}
run (zremrangebyrank k a b) s = record s { commands = s.commands + 1 }

abbrev toy_redis : Redis Server
toy_redis = record {
  connect = λ s. ok s;
  apply = run;
  is_member = λ key member s. s.sets key member;
  exists = λ key s. s.hashes key && is_before s.time (s.ends key);
  outlives = λ key seconds s. s.hashes key && is_before (s.time + seconds) (s.ends key);
  wait = λ seconds s. record s { time = s.time + seconds };
  zcard = λ key s. 101;
  scard = λ key s. 1;
  rejects = false;
}

unequal : (a b : String) → a ≢ b → (b == a) ≡ false
unequal a b h = ground (arith, eq_iff b a)

member-frame :
    (c : Command) (key member : String) (s : Server)
    → key_of c ≢ key
    → (run c s).sets key member ≡ s.sets key member
member-frame (sadd k m) key member s h = rw (unequal k key h) refl
member-frame (del k) key member s h = rw (unequal k key h) refl
member-frame (hset k pairs) key member s h = refl
member-frame (spop k n) key member s h = rw (unequal k key h) refl
member-frame (zincrby k by m) key member s h = refl
member-frame (expire k n) key member s h = refl
member-frame (zremrangebyrank k a b) key member s h = refl

is_before-weaken :
    (time seconds : ℕ) (deadline : Option ℕ)
    → is_before (time + seconds) deadline ≡ true
    → is_before time deadline ≡ true
is_before-weaken time seconds none h = refl
is_before-weaken time seconds (some deadline) h = ground (arith, h)

outlives-frame :
    (c : Command) (key : String) (left : ℕ) (s : Server)
    → key_of c ≢ key
    → toy_redis.outlives key left (run c s) ≡ toy_redis.outlives key left s
outlives-frame (sadd k m) key left s h = refl
outlives-frame (del k) key left s h = rw (unequal k key h) refl
outlives-frame (hset k pairs) key left s h = rw (unequal k key h) refl
outlives-frame (spop k n) key left s h = refl
outlives-frame (zincrby k by m) key left s h = refl
outlives-frame (expire k n) key left s h = rw (unequal k key h) refl
outlives-frame (zremrangebyrank k a b) key left s h = refl

exists-hset :
    (key : String) (pairs : List (String × String)) (s : Server)
    → toy_redis.exists key (run (hset key pairs) s) ≡ true
exists-hset key pairs s = elim (Bool-cases (is_before s.time (s.ends key))) [
  | inl fresh ↦ rw (eq_refl key, fresh, fresh) refl
  | inr expired ↦ rw (eq_refl key, expired) refl
]

exists-outlives :
    (key : String) (seconds : ℕ) (s : Server)
    → toy_redis.outlives key seconds s ≡ true
    → toy_redis.exists key s ≡ true
exists-outlives key seconds s h =
    let (there, alive) = (and_iff (s.hashes key) _).0 h in
    (and_iff (s.hashes key) _).1 (there, is_before-weaken s.time seconds (s.ends key) alive)

outlives-expire :
    (key : String) (seconds left : ℕ) (s : Server)
    → toy_redis.exists key s ≡ true
    → toy_redis.outlives key left (run (expire key seconds) s) ≡ ltb left seconds
outlives-expire key seconds left s h =
    rw (eq_refl key, ((and_iff (s.hashes key) _).0 h).0) (ground arith)

outlives-wait :
    (key : String) (seconds left : ℕ) (s : Server)
    → toy_redis.outlives key left (toy_redis.wait seconds s)
      ≡ toy_redis.outlives key (seconds + left) s
outlives-wait key seconds left s =
    ap (λ time. s.hashes key && is_before time (s.ends key)) (omega arith)

outlives-hset :
    (key : String) (pairs : List (String × String)) (left : ℕ) (s : Server)
    → toy_redis.outlives key left s ≡ true
    → toy_redis.outlives key left (run (hset key pairs) s) ≡ true
outlives-hset key pairs left s h =
    let alive = ((and_iff (s.hashes key) _).0 h).1 in
    rw (eq_refl key, is_before-weaken s.time left (s.ends key) alive, alive) refl

toy_laws : RedisLaws toy_redis
toy_laws = record {
  is_member-sadd = λ key member s. rw (eq_refl key, eq_refl member) refl;
  is_member-sadd_keep = λ key other member s h. ground (arith, h);
  exists-hset = exists-hset;
  exists-outlives = exists-outlives;
  outlives-expire = outlives-expire;
  outlives-wait = outlives-wait;
  outlives-hset = outlives-hset;
  is_member-frame = member-frame;
  outlives-frame = outlives-frame;
}

abbrev empty_server : Server
empty_server = record {
  sets = λ key member. false;
  hashes = λ key. false;
  ends = λ key. none;
  time = 0;
  commands = 0;
}

abbrev event : String → Json
event event_type = obj (
    field "eventId" (str "e1") (
      field "eventType" (str event_type) (
        field "eventVersion" (str "1") (
          field "occurredAt" (str "2026-01-01") (
            field "actorId" (str "u1")
              (field "payload" (obj (field "postId" (str "p1") end)) end))))))

abbrev toy_engine : Engine
toy_engine = record {
  json_parse = λ s. if s == "" then none else some (event s);
  date_parse = λ s. some (pos 1);
  stringify = λ row. none;
  to_lower_case = λ s. s;
  is_positive = λ o. false;
  as_text = λ v. none;
}

-- A connection that is lost once the claim was written.
abbrev lost_after_claim : Server → Result Server
lost_after_claim s = if s.hashes "receipt:v1:e1" then err else ok s

abbrev delivery : String → Delivery Server
delivery raw = record { connect = λ s. ok s; now = "2026"; raw = raw }

abbrev broken : String → Delivery Server
broken raw = record { connect = lost_after_claim; now = "2026"; raw = raw }

delivery-IsSteady : (raw : String) → IsSteady (on toy_redis (delivery raw))
delivery-IsSteady raw s = inl refl

broken-IsSteady : (raw : String) → IsSteady (on toy_redis (broken raw))
broken-IsSteady raw s = elim (Bool-cases (s.hashes "receipt:v1:e1")) [
  | inl lost ↦ inr (rw lost refl)
  | inr up ↦ inl (rw up refl)
]

liked : Carries toy_engine (delivery "post.liked") (event "post.liked")
liked = record { parses = refl; no_deletion = refl }

broken_liked : Carries toy_engine (broken "post.liked") (event "post.liked")
broken_liked = record { parses = refl; no_deletion = refl }

hidden : Carries toy_engine (delivery "post.hidden") (event "post.hidden")
hidden = record { parses = refl; no_deletion = refl }

-- The first delivery stops after the claim's two commands.
broken_delivery_changes :
    (deliver toy_redis toy_engine (broken "post.liked") empty_server).commands ≡ 2
unfolding deliver is_domain_envelope domain_common_valid timestamp_valid utf16_length
    process_message is_suppressed ask trending_contribution entity_key_of try_claim claim_script
    apply_event record_trending exec record_positive
broken_delivery_changes = refl

whole_delivery_changes :
    (deliver toy_redis toy_engine (delivery "post.liked") empty_server).commands ≡ 6
unfolding deliver is_domain_envelope domain_common_valid timestamp_valid utf16_length
    process_message is_suppressed ask trending_contribution entity_key_of try_claim claim_script
    apply_event record_trending exec send record_positive feature_author
whole_delivery_changes = refl

-- After a hidden post a day later, the same event comes again after six days more.
abbrev a_week_later : Server
a_week_later = toy_redis.wait (6 * 24 * 60 * 60) (
    deliver_after toy_redis toy_engine ((24 * 60 * 60, delivery "post.hidden") ∷ [])
      (deliver toy_redis toy_engine (broken "post.liked") empty_server))

deliver-at_most_once_example :
    (deliver toy_redis toy_engine (broken "post.liked") empty_server ≡ empty_server)
    ⊎ (deliver toy_redis toy_engine (delivery "post.liked") a_week_later ≡ a_week_later)
deliver-at_most_once_example =
    deliver-at_most_once toy_redis toy_engine toy_laws (broken "post.liked") (delivery "post.liked")
      ((24 * 60 * 60, delivery "post.hidden") ∷ []) (6 * 24 * 60 * 60) (event "post.liked")
      (event "post.liked") empty_server (broken-IsSteady "post.liked")
      (delivery-IsSteady "post.liked") (delivery-IsSteady "post.hidden", tt) (omega arith)
      broken_liked liked refl

deliver-unweighted_example :
    deliver toy_redis toy_engine (delivery "post.hidden") empty_server ≡ empty_server
deliver-unweighted_example =
    deliver-unweighted toy_redis toy_engine (delivery "post.hidden") (event "post.hidden")
      empty_server (delivery-IsSteady "post.hidden") hidden
      (λ e. absurd (ground (arith, eq_iff "post.hidden" "post.created")))
      (λ e. absurd (ground (arith, eq_iff "post.hidden" "post.liked")))
      (λ e. absurd (ground (arith, eq_iff "post.hidden" "post.commented")))

deliver-erases_example :
    deliver toy_redis toy_engine (delivery "post.liked") (
      deliver_all toy_redis toy_engine
        (delivery "post.hidden" ∷ [])
        (deliver toy_redis toy_engine (delivery "user.deletion_requested") empty_server))
    ≡ deliver_all toy_redis toy_engine
        (delivery "post.hidden" ∷ [])
        (deliver toy_redis toy_engine (delivery "user.deletion_requested") empty_server)
unfolding is_domain_envelope domain_common_valid timestamp_valid utf16_length
deliver-erases_example =
    deliver-erases toy_redis toy_engine toy_laws (delivery "user.deletion_requested")
      (delivery "post.liked") (delivery "post.hidden" ∷ []) (event "user.deletion_requested")
      (event "post.liked") "u1" empty_server (delivery-IsSteady "user.deletion_requested")
      (delivery-IsSteady "post.liked") (delivery-IsSteady "post.hidden", tt) refl refl valid refl
      refl liked refl
  where
    valid : is_domain_envelope toy_engine (event "user.deletion_requested") ≡ true
    valid = refl

abbrev incoming : List Incoming
incoming =
    record { value = some "post.liked"; offset = "7" }
    ∷ record { value = none; offset = "8" }
    ∷ record { value = some "user.deletion_requested"; offset = "9" }
    ∷ []

abbrev consumer : Consumer Server
consumer = record { server = empty_server; effects = [] }

-- The connection is lost after the first message.
-- A Kafka that answers every call.
abbrev in_peace : EachBatch
in_peace = record { is_wanted = λ i. true; commits = true; beats = true }

abbrev failing_redis : Redis Server
failing_redis = record toy_redis { connect = λ s. if ltb 5 s.commands then err else ok s }

handle_records_run :
    (handle_records failing_redis toy_engine in_peace (λ i. "2026") 0 incoming consumer).0 ≡ threw
unfolding handle_records is_domain_envelope domain_common_valid timestamp_valid utf16_length
    process_message is_suppressed ask trending_contribution entity_key_of try_claim claim_script
    apply_event record_trending exec record_positive feature_author apply_deletion send
handle_records_run = refl

handle_records-Handled_example :
    Handled failing_redis toy_engine in_peace
      (λ i. "2026")
      0
      incoming
      consumer
      (handle_records failing_redis toy_engine in_peace (λ i. "2026") 0 incoming consumer)
handle_records-Handled_example =
    handle_records-Handled failing_redis toy_engine in_peace (λ i. "2026") 0 incoming consumer

is_event_envelope-agrees_example :
    is_event_envelope toy_engine (event "post.liked")
    ≡ (is_domain_envelope toy_engine (event "post.liked") && experiment_fits (event "post.liked"))
is_event_envelope-agrees_example = is_event_envelope-agrees toy_engine (event "post.liked")
