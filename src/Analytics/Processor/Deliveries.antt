-- ===== src/Analytics/Processor/Deliveries.antt =====
-- What a later delivery to analytics/src/processor.ts finds: receipts and suppressions outlast every
-- message, and stop it.
use escld.Prelude.{
  ℕ, ◌+◌, ◌<◌, lt→ltb, subst, String, ◌≡◌, sym, ap, ◌∙◌, ◌≢◌, inl, inr, true, false, List, [], ◌∷◌,
  arith, ◌==◌, eq_iff, Bool-cases, All, Result,
}
use escld.Js.Json.{Engine}
use escld.Analytics.Redis.{key_of, sadd, hset, expire, Redis, RedisLaws, IsSteady}
use escld.Analytics.Stores.{receipt_key, receipt_ttl_seconds}
use escld.Analytics.Processor.{process_message}
use escld.Js.Text.Cuts.{first, first-append}
use escld.Analytics.Processor.Keeps.Derived.{IsDerived}
use escld.Analytics.Processor.Messages.{Lasts, process_message-Keeps}

-- One delivery of a message: the connection and the clock it meets.
pub record Delivery (S : Type 0) : Type 0 where
  pub connect : S → Result S
  pub now : String
  pub raw : String

abbrev pub on : {S : Type 0} → Redis S → Delivery S → Redis S
on redis d = record redis { connect = d.connect }

abbrev pub SteadyAt : {S : Type 0} → Redis S → Delivery S → Type 0
SteadyAt redis d = IsSteady (on redis d)

-- The same requirements, of the server under any connection.
pub on-Lasts :
    {S : Type 0} {redis : Redis S} {P : S → Type 0} (d : Delivery S)
    → Lasts redis P
    → Lasts (on redis d) P
on-Lasts d lasts = record {
  derived = lasts.derived;
  users = lasts.users;
  posts = lasts.posts;
  receipts = lasts.receipts;
  receipt_times = lasts.receipt_times;
}

module _ {S : Type 0} (redis : Redis S) (engine : Engine) where
  unfoldable pub deliver : Delivery S → S → S
  deliver d s = (process_message (on redis d) engine d.now d.raw s).1

  unfoldable pub deliver_all : List (Delivery S) → S → S
  deliver_all [] s = s
  deliver_all (d ∷ ds) s = deliver_all ds (deliver d s)

  -- The deliveries, each after a pause.
  unfoldable pub deliver_after : List (ℕ × Delivery S) → S → S
  deliver_after [] s = s
  deliver_after ((pause, d) ∷ ds) s = deliver_after ds (deliver d (redis.wait pause s))

  module _ (P : S → Type 0) (lasts : Lasts redis P) where
    pub deliver-lasts : (d : Delivery S) (s : S) → SteadyAt redis d → P s → P (deliver d s)
    unfolding deliver
    deliver-lasts d s steady p =
        (process_message-Keeps (on redis d) engine P steady (on-Lasts d lasts) d.now d.raw).at s p

    pub deliver_all-lasts :
        (ds : List (Delivery S)) (s : S) → All (SteadyAt redis) ds → P s → P (deliver_all ds s)
    unfolding deliver_all
    deliver_all-lasts [] s steady p = p
    deliver_all-lasts (d ∷ ds) s (here, rest) p =
        deliver_all-lasts ds (deliver d s) rest (deliver-lasts d s here p)

-- The length of all pauses.
abbrev pub elapsed : {S : Type 0} → List (ℕ × Delivery S) → ℕ
elapsed [] = 0
elapsed ((pause, d) ∷ ds) = pause + elapsed ds

apart : (a b : String) → first a ≢ first b → a ≢ b
apart a b h e = h (ap first e)

receipt_key-first : (id : String) → first (receipt_key id) ≡ b'r'
receipt_key-first id = first-append "receipt:v1:" id (omega arith)

derived-apart :
    (key other : String) → IsDerived key → first other ≢ b't' → first other ≢ b'f' → key ≢ other
derived-apart key other h nt nf e = elim h [
  | inl t ↦ nt (sym (ap first e) ∙ t)
  | inr f ↦ nf (sym (ap first e) ∙ f)
]

pub on-laws :
    {S : Type 0} {redis : Redis S} (d : Delivery S) → RedisLaws redis → RedisLaws (on redis d)
on-laws d laws = record {
  is_member-sadd = laws.is_member-sadd;
  is_member-sadd_keep = laws.is_member-sadd_keep;
  exists-hset = laws.exists-hset;
  exists-outlives = laws.exists-outlives;
  outlives-expire = laws.outlives-expire;
  outlives-wait = laws.outlives-wait;
  outlives-hset = laws.outlives-hset;
  is_member-frame = laws.is_member-frame;
  outlives-frame = laws.outlives-frame;
}

-- The event has a receipt, for so many seconds more.
abbrev pub HasReceipt : {S : Type 0} → Redis S → String → (left : ℕ) → S → Type 0
HasReceipt redis id left s = redis.outlives (receipt_key id) left s ≡ true

-- The member is in a suppression set.
abbrev pub IsSuppressed : {S : Type 0} → Redis S → String → String → S → Type 0
IsSuppressed redis set member s = redis.is_member set member s ≡ true

module _ {S : Type 0} (redis : Redis S) (laws : RedisLaws redis) where
  pub HasReceipt-Lasts :
      (id : String) (left : ℕ) → left < receipt_ttl_seconds → Lasts redis (HasReceipt redis id left)
  HasReceipt-Lasts id left short = record {
    derived = λ c s d p.
        laws.outlives-frame c (receipt_key id) left s (
          derived-apart (key_of c) (receipt_key id) d (omega (arith, receipt_key-first id))
            (omega (arith, receipt_key-first id)))
        ∙ p;
    users = λ user s p.
        laws.outlives-frame (sadd "suppression:users" user) (receipt_key id) left s
          (apart "suppression:users" (receipt_key id) (omega (arith, receipt_key-first id)))
        ∙ p;
    posts = λ post s p.
        laws.outlives-frame (sadd "suppression:posts" post) (receipt_key id) left s
          (apart "suppression:posts" (receipt_key id) (omega (arith, receipt_key-first id)))
        ∙ p;
    receipts = λ other pairs s p. elim (Bool-cases (receipt_key other == receipt_key id)) [
      | inl same ↦
          rw ((eq_iff (receipt_key other) (receipt_key id)).0 same)
            (laws.outlives-hset (receipt_key id) pairs left s p)
      | inr different ↦
          laws.outlives-frame (hset (receipt_key other) pairs) (receipt_key id) left s
            (λ e. unequal (receipt_key other) (receipt_key id) different e)
          ∙ p
    ];
    receipt_times = λ other s p. elim (Bool-cases (receipt_key other == receipt_key id)) [
      | inl same ↦ rw ((eq_iff (receipt_key other) (receipt_key id)).0 same) (
          laws.outlives-expire (receipt_key id) receipt_ttl_seconds left s
            (laws.exists-outlives (receipt_key id) left s p)
          ∙ lt→ltb left receipt_ttl_seconds short)
      | inr different ↦
          laws.outlives-frame (expire (receipt_key other) receipt_ttl_seconds) (receipt_key id) left
            s (λ e. unequal (receipt_key other) (receipt_key id) different e)
          ∙ p
    ];
  }
    where
      unequal : (a b : String) → (a == b) ≡ false → a ≢ b
      unequal a b h e = ground (arith, eq_iff a b)

  -- A receipt outlasts deliveries as long as it outlives the pauses between them.
  pub deliver_after-HasReceipt :
      (engine : Engine) (id : String) (between : List (ℕ × Delivery S)) (left : ℕ) (s : S)
      → All (λ p. SteadyAt redis p.1) between
      → elapsed between + left < receipt_ttl_seconds
      → HasReceipt redis id (elapsed between + left) s
      → HasReceipt redis id left (deliver_after redis engine between s)
  unfolding deliver_after
  deliver_after-HasReceipt engine id [] left s steady short receipt =
      subst (λ n. HasReceipt redis id n s) (omega arith) receipt
  deliver_after-HasReceipt engine id ((pause, d) ∷ ds) left s (here, rest) short receipt =
      deliver_after-HasReceipt engine id ds left (deliver redis engine d (redis.wait pause s)) rest
        (omega (arith, short))
        (deliver-lasts redis engine (HasReceipt redis id (elapsed ds + left))
          (HasReceipt-Lasts id (elapsed ds + left) (omega (arith, short))) d (redis.wait pause s)
          here
          (laws.outlives-wait (receipt_key id) pause (elapsed ds + left) s
            ∙ subst (λ n. redis.outlives (receipt_key id) n s ≡ true) (omega arith) receipt))

  pub IsSuppressed-Lasts :
      (user : String) → Lasts redis (IsSuppressed redis "suppression:users" user)
  IsSuppressed-Lasts user = record {
    derived = λ c s d p.
        laws.is_member-frame c "suppression:users" user s
          (derived-apart (key_of c) "suppression:users" d (omega arith) (omega arith))
        ∙ p;
    users = λ other s p. laws.is_member-sadd_keep "suppression:users" other user s p;
    posts = λ post s p.
        laws.is_member-frame (sadd "suppression:posts" post) "suppression:users" user s
          (λ e. absurd (ground (arith, eq_iff "suppression:posts" "suppression:users")))
        ∙ p;
    receipts = λ id pairs s p.
        laws.is_member-frame (hset (receipt_key id) pairs) "suppression:users" user s
          (apart (receipt_key id) "suppression:users" (omega (arith, receipt_key-first id)))
        ∙ p;
    receipt_times = λ id s p.
        laws.is_member-frame (expire (receipt_key id) receipt_ttl_seconds) "suppression:users" user
          s (apart (receipt_key id) "suppression:users" (omega (arith, receipt_key-first id)))
        ∙ p;
  }
