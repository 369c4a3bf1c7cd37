-- ===== src/Analytics/Redis.antt =====
-- The Redis client as the analytics service uses it, over an abstract server, and the sequencing of
-- awaited calls.
use escld.Prelude.{
  ◌⊎◌, ℕ, ◌+◌, ltb, String, ◌≡◌, ◌≢◌, Bool, true, List, [], ◌∷◌, Result, ok, err, if◌then◌else◌,
}

pub data Command : Type 0 where
  zincrby : (key : String) → (by : ℕ) → (member : String) → Command
  expire : (key : String) → (seconds : ℕ) → Command
  sadd : (key member : String) → Command
  del : (key : String) → Command
  hset : (key : String) → (pairs : List (String × String)) → Command
  zremrangebyrank : (key : String) → (start stop : ℕ) → Command
  spop : (key : String) → (count : ℕ) → Command

abbrev pub key_of : Command → String
key_of (zincrby k b m) = k
key_of (expire k n) = k
key_of (sadd k m) = k
key_of (del k) = k
key_of (hset k ps) = k
key_of (zremrangebyrank k a b) = k
key_of (spop k n) = k

-- The server: what a round trip does before its command (time, other clients, a lost connection),
-- what a command does, and what the queries answer. `rejects` says whether the client rejects the
-- promise of a pipeline whose connection was lost, or resolves it with the errors as results, which
-- the service does not read.
pub record Redis (S : Type 0) : Type 0 where
  pub connect : S → Result S
  pub apply : Command → S → S
  pub is_member : (key member : String) → S → Bool
  pub exists : (key : String) → S → Bool
  -- The key is there, and stays for so many seconds if no command changes it.
  pub outlives : (key : String) → (seconds : ℕ) → S → Bool
  -- So many seconds pass.
  pub wait : (seconds : ℕ) → S → S
  pub zcard : (key : String) → S → ℕ
  pub scard : (key : String) → S → ℕ
  pub rejects : Bool

-- What the Redis documentation says of these commands: a member that was added is there, and
-- stays when others are added; a hash that was written exists, and a write leaves the time to live
-- of one that existed; a key with a time to live stays for less than that, and no longer; a key is
-- changed by no command on another key.
pub record RedisLaws {S : Type 0} (redis : Redis S) : Type 0 where
  pub is_member-sadd :
      (key member : String) (s : S)
      → redis.is_member key member (redis.apply (sadd key member) s) ≡ true
  pub is_member-sadd_keep :
      (key other member : String) (s : S)
      → redis.is_member key member s ≡ true
      → redis.is_member key member (redis.apply (sadd key other) s) ≡ true
  pub exists-hset :
      (key : String) (pairs : List (String × String)) (s : S)
      → redis.exists key (redis.apply (hset key pairs) s) ≡ true
  pub exists-outlives :
      (key : String) (seconds : ℕ) (s : S)
      → redis.outlives key seconds s ≡ true
      → redis.exists key s ≡ true
  pub outlives-expire :
      (key : String) (seconds left : ℕ) (s : S)
      → redis.exists key s ≡ true
      → redis.outlives key left (redis.apply (expire key seconds) s) ≡ ltb left seconds
  pub outlives-wait :
      (key : String) (seconds left : ℕ) (s : S)
      → redis.outlives key left (redis.wait seconds s) ≡ redis.outlives key (seconds + left) s
  pub outlives-hset :
      (key : String) (pairs : List (String × String)) (left : ℕ) (s : S)
      → redis.outlives key left s ≡ true
      → redis.outlives key left (redis.apply (hset key pairs) s) ≡ true
  pub is_member-frame :
      (c : Command) (key member : String) (s : S)
      → key_of c ≢ key
      → redis.is_member key member (redis.apply c s) ≡ redis.is_member key member s
  pub outlives-frame :
      (c : Command) (key : String) (left : ℕ) (s : S)
      → key_of c ≢ key
      → redis.outlives key left (redis.apply c s) ≡ redis.outlives key left s

-- A server on which every round trip succeeds and which nobody else uses meanwhile.
abbrev pub IsQuiet : {S : Type 0} → Redis S → Type 0
IsQuiet {S} redis = (s : S) → redis.connect s ≡ ok s

-- A server that nobody else uses meanwhile; a round trip may fail, before its commands are run.
abbrev pub IsSteady : {S : Type 0} → Redis S → Type 0
IsSteady {S} redis = (s : S) → (redis.connect s ≡ ok s) ⊎ (redis.connect s ≡ err)

-- An async function: it throws or returns, and leaves a server.
abbrev pub Exec : Type 0 → Type 0 → Type 0
Exec S A = S → Result A × S

abbrev pub after : {S A B : Type 0} → Result A × S → (A → Exec S B) → Result B × S
after (ok a, s) f = f a s
after (err, s) f = (err, s)

infixl 5 ◌>>=◌ ◌>>◌
abbrev pub ◌>>=◌ : {S A B : Type 0} → Exec S A → (A → Exec S B) → Exec S B
◌>>=◌ m f s = after (m s) f

abbrev pub ◌>>◌ : {S B : Type 0} → Exec S (Unit {0}) → Exec S B → Exec S B
◌>>◌ m k = m >>= λ _. k

abbrev pub pure : {S A : Type 0} → A → Exec S A
pure a s = (ok a, s)

-- `promise.catch(…)` with a handler that only logs.
abbrev pub swallow : {S : Type 0} → Result (Unit {0}) × S → Result (Unit {0}) × S
swallow (r, s) = (ok tt, s)

abbrev pub apply_all : {S : Type 0} → Redis S → List Command → S → S
apply_all redis [] s = s
apply_all redis (c ∷ cs) s = apply_all redis cs (redis.apply c s)

module _ {S : Type 0} (redis : Redis S) where
  abbrev pub sent : Result (Unit {0}) → List Command → Result S → S → Result (Unit {0}) × S
  sent lost cs (ok s) before = (ok tt, apply_all redis cs s)
  sent lost cs err before = (lost, before)

  -- One command that is awaited on its own.
  unfoldable pub send : Command → Exec S (Unit {0})
  send c s = sent err (c ∷ []) (redis.connect s) s

  -- `pipeline.exec()`: one round trip.
  unfoldable pub exec : List Command → Exec S (Unit {0})
  exec cs s = sent (if redis.rejects then err else ok tt) cs (redis.connect s) s

  abbrev pub answered : {A : Type 0} → (S → A) → Result S → S → Result A × S
  answered query (ok s) before = (ok (query s), s)
  answered query err before = (err, before)

  -- A query, in a round trip of its own.
  unfoldable pub ask : {A : Type 0} → (S → A) → Exec S A
  ask query s = answered query (redis.connect s) s
