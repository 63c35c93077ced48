-- ===== src/Throttle.antt =====
-- data-plane/internal/throttle/throttle.go: the fixed-window limiter over Redis counters.
pub mod Window
use Prim.Native.String.{◌++◌ as append_text}
use email_delivery_engine.Prelude.{
  ℕ, zero, suc, ◌/◌, ◌%◌, String, Bool, none, some, ltb, ◌==◌, if◌then◌else◌,
}
use email_delivery_engine.Prelude.Int.{ℤ, pos, leb_ℤ}
use email_delivery_engine.Backoff.{second}
use email_delivery_engine.Runtime.{Redis, ok, err, redis_error, Action}
use email_delivery_engine.Runtime.Interface.{Ops, Limiter}

-- throttle.Decision
pub record Verdict : Type 0 where
  pub allowed : Bool
  pub count : ℕ
  pub limit : ℤ

abbrev digit : ℕ → String
digit n =
    if n == 0
    then "0"
    else if n == 1
    then "1"
    else if n == 2
    then "2"
    else if n == 3
    then "3"
    else if n == 4
    then "4"
    else if n == 5
    then "5"
    else if n == 6
    then "6"
    else if n == 7
    then "7"
    else if n == 8
    then "8"
    else "9"

-- Decimal digits; n / 10 is below n, so n + 1 rounds are enough for n.
unfoldable pub itoa_within : ℕ → ℕ → String
itoa_within zero n = ""
itoa_within (suc fuel) n =
    let front = itoa_within fuel (n / 10) in
    if ltb n 10 then digit n else append_text front (digit (n % 10))

-- `strconv.Itoa`, and `%d`, of a number that is not negative.
unfoldable pub itoa : ℕ → String
unfolding itoa_within
itoa n = itoa_within (suc n) n

-- fmt.Sprintf("throttle:%s:%s:%d", scope, scopeKey, bucket)
unfoldable pub throttle_key : String → String → ℕ → String
unfolding itoa
throttle_key scope key bucket =
    append_text "throttle:"
      (append_text scope (append_text ":" (append_text key (append_text ":" (itoa bucket)))))

-- time.Now().Unix() / 60
unfoldable pub bucket_of : ℕ → ℕ
bucket_of t = t / second / 60

module _ {R : Type 0} (redis : Redis R) where
  unfoldable pub incr : String → Action R ℕ
  incr key w =
      let (reply, s) = redis.incr key w.redis in
      (elim reply [ none ↦ err redis_error | some n ↦ ok n ], record w { redis = s })

  unfoldable pub expire : String → ℕ → Action R Unit
  expire key seconds w =
      let (done, s) = redis.expire key seconds w.redis in
      (if done then ok tt else err redis_error, record w { redis = s })

  abbrev pub commands : Limiter (Action R)
  commands = record { incr = incr; expire = expire }

module _ {M : Type 0 → Type 0} (limiter : Limiter M) (ops : Ops M) where
  infixl 5 ◌>>=◌ ◌>>◌
  abbrev ◌>>=◌ : {A B : Type 0} → M A → (A → M B) → M B
  ◌>>=◌ = ops.bind

  abbrev ◌>>◌ : {A B : Type 0} → M A → M B → M B
  m >> k = ops.bind m (λ _. k)

  -- The TTL that the first hit of a window sets.
  abbrev pub expire_first : String → ℕ → M Unit
  expire_first key n =
      if n == 1 then ops.wrapping "expire throttle key" (limiter.expire key 120) else ops.return tt

  unfoldable pub allow : String → String → ℤ → M Verdict
  allow scope scope_key per_minute = do
    t ← ops.now
    let key = throttle_key scope scope_key (bucket_of t)
    n ← ops.wrapping "incr throttle key" (limiter.incr key)
    expire_first key n
    ops.return (record { allowed = leb_ℤ (pos n) per_minute; count = n; limit = per_minute })
