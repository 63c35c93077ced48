-- ===== src/Throttle/Window.antt =====
-- How many sends the limiter of internal/throttle/throttle.go lets through in a window.
use email_delivery_engine.Runtime.Interface.{acts}
use email_delivery_engine.Throttle.{commands}
use email_delivery_engine.Prelude.{
  ℕ, zero, suc, ◌+◌, min, String, ◌≡◌, refl, ap, ◌∙◌, Bool, true, false, some, arith, ◌==◌,
  Bool-cases, inl, inr, if◌then◌else◌,
}
use email_delivery_engine.Prelude.Int.{pos, leb_ℤ}
use email_delivery_engine.Runtime.{Env, Redis, World, Result, ok, err, ◌>>=◌, wrapping, now}
use email_delivery_engine.Throttle.{
  Verdict, throttle_key, bucket_of, incr, expire, expire_first, allow,
}

-- The documented behaviour of INCR and EXPIRE on a key that does not expire meanwhile: `held` is the
-- number that Redis holds under a key. INCR adds one and replies with the sum; EXPIRE replies that it
-- is done and leaves the number.
pub record CountsHits {R : Type 0} (redis : Redis R) (held : String → R → ℕ) : Type 0 where
  pub incr_reply : (key : String) (s : R) → (redis.incr key s).0 ≡ some (held key s + 1)
  pub incr_held : (key : String) (s : R) → held key (redis.incr key s).1 ≡ held key s + 1
  pub expire_reply : (key : String) (n : ℕ) (s : R) → (redis.expire key n s).0 ≡ true
  pub expire_held : (key : String) (n : ℕ) (s : R) → held key (redis.expire key n s).1 ≡ held key s

abbrev pub passes : Result Verdict → Bool
passes (ok v) = v.allowed
passes (err e) = false

module _ {R : Type 0} (redis : Redis R) (env : Env) (scope scope_key : String) (limit : ℕ) where
  -- How many of `n` calls, one after another, let the message through.
  unfoldable pub passed : ℕ → World R → ℕ
  passed zero w = 0
  passed (suc n) w =
      let rest = passed n (allow (commands redis) (acts env) scope scope_key (pos limit) w).1 in
      if passes (allow (commands redis) (acts env) scope scope_key (pos limit) w).0
      then suc rest
      else rest

module _ {R : Type 0} (redis : Redis R) (held : String → R → ℕ) (counts : CountsHits redis held)
    (env : Env) (scope scope_key : String) (limit bucket : ℕ)
    (one_window : (t : ℕ) → bucket_of (env.clock t) ≡ bucket) where
  abbrev hits : World R → ℕ
  hits w = held (throttle_key scope scope_key bucket) w.redis

  expire_first-held :
      (key : String) (n : ℕ) (w : World R)
      → ((expire_first (commands redis) (acts env) key n w).0 ≡ ok tt)
        × (held key (expire_first (commands redis) (acts env) key n w).1.redis ≡ held key w.redis)
  unfolding wrapping expire
  expire_first-held key n w = elim (Bool-cases (n == 1)) [
    | inl t ↦ rw (t, counts.expire_reply) (refl, counts.expire_held key _ w.redis)
    | inr f ↦ rw f (refl, refl)
  ]

  allow-counts :
      (w : World R)
      → (passes (allow (commands redis) (acts env) scope scope_key (pos limit) w).0
          ≡ leb_ℤ (pos (hits w + 1)) (pos limit))
        × (hits (allow (commands redis) (acts env) scope scope_key (pos limit) w).1 ≡ hits w + 1)
  unfolding allow ◌>>=◌ wrapping now incr
  allow-counts w =
      rw
        (
          one_window,
          counts.incr_reply,
          (expire_first-held (throttle_key scope scope_key bucket) (hits w + 1) _).0,
        )
        (
          refl,
          (expire_first-held (throttle_key scope scope_key bucket) (hits w + 1) _).1
              ∙ counts.incr_held (throttle_key scope scope_key bucket) w.redis,
        )

  passed-from :
      (n c : ℕ) (w : World R)
      → hits w ≡ c
      → passed redis env scope scope_key limit n w + min c limit ≡ min (c + n) limit
  unfolding passed
  passed-from zero c w h = ground arith
  passed-from (suc n) c w h =
      let one = allow-counts w in
      let rest =
        passed-from n (c + 1) (allow (commands redis) (acts env) scope scope_key (pos limit) w).1
          (one.1 ∙ ap (λ k. k + 1) h) in
      rw (one.0, h) (ground (arith, rest))

  -- In one window that begins with no hits, exactly the first `limit` of any number of calls for a
  -- scope and its key are let through, if Redis counts the hits and the key does not expire.
  pub passed-min :
      (n : ℕ) (w : World R) → hits w ≡ 0 → passed redis env scope scope_key limit n w ≡ min n limit
  passed-min n w h = ground (arith, passed-from n 0 w h)
