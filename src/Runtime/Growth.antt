-- ===== src/Runtime/Growth.antt =====
-- Rules for actions that lower no counter of internal/metrics/metrics.go.
use email_delivery_engine.Prelude.{
  ℕ, ◌≤◌, String, ◌≡◌, inl, inr, Bool, true, false, arith, str_eq, if◌then◌else◌, Bool-cases,
}
use email_delivery_engine.Store.{Database}
use email_delivery_engine.Metrics.Counting.{value_at, registry-Readings}
use email_delivery_engine.Runtime.{
  Env, Redis, World, Result, ok, err, Error, Action, pure, raise, continue, ◌>>=◌, wrapping, caught,
  count, query, exec, now, random, takes_effect,
}
use email_delivery_engine.Throttle.{incr, expire}
use email_delivery_engine.Queue.{command}

-- The metrics but the queue's depth, which is a gauge.
abbrev pub GrowsTo : {R : Type 0} → World R → World R → Type 0
GrowsTo before after =
    (k : String)
    → str_eq "queue_depth" k ≡ false
    → value_at k before.metrics ≤ value_at k after.metrics

pub record Grows {R A : Type 0} (m : Action R A) : Type 0 where
  pub at : (w : World R) → GrowsTo w (m w).1

module _ {R : Type 0} where
  pub Grows-pure : {A : Type 0} (a : A) → Grows {R = R} (pure a)
  Grows-pure a = record { at = λ w k n. omega arith }

  pub Grows-raise : {A : Type 0} (e : Error) → Grows {R = R} {A = A} (raise e)
  Grows-raise e = record { at = λ w k n. omega arith }

  continue-GrowsTo :
      {A B : Type 0} (r : Result A) (f : A → Action R B) (w : World R)
      → ((a : A) → Grows (f a))
      → GrowsTo w (continue r f w).1
  continue-GrowsTo (ok a) f w g = (g a).at w
  continue-GrowsTo (err e) f w g = λ k n. omega arith

  pub Grows-bind :
      {A B : Type 0} (m : Action R A) (f : A → Action R B)
      → Grows m
      → ((a : A) → Grows (f a))
      → Grows (m >>= f)
  unfolding ◌>>=◌
  Grows-bind m f g h = record {
    at = λ w k n.
        let first = g.at w k n in
        let second = continue-GrowsTo (m w).0 f (m w).1 h k n in omega arith;
  }

  pub Grows-if :
      {A : Type 0} (b : Bool) (m n : Action R A) → Grows m → Grows n → Grows (if b then m else n)
  Grows-if true m n g h = g
  Grows-if false m n g h = h

  pub Grows-wrapping :
      {A : Type 0} (what : String) (m : Action R A) → Grows m → Grows (wrapping what m)
  unfolding wrapping
  Grows-wrapping what m g = record { at = g.at }

  pub Grows-caught : {A : Type 0} (m : Action R A) → Grows m → Grows (caught m)
  unfolding caught
  Grows-caught m g = record { at = g.at }

  pub Grows-count : (name : String) → Grows {R = R} (count name)
  unfolding count
  Grows-count name = record {
    at = λ w k n. let seen = (registry-Readings w.metrics).counted name k in ground arith;
  }

  pub Grows-command :
      {A B : Type 0} (run : R → A × R) (reply : A → Result B) → Grows (command run reply)
  unfolding command
  Grows-command run reply = record { at = λ w k n. omega arith }

module _ {R : Type 0} (env : Env) where
  pub Grows-query : {A : Type 0} (f : ℕ → Database → A) → Grows {R = R} (query env f)
  unfolding query
  Grows-query f = record { at = λ w k n. omega arith }

  pub Grows-exec : (f : ℕ → Database → Database) → Grows {R = R} (exec env f)
  unfolding exec
  Grows-exec f = record {
    at = λ w k n. elim (Bool-cases (takes_effect (env.answer w.tick))) [
      | inl t ↦ rw t (omega arith)
      | inr u ↦ rw u (omega arith)
    ];
  }

  pub Grows-now : Grows {R = R} (now env)
  unfolding now
  Grows-now = record { at = λ w k n. omega arith }

  pub Grows-random : Grows {R = R} (random env)
  unfolding random
  Grows-random = record { at = λ w k n. omega arith }

module _ {R : Type 0} (redis : Redis R) where
  pub Grows-incr : (key : String) → Grows (incr redis key)
  unfolding incr
  Grows-incr key = record { at = λ w k n. omega arith }

  pub Grows-expire : (key : String) (seconds : ℕ) → Grows (expire redis key seconds)
  unfolding expire
  Grows-expire key seconds = record { at = λ w k n. omega arith }
