-- ===== src/Worker/Guarantees/Calm.antt =====
-- That `Process` in internal/worker/worker.go returns no error of its own making: errors come from
-- failed statements and from Redis only.
use email_delivery_engine.Runtime.Interface.{acts, unlocked}
use email_delivery_engine.Throttle.{commands}
use email_delivery_engine.Prelude.{ℕ, String, Option, ◌≡◌, refl, true}
use email_delivery_engine.Store.{Database}
use email_delivery_engine.Prelude.Int.{ℤ}
use email_delivery_engine.Throttle.{incr, expire}
use email_delivery_engine.Runtime.{Env, Redis, World}
use email_delivery_engine.Runtime.Rules.{is_ok}
use email_delivery_engine.Runtime.Success.{
  Calm, Responsive, Succeeds, Succeeds-if, Succeeds-bind, Succeeds-pure, Succeeds-query,
  Succeeds-exec, Succeeds-count, Succeeds-now, Succeeds-random, Succeeds-wrapping, Succeeds-caught,
}
use email_delivery_engine.Runtime.Closed.{Closed}
use email_delivery_engine.Worker.Pipeline.{process}
use email_delivery_engine.Worker.Traversal.{on_process}

module _ {R : Type 0} (redis : Redis R) (answers : Responsive redis) (env : Env)
    (calm : Calm env) where
  Succeeds-incr : (key : String) → Succeeds (incr redis key)
  unfolding incr
  Succeeds-incr key = record {
    at = λ w. let (n, e) = answers.incr_replies key w.redis in rw e refl;
  }

  Succeeds-expire : (key : String) (n : ℕ) → Succeeds (expire redis key n)
  unfolding expire
  Succeeds-expire key n = record { at = λ w. rw (answers.expire_replies key n w.redis) refl }

  Succeeds-unlocked :
      {A : Type 0} (find : Database → Option A) → Succeeds {R = R} (unlocked env find)
  Succeeds-unlocked find = record { at = λ w. (Succeeds-query env calm _).at w }

  Succeeds-Closed :
      Closed (commands redis) (acts env) (commands redis) (acts env) (λ A m n. Succeeds m)
  Succeeds-Closed = record {
    on_return = Succeeds-pure;
    on_bind = λ m n f g h k. Succeeds-bind m f h k;
    on_if = λ b m m' n n' h k. Succeeds-if b m m' h k;
    on_wrapping = λ what m n h. Succeeds-wrapping what m h;
    on_count = Succeeds-count;
    on_query = Succeeds-query env calm;
    on_fetch = Succeeds-unlocked;
    on_exec = Succeeds-exec env calm;
    on_now = Succeeds-now env;
    on_random = Succeeds-random env;
    on_incr = Succeeds-incr;
    on_expire = Succeeds-expire;
  }

  -- When no statement fails and Redis replies, a call returns no error, whatever the tables hold.
  pub process-ok :
      (max_attempts : ℤ) (key : String) (w : World R)
      → is_ok (process (commands redis) (acts env) max_attempts key w).0 ≡ true
  process-ok max_attempts key w =
      (on_process (commands redis) (acts env) (commands redis) (acts env) (λ A m n. Succeeds m)
          Succeeds-Closed (λ msg customer. Succeeds-caught _) max_attempts key).at
        w
