-- ===== src/Worker/Warming.antt =====
-- What step 5 of `Process` in internal/worker/worker.go makes of the cap of a pool.
use email_delivery_engine.Prelude.{ℕ, ◌≡◌, some, refl, arith, false}
use email_delivery_engine.Prelude.Int.{ℤ, pos, negsuc, ◌<ℤ◌, leb_ℤ}
use email_delivery_engine.Store.{Message}
use email_delivery_engine.Route.{Decision, warmup_cap}
use email_delivery_engine.Route.Warmup.{warmup_cap-negative}
use email_delivery_engine.Runtime.Interface.{Ops, Limiter}
use email_delivery_engine.Worker.Pipeline.{warmup_step, throttle_step}

-- A negative daily limit makes the cap of a pool negative, also while the pool is warming up, and the
-- pipeline takes that for no cap: it counts no sends of the pool and goes on to the throttle rules.
pub warmup_step-negative_limit :
    {M : Type 0 → Type 0} (limiter : Limiter M) (ops : Ops M) (max_attempts : ℤ) (msg : Message)
    (d : Decision) (t k : ℕ)
    → d.pool.daily_limit ≡ some (negsuc k)
    → (warmup_cap d.pool t <ℤ pos 0)
      × (warmup_step limiter ops max_attempts msg d t
          ≡ throttle_step limiter ops max_attempts msg d t)
unfolding warmup_step
warmup_step-negative_limit limiter ops max_attempts msg d t k e =
    let below : warmup_cap d.pool t <ℤ pos 0 = warmup_cap-negative d.pool t k e in
    let uncapped : leb_ℤ (pos 0) (warmup_cap d.pool t) ≡ false = ground arith in
    (below, rw uncapped refl)
