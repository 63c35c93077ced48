-- ===== src/Route/Warmup.antt =====
-- The caps of `WarmupCap` in internal/route/route.go.
use email_delivery_engine.Prelude.{
  ℕ, zero, suc, ◌+◌, ◌-◌, ◌/◌, min, ◌≤◌, ◌≡◌, refl, Option, none, some, arith,
}
use email_delivery_engine.Prelude.Int.{ℤ, pos, negsuc, ◌<ℤ◌}
use email_delivery_engine.Store.{IpPool}
use email_delivery_engine.Store.Query.{day}
use email_delivery_engine.Route.{unlimited, day_number, schedule_cap, warmup_cap, capped}

-- The cap by the whole days since the start, as the comments and the RFC give it.
abbrev pub scheduled_cap : ℕ → ℤ
scheduled_cap zero = pos 50
scheduled_cap (suc zero) = pos 100
scheduled_cap (suc (suc zero)) = pos 250
scheduled_cap (suc (suc (suc zero))) = pos 500
scheduled_cap (suc (suc (suc (suc zero)))) = pos 1000
scheduled_cap (suc (suc (suc (suc (suc n))))) = unlimited

day_number-since :
    (started now n : ℕ)
    → started ≤ now
    → (now - started) / day ≡ n
    → day_number started now ≡ pos (n + 1)
unfolding day_number
day_number-since started now n h e = ground arith

-- From the start of the warmup on, its cap is that of the whole days passed.
pub schedule_cap-since :
    (started now n : ℕ)
    → started ≤ now
    → (now - started) / day ≡ n
    → schedule_cap (some started) now ≡ scheduled_cap n
unfolding schedule_cap
schedule_cap-since started now zero h e = ground (arith, day_number-since started now 0 h e)
schedule_cap-since started now (suc zero) h e = ground (arith, day_number-since started now 1 h e)
schedule_cap-since started now (suc (suc zero)) h e =
    ground (arith, day_number-since started now 2 h e)
schedule_cap-since started now (suc (suc (suc zero))) h e =
    ground (arith, day_number-since started now 3 h e)
schedule_cap-since started now (suc (suc (suc (suc zero)))) h e =
    ground (arith, day_number-since started now 4 h e)
schedule_cap-since started now (suc (suc (suc (suc (suc n))))) h e =
    ground (arith, day_number-since started now (suc (suc (suc (suc (suc n))))) h e)

-- The stricter of a warmup cap and a daily limit.
abbrev pub stricter : ℤ → Option ℕ → ℤ
stricter cap none = cap
stricter (pos n) (some l) = pos (min n l)
stricter (negsuc n) (some l) = pos l

abbrev limit_column : Option ℕ → Option ℤ
limit_column none = none
limit_column (some l) = some (pos l)

-- A pool that has been warming up for some whole days, with no daily limit or one of at least 0, is
-- capped by the stricter of the schedule (50, 100, 250, 500, 1000, then unlimited) and the limit.
pub warmup_cap-stricter :
    (p : IpPool) (started now : ℕ) (limit : Option ℕ)
    → p.warmup_started_at ≡ some started
    → started ≤ now
    → p.daily_limit ≡ limit_column limit
    → warmup_cap p now ≡ stricter (scheduled_cap ((now - started) / day)) limit
unfolding warmup_cap
warmup_cap-stricter p started now limit e h l =
    rw (e, l, schedule_cap-since started now ((now - started) / day) h refl)
      (meets ((now - started) / day) limit)
  where
    meets :
        (n : ℕ) (limit : Option ℕ)
        → capped (scheduled_cap n) (limit_column limit) ≡ stricter (scheduled_cap n) limit
    meets n none = refl
    meets zero (some l) = ground arith
    meets (suc zero) (some l) = ground arith
    meets (suc (suc zero)) (some l) = ground arith
    meets (suc (suc (suc zero))) (some l) = ground arith
    meets (suc (suc (suc (suc zero)))) (some l) = ground arith
    meets (suc (suc (suc (suc (suc n))))) (some l) = ground arith

-- A negative daily limit makes the cap negative, also for a pool that is warming up.
pub warmup_cap-negative :
    (p : IpPool) (now k : ℕ) → p.daily_limit ≡ some (negsuc k) → warmup_cap p now <ℤ pos 0
unfolding warmup_cap
warmup_cap-negative p now k e = ground arith

-- The cap of a pool that is not warming up: its daily limit, if there is one.
abbrev pub limit_alone : Option ℤ → ℤ
limit_alone none = unlimited
limit_alone (some limit) = limit

unlimited-capped : (limit : Option ℤ) → capped unlimited limit ≡ limit_alone limit
unlimited-capped none = refl
unlimited-capped (some limit) = refl

-- A pool whose warmup starts a day or more from now is capped as if it were not to be warmed up: by
-- its daily limit if it has one, and else not at all.
pub warmup_cap-before_start :
    (p : IpPool) (started now : ℕ)
    → p.warmup_started_at ≡ some started
    → now + day ≤ started
    → warmup_cap p now ≡ limit_alone p.daily_limit
unfolding warmup_cap schedule_cap day_number
warmup_cap-before_start p started now e h =
    let later : 1 ≤ (started - now) / day = omega arith in
    let none_yet : schedule_cap p.warmup_started_at now ≡ unlimited = rw e (ground arith) in
    rw none_yet (unlimited-capped p.daily_limit)
