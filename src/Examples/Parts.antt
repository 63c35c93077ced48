-- ===== src/Examples/Parts.antt =====
-- Tests of the parts that need no world, and examples of their theorems.
use email_delivery_engine.Prelude.{
  ℕ, ◌+◌, ◌-◌, ◌*◌, ◌/◌, ◌≤◌, ◌≡◌, refl, ◌↔◌, true, false, some, List, [], arith,
}
use email_delivery_engine.Prelude.Int.{pos, negsuc, ◌<ℤ◌}
use email_delivery_engine.Prelude.Text.{codes, contains, to_lower}
use email_delivery_engine.Classify.{delivered, hard_bounce, rules, classify, accepted}
use email_delivery_engine.Classify.Search.{Occurs, contains_iff}
use email_delivery_engine.Classify.FirstMatch.{
  Decides, NoPhrase, classify_iff_Decides, classify-delivered_iff,
}
use email_delivery_engine.Simulate.{degraded, down, simulate}
use email_delivery_engine.Simulate.Outcomes.{IsSound, simulate-IsSound}
use email_delivery_engine.Simulate.Hints.{simulate-bounce_hint}
use email_delivery_engine.Backoff.{minute, next_delay}
use email_delivery_engine.Backoff.Bounds.{next_delay_bounds}
use email_delivery_engine.Store.{IpPool}
use email_delivery_engine.Store.Query.{day}
use email_delivery_engine.Route.{Decision, warmup_cap}
use email_delivery_engine.Route.Warmup.{warmup_cap-stricter, warmup_cap-before_start}
use email_delivery_engine.Runtime.Interface.{acts}
use email_delivery_engine.Throttle.{commands}
use email_delivery_engine.Worker.Pipeline.{warmup_step, throttle_step}
use email_delivery_engine.Worker.Warming.{warmup_step-negative_limit}
use email_delivery_engine.Examples.{noon, own_pool, gmail_route, fresh, tally, calm}

abbrev denied : List ℕ
denied = codes "550 5.7.1 Access denied"

access_denied : (classify denied).classification ≡ delivered
unfolding classify
access_denied = refl

classify_iff_Decides_example :
    (classify denied ≡ accepted) ↔ Decides (to_lower denied) rules accepted
classify_iff_Decides_example = classify_iff_Decides denied accepted

classify-delivered_iff_example :
    ((classify denied).classification ≡ delivered) ↔ NoPhrase (to_lower denied) rules
classify-delivered_iff_example = classify-delivered_iff denied

contains_iff_example :
    (contains (codes "a bounce") (codes "bounce") ≡ true)
    ↔ Occurs (codes "bounce") (codes "a bounce")
contains_iff_example = contains_iff (codes "a bounce") (codes "bounce")

simulate-IsSound_example : IsSound (simulate "slow@gmail.com" degraded 3)
simulate-IsSound_example = simulate-IsSound "slow@gmail.com" degraded 3

simulate-bounce_hint_example :
    ((simulate "BOUNCE.me@gmail.com" down 3).classification ≡ hard_bounce)
    × ((simulate "BOUNCE.me@gmail.com" down 3).retryable ≡ false)
unfolding to_lower
simulate-bounce_hint_example =
    simulate-bounce_hint "BOUNCE.me@gmail.com" (codes "BOUNCE.me") (codes "gmail.com")
      (ground arith) refl ([], codes ".me", refl) down 3

next_delay_bounds_example :
    ((2 * minute) / 2 ≤ (next_delay (pos 2) (pos 4) 9).0)
    × ((next_delay (pos 2) (pos 4) 9).0 ≤ 2 * minute)
next_delay_bounds_example = next_delay_bounds (pos 2) (pos 4) 9 (omega arith)

-- Two days into its warmup the pool is capped at 80, its limit, not at the schedule's 250.
warmup_cap-stricter_example : warmup_cap own_pool (noon + 2 * day) ≡ pos 80
warmup_cap-stricter_example =
    warmup_cap-stricter own_pool noon (noon + 2 * day) (some 80) refl (omega arith) refl

abbrev limited_pool : IpPool
limited_pool = record own_pool { daily_limit = some (negsuc 0) }

abbrev limited : Decision
limited = record { route = gmail_route 12 7; pool = limited_pool }

-- On the first day of its warmup the pool is not capped at 50.
warmup_step-negative_limit_example :
    (warmup_cap limited_pool noon <ℤ pos 0)
    × (warmup_step (commands tally) (acts calm) (pos 4) fresh limited noon
        ≡ throttle_step (commands tally) (acts calm) (pos 4) fresh limited noon)
warmup_step-negative_limit_example =
    warmup_step-negative_limit (commands tally) (acts calm) (pos 4) fresh limited noon 0 refl

warmup_cap-before_start_example : warmup_cap own_pool (noon - 2 * day) ≡ pos 80
warmup_cap-before_start_example =
    warmup_cap-before_start own_pool noon (noon - 2 * day) refl (omega arith)
