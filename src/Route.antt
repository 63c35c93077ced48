-- ===== src/Route.antt =====
-- data-plane/internal/route/route.go: the choice of a route and an IP pool, and the caps of a pool
-- that is warming up.
pub mod Selection
pub mod Choice
pub mod Warmup
use email_delivery_engine.Prelude.{
  ℕ, ◌+◌, ◌-◌, ◌/◌, String, Bool, true, false, ◌||◌, ◌&&◌, Option, none, some, List, [], ◌∷◌, leb,
  ◌==◌, str_eq, if◌then◌else◌, length, get_or,
}
use email_delivery_engine.Prelude.Int.{ℤ, pos, negsuc, pos_part, sub_ℕ, ◌-ℤ◌, ltb_ℤ, leb_ℤ}
use email_delivery_engine.Store.{Message, IpPool, Route, Database}
use email_delivery_engine.Store.Query.{routes_for, dedicated_pool, shared_pools, pool_is, day}
use email_delivery_engine.Runtime.{no_enabled_route, no_pool_route}
use email_delivery_engine.Runtime.Interface.{Ops}

abbrev pub warmup_schedule : List ℕ
warmup_schedule = 50 ∷ 100 ∷ 250 ∷ 500 ∷ 1000 ∷ []

-- `Decision` of the Go package.
pub record Decision : Type 0 where
  pub route : Route
  pub pool : IpPool

-- The loop over the routes for the one that is pinned to the dedicated pool.
unfoldable pub pinned_route : IpPool → List Route → Option Decision
pinned_route p [] = none
pinned_route p (r ∷ rs) =
    if pool_is p.id r.ip_pool_id then some (record { route = r; pool = p }) else pinned_route p rs

-- `sharedByID[id]`, filled from the front: the last pool with an identity is the one kept.
unfoldable pub shared_by_id : List IpPool → ℕ → Option IpPool
shared_by_id [] id = none
shared_by_id (p ∷ ps) id = elim (shared_by_id ps id) [
  | some q ↦ some q
  | none ↦ if p.id == id then some p else none
]

abbrev pub pool_of_route : List IpPool → Option ℕ → Option IpPool
pool_of_route shared none = none
pool_of_route shared (some id) = shared_by_id shared id

abbrev pub decide_with : Option IpPool → Route → Option Decision → Option Decision
decide_with none r rest = rest
decide_with (some p) r rest = some (record { route = r; pool = p })

-- The loop over the routes for the first one on a shared pool.
unfoldable pub shared_route : List IpPool → List Route → Option Decision
unfolding shared_by_id
shared_route shared [] = none
shared_route shared (r ∷ rs) =
    decide_with (pool_of_route shared r.ip_pool_id) r (shared_route shared rs)

-- The provider that routes are looked up for.
abbrev pub route_provider : Message → String
route_provider m = if str_eq m.mailbox_provider "" then "other" else m.mailbox_provider

abbrev pub pinned : Option IpPool → List Route → Option Decision
pinned none routes = none
pinned (some p) routes = pinned_route p routes

abbrev pub is_empty : List Route → Bool
is_empty [] = true
is_empty (r ∷ rs) = false

module _ {M : Type 0 → Type 0} (ops : Ops M) where
  infixl 5 ◌>>=◌ ◌>>◌
  abbrev ◌>>=◌ : {A B : Type 0} → M A → (A → M B) → M B
  ◌>>=◌ = ops.bind

  abbrev ◌>>◌ : {A B : Type 0} → M A → M B → M B
  m >> k = ops.bind m (λ _. k)

  -- The end of `Select`: a decision, or the error that there is none.
  abbrev pub or_raise : Option Decision → String → M Decision
  or_raise none provider = ops.fail (no_pool_route provider)
  or_raise (some d) provider = ops.return d

  -- From the search of the shared pools on.
  unfoldable pub select_shared : String → List Route → M Decision
  select_shared provider routes = do
    pools ← ops.wrapping "load shared pools" (ops.query (λ _. shared_pools))
    or_raise (shared_route pools routes) provider

  abbrev pub or_shared : Option Decision → String → List Route → M Decision
  or_shared (some d) provider routes = ops.return d
  or_shared none provider routes = select_shared provider routes

  -- From the search of the dedicated pool on.
  unfoldable pub select_pool : String → String → List Route → M Decision
  select_pool customer_id provider routes = do
    own ← ops.wrapping "load dedicated pool" (ops.query (λ _. dedicated_pool customer_id))
    or_shared (pinned own routes) provider routes

  unfoldable pub select_route : Message → String → M Decision
  select_route msg customer_id = do
    let provider = route_provider msg
    routes ← ops.wrapping "load routes" (ops.query (λ _. routes_for provider))
    if is_empty routes
        then ops.fail (no_enabled_route provider)
        else select_pool customer_id provider routes

-- int(now.Sub(started).Hours()/24) + 1: the quotient is truncated towards zero, also before the
-- start. The doubles of the program agree with it, but from about day 129 on they may be a day ahead
-- in the last nanoseconds of a day. The cap does not see that: it is unlimited from day 6 on.
unfoldable pub day_number : ℕ → ℕ → ℤ
day_number started now =
    if leb started now then pos ((now - started) / day + 1) else sub_ℕ 1 ((started - now) / day)

-- -1 is unlimited.
abbrev pub unlimited : ℤ
unlimited = negsuc 0

unfoldable pub schedule_cap : Option ℕ → ℕ → ℤ
unfolding day_number
schedule_cap none now = unlimited
schedule_cap (some started) now =
    let d = day_number started now in
    if leb_ℤ (pos 1) d && leb_ℤ d (pos (length warmup_schedule))
    then pos (get_or warmup_schedule (pos_part (d -ℤ pos 1)) 0)
    else unlimited

abbrev is_unlimited : ℤ → Bool
is_unlimited (negsuc n) = n == 0
is_unlimited (pos n) = false

-- The cap under a daily limit, if there is one.
abbrev pub capped : ℤ → Option ℤ → ℤ
capped cap none = cap
capped cap (some dl) = if is_unlimited cap || ltb_ℤ dl cap then dl else cap

unfoldable pub warmup_cap : IpPool → ℕ → ℤ
unfolding schedule_cap
warmup_cap p now = capped (schedule_cap p.warmup_started_at now) p.daily_limit

unfoldable pub warmup_day : IpPool → ℕ → ℤ
unfolding day_number
warmup_day p now = elim p.warmup_started_at [ none ↦ pos 0 | some started ↦ day_number started now ]
