-- ===== src/Worker/Refinement/Readings.antt =====
-- When `Process` in internal/worker/worker.go reads what it decides by. A call that begins at the
-- point `t` reads the message at `t`, the customer at `t + 1`, the suppression list at `t + 2`, and
-- then it selects a route, reads the clock, counts, and asks the limiter.
use email_delivery_engine.Prelude.{
  ℕ, suc, ◌+◌, String, ◌≡◌, true, false, Option, none, some, List, [], ◌∷◌, ◌==◌, if◌then◌else◌,
}
use email_delivery_engine.Prelude.Int.{ℤ, pos, ◌≤ℤ◌, ◌<ℤ◌, ltb_ℤ, leb_ℤ}
use email_delivery_engine.Store.{Message, Customer, Database, ThrottleRule}
use email_delivery_engine.Store.Query.{
  routes_for, dedicated_pool, shared_pools, customer_sends_today, pool_sends_today,
}
use email_delivery_engine.Route.{
  Decision, pinned, shared_route, route_provider, is_empty, warmup_cap,
}
use email_delivery_engine.Throttle.{throttle_key, bucket_of}
use email_delivery_engine.Runtime.{Env, Redis, World, fails}
use email_delivery_engine.Worker.Pipeline.{applies}
use Prim.Native.String.{◌++◌ as append_text}

-- The world `w` of a call that began in `start`, after reads only: it is at the point `n`.
pub record Reached {R : Type 0} (start : World R) (n : ℕ) (w : World R) : Type 0 where
  pub same_db : w.db ≡ start.db
  pub same_redis : w.redis ≡ start.redis
  pub at_tick : w.tick ≡ n

-- The route on the customer's own dedicated pool.
abbrev pub own_route : Message → Database → Option Decision
own_route msg db = pinned (dedicated_pool msg.customer_id db) (routes_for (route_provider msg) db)

-- How many statements the selection runs: the shared pools are read when the customer has no route
-- of its own.
abbrev pub selection_reads : Option Decision → ℕ
selection_reads none = 3
selection_reads (some d) = 2

-- Why a selection that began at the point `t` gives no decision.
pub data Unroutable (env : Env) (msg : Message) (db : Database) (t : ℕ) : Type 0 where
  routes_unread : fails (env.answer t) ≡ true → Unroutable env msg db t
  no_enabled_route : is_empty (routes_for (route_provider msg) db) ≡ true → Unroutable env msg db t
  own_pool_unread : fails (env.answer (t + 1)) ≡ true → Unroutable env msg db t
  shared_pools_unread :
      own_route msg db ≡ none → fails (env.answer (t + 2)) ≡ true → Unroutable env msg db t
  no_route_on_pool :
      own_route msg db ≡ none
      → shared_route (shared_pools db) (routes_for (route_provider msg) db) ≡ none
      → Unroutable env msg db t

-- `time.Now()` after the selection, in a call that began at the point `t`.
abbrev pub decided_at : ℕ → Message → Database → ℕ
decided_at t msg db = t + 3 + selection_reads (own_route msg db)

-- The count of the pool's sends, after the customer's if the customer has a cap.
abbrev pub pool_count_at : Customer → ℕ → ℕ
pool_count_at c k = if ltb_ℤ (pos 0) c.daily_send_cap then suc (suc k) else suc k

-- The throttle rules, after the count of the pool's sends if the pool has a cap.
abbrev pub rules_at : ℤ → ℕ → ℕ
rules_at cap p = if leb_ℤ (pos 0) cap then suc p else p

-- The counts and the cap for a decision at the point `k`, by the database's clock and the program's.
abbrev pub customer_count : Env → Message → Database → ℕ → ℕ
customer_count env msg db k = customer_sends_today msg.customer_id (env.clock (suc k)) db

abbrev pub pool_cap : Env → Decision → ℕ → ℤ
pool_cap env d k = warmup_cap d.pool (env.clock k)

abbrev pub pool_count : Env → Database → Customer → Decision → ℕ → ℕ
pool_count env db c d k = pool_sends_today d.pool.id (env.clock (pool_count_at c k)) db

-- The decision is not stopped by a cap.
pub record HasRoom (env : Env) (msg : Message) (db : Database) (c : Customer) (d : Decision) (k : ℕ)
    : Type 0 where
  pub customer_room :
      pos 0 <ℤ c.daily_send_cap → pos (customer_count env msg db k) <ℤ c.daily_send_cap
  pub pool_room : pos 0 ≤ℤ pool_cap env d k → pos (pool_count env db c d k) <ℤ pool_cap env d k

abbrev pub hit_key : Env → ThrottleRule → ℕ → String
hit_key env r n = throttle_key r.scope r.scope_key (bucket_of (env.clock n))

-- Redis after a hit that it answered with `hits`.
abbrev pub after_hit : {R : Type 0} → Redis R → String → ℕ → R → R
after_hit redis key hits s =
    let counted = (redis.incr key s).1 in
    if hits == 1 then (redis.expire key 120 counted).1 else counted

module _ {R : Type 0} (redis : Redis R) (env : Env) (msg : Message) (d : Decision) where
  -- What the limiter answers for the rules in their order, from the point `n` and the state `s` of
  -- Redis: each rule that applies is hit once, until one has more hits than it allows.
  pub data Checked : List ThrottleRule → ℕ → R → Option String → Type 0 where
    all_checked : (n : ℕ) (s : R) → Checked [] n s none
    passed_over :
        (r : ThrottleRule) (rs : List ThrottleRule) (n : ℕ) (s : R) (verdict : Option String)
        → applies r msg d ≡ false
        → Checked rs n s verdict
        → Checked (r ∷ rs) n s verdict
    let_through :
        (r : ThrottleRule) (rs : List ThrottleRule) (n : ℕ) (s : R) (verdict : Option String)
        (hits : ℕ)
        → applies r msg d ≡ true
        → (redis.incr (hit_key env r n) s).0 ≡ some hits
        → pos hits ≤ℤ r.messages_per_minute
        → Checked rs (suc n) (after_hit redis (hit_key env r n) hits s) verdict
        → Checked (r ∷ rs) n s verdict
    held_back :
        (r : ThrottleRule) (rs : List ThrottleRule) (n : ℕ) (s : R) (hits : ℕ)
        → applies r msg d ≡ true
        → (redis.incr (hit_key env r n) s).0 ≡ some hits
        → r.messages_per_minute <ℤ pos hits
        → Checked (r ∷ rs) n s (some (append_text r.scope (append_text ":" r.scope_key)))

-- The limiter's answer to a decision at the point `k`.
abbrev pub Asked :
    {R : Type 0}
    → Redis R
    → Env
    → Message
    → World R
    → Customer
    → Decision
    → ℕ
    → Option String
    → Type 0
Asked redis env msg start c d k verdict =
    Checked redis env msg d start.db.throttle_rules
      (suc (rules_at (pool_cap env d k) (pool_count_at c k))) start.redis verdict
