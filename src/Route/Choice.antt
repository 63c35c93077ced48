-- ===== src/Route/Choice.antt =====
-- The choice of `Select` in internal/route/route.go: whose pool, which route, and the preference.
use mathlib.Core.List.{Memᴰ}
use email_delivery_engine.Runtime.Interface.{acts}
use email_delivery_engine.Prelude.{
  String, ◌≡◌, refl, sym, ap, subst, ◌∙◌, ◌⊎◌, inl, inr, ◌≢◌, Bool, true, false, Option, none, some,
  List, [], ◌∷◌, arith, Bool-cases, if◌then◌else◌, eq_iff,
}
use email_delivery_engine.Prelude.Members.{mem-select, find?-some}
use email_delivery_engine.Store.{Message, IpPool, Route, Database, shared, dedicated}
use email_delivery_engine.Store.Query.{
  routes_for, dedicated_pool, shared_pools, pool_is, is_shared, owned_by,
}
use email_delivery_engine.Runtime.{Env, World, ok, no_enabled_route, Action, raise, wrapping, query}
use email_delivery_engine.Runtime.Rules.{>>=-ok, load-ok, load-db}
use email_delivery_engine.Route.{
  Decision, pinned_route, pinned, shared_route, route_provider, is_empty, select_shared,
  select_pool, select_route, or_raise, or_shared,
}
use email_delivery_engine.Route.Selection.{pinned_route-some, shared_route-some}

-- A route and a pool that may carry a message of the customer: the route is an enabled one for the
-- provider, it is on the pool, and the pool is the customer's own dedicated pool or a shared one.
pub record Selected (msg : Message) (customer : String) (db : Database) (d : Decision)
    : Type 0 where
  pub route_known : Memᴰ d.route db.routes
  pub enabled : d.route.enabled ≡ true
  pub for_provider : d.route.provider ≡ route_provider msg
  pub pool_known : Memᴰ d.pool db.pools
  pub on_pool : d.route.ip_pool_id ≡ some d.pool.id
  pub permitted :
      ((d.pool.customer_id ≡ some customer) × (d.pool.type ≡ dedicated)) ⊎ (d.pool.type ≡ shared)

enabled_route :
    (provider : String) (db : Database) (r : Route)
    → Memᴰ r (routes_for provider db)
    → Memᴰ r db.routes × (r.enabled ≡ true) × (r.provider ≡ provider)
unfolding routes_for
enabled_route provider db r m =
    let (there, t) = mem-select _ db.routes m in
    (there, ground arith, ground (arith, eq_iff r.provider provider))

owned_by-eq : (c : String) (o : Option String) → owned_by c o ≡ true → o ≡ some c
owned_by-eq c none h = cc
owned_by-eq c (some x) h = ground (arith, eq_iff x c)

dedicated_pool-some :
    (c : String) (db : Database) (p : IpPool)
    → dedicated_pool c db ≡ some p
    → Memᴰ p db.pools × ((p.customer_id ≡ some c) × (p.type ≡ dedicated))
unfolding dedicated_pool
dedicated_pool-some c db p h =
    let (there, t) = find?-some _ db.pools h in
    (there, (owned_by-eq c p.customer_id (ground arith), ground arith))

Selected-pinned :
    (msg : Message) (c : String) (db : Database) (d : Decision)
    → pinned (dedicated_pool c db) (routes_for (route_provider msg) db) ≡ some d
    → Selected msg c db d
Selected-pinned msg c db d h = from (dedicated_pool c db) refl h
  where
    from :
        (o : Option IpPool)
        → dedicated_pool c db ≡ o
        → pinned o (routes_for (route_provider msg) db) ≡ some d
        → Selected msg c db d
    from none e h = cc
    from (some p) e h =
        let (pool_eq, m, linked) = pinned_route-some p (routes_for (route_provider msg) db) d h in
        let (known, on, provider) = enabled_route (route_provider msg) db d.route m in
        let (there, own) = dedicated_pool-some c db d.pool (e ∙ ap some (sym pool_eq)) in
        record {
          route_known = known;
          enabled = on;
          for_provider = provider;
          pool_known = there;
          on_pool = linked ∙ ap (λ (y : IpPool). some y.id) (sym pool_eq);
          permitted = inl own;
        }

Selected-shared :
    (msg : Message) (c : String) (db : Database) (d : Decision)
    → shared_route (shared_pools db) (routes_for (route_provider msg) db) ≡ some d
    → Selected msg c db d
unfolding shared_pools
Selected-shared msg c db d h =
    let (m, q, linked) = shared_route-some _ (routes_for (route_provider msg) db) d h in
    let (known, on, provider) = enabled_route (route_provider msg) db d.route m in
    let (there, t) = mem-select (λ (p : IpPool). is_shared p.type) db.pools q in
    record {
      route_known = known;
      enabled = on;
      for_provider = provider;
      pool_known = there;
      on_pool = linked;
      permitted = inr (ground arith);
    }

-- The decision among some routes: the one on the given pool, or else one on a shared pool.
abbrev pub ChosenFrom : Option IpPool → Database → List Route → Decision → Type 0
ChosenFrom own db routes d =
    (pinned own routes ≡ some d)
    ⊎ ((pinned own routes ≡ none) × (shared_route (shared_pools db) routes ≡ some d))

pinned_route-found :
    (p : IpPool) (rs : List Route) (r : Route)
    → Memᴰ r rs
    → r.ip_pool_id ≡ some p.id
    → pinned_route p rs ≢ none
unfolding pinned_route
pinned_route-found p [] r m linked none_found = elim m [ ]
pinned_route-found p (x ∷ rs) r (Memᴰ.head e) linked none_found =
    let same : pool_is p.id x.ip_pool_id ≡ true =
      rw (← ap (λ (y : Route). y.ip_pool_id) e, linked) (ground arith) in
    cc (rw same at none_found)
pinned_route-found p (x ∷ rs) r (Memᴰ.tail m) linked none_found =
    elim (Bool-cases (pool_is p.id x.ip_pool_id)) [
      | inl t ↦ cc (rw t at none_found)
      | inr f ↦ pinned_route-found p rs r m linked (rw f at none_found)
    ]

prefers :
    (p : IpPool) (rs : List Route) (d : Decision) (r : Route) (db : Database)
    → ChosenFrom (some p) db rs d
    → Memᴰ r rs
    → r.ip_pool_id ≡ some p.id
    → d.pool ≡ p
prefers p rs d r db (inl found) there linked = (pinned_route-some p rs d found).0
prefers p rs d r db (inr (missing, _)) there linked =
    absurd (pinned_route-found p rs r there linked missing)

ChosenFrom-Selected :
    (msg : Message) (customer : String) (db : Database) (d : Decision)
    → ChosenFrom (dedicated_pool customer db) db (routes_for (route_provider msg) db) d
    → Selected msg customer db d
ChosenFrom-Selected msg customer db d (inl own) = Selected-pinned msg customer db d own
ChosenFrom-Selected msg customer db d (inr (_, other)) = Selected-shared msg customer db d other

or_raise-ok :
    {R : Type 0} (env : Env) (o : Option Decision) (provider : String) (w : World R) (d : Decision)
    → (or_raise (acts env) o provider w).0 ≡ ok d
    → o ≡ some d
or_raise-ok env none provider w d h = cc
or_raise-ok env (some x) provider w d h = cc

module _ {R : Type 0} (env : Env) where
  select_shared-ok :
      (provider : String) (routes : List Route) (w : World R) (d : Decision)
      → (select_shared (acts env) provider routes w).0 ≡ ok d
      → shared_route (shared_pools w.db) routes ≡ some d
  unfolding select_shared
  select_shared-ok provider routes w d h =
      let load : Action R (List IpPool) =
        wrapping "load shared pools" (query env (λ _. shared_pools)) in
      let (pools, e, f) =
        >>=-ok load (λ pools. or_raise (acts env) (shared_route pools routes) provider) w h in
      let read : pools ≡ shared_pools w.db =
        load-ok env "load shared pools" (λ _. shared_pools) w e in
      rw (← read) (or_raise-ok env (shared_route pools routes) provider (load w).1 d f)

  or_shared-ok :
      (o : Option Decision) (provider : String) (routes : List Route) (w : World R) (d : Decision)
      → (or_shared (acts env) o provider routes w).0 ≡ ok d
      → (o ≡ some d) ⊎ ((o ≡ none) × (shared_route (shared_pools w.db) routes ≡ some d))
  or_shared-ok none provider routes w d h = inr (refl, select_shared-ok provider routes w d h)
  or_shared-ok (some x) provider routes w d h = inl (cc)

  select_pool-ok :
      (customer provider : String) (routes : List Route) (w : World R) (d : Decision)
      → (select_pool (acts env) customer provider routes w).0 ≡ ok d
      → ChosenFrom (dedicated_pool customer w.db) w.db routes d
  unfolding select_pool
  select_pool-ok customer provider routes w d h =
      let load : Action R (Option IpPool) =
        wrapping "load dedicated pool" (query env (λ _. dedicated_pool customer)) in
      let (own, e, f) =
        >>=-ok load (λ own. or_shared (acts env) (pinned own routes) provider routes) w h in
      let read = load-ok env "load dedicated pool" (λ _. dedicated_pool customer) w e in
      let same = load-db env "load dedicated pool" (λ _. dedicated_pool customer) w in
      subst (λ db. ChosenFrom (dedicated_pool customer w.db) db routes d) same
        (subst (λ o. ChosenFrom o (load w).1.db routes d) read
          (or_shared-ok (pinned own routes) provider routes (load w).1 d f))

  if_routes-ok :
      (b : Bool) (provider customer : String) (routes : List Route) (w : World R) (d : Decision)
      → ((if b
            then raise (no_enabled_route provider)
            else select_pool (acts env) customer provider routes)
          w).0
        ≡ ok d
      → ChosenFrom (dedicated_pool customer w.db) w.db routes d
  if_routes-ok true provider customer routes w d h = cc
  if_routes-ok false provider customer routes w d h = select_pool-ok customer provider routes w d h

  pub select_route-ok :
      (msg : Message) (customer : String) (w : World R) (d : Decision)
      → (select_route (acts env) msg customer w).0 ≡ ok d
      → ChosenFrom (dedicated_pool customer w.db) w.db (routes_for (route_provider msg) w.db) d
  unfolding select_route
  select_route-ok msg customer w d h =
      let provider = route_provider msg in
      let load : Action R (List Route) =
        wrapping "load routes" (query env (λ _. routes_for provider)) in
      let (routes, e, f) =
        >>=-ok load
          (λ routes.
            if is_empty routes
            then raise (no_enabled_route provider)
            else select_pool (acts env) customer provider routes)
          w h in
      let read = load-ok env "load routes" (λ _. routes_for provider) w e in
      let same = load-db env "load routes" (λ _. routes_for provider) w in
      subst (λ db. ChosenFrom (dedicated_pool customer db) db (routes_for provider w.db) d) same
        (subst (λ r. ChosenFrom (dedicated_pool customer (load w).1.db) (load w).1.db r d) read
          (if_routes-ok (is_empty routes) provider customer routes (load w).1 d f))

  -- Whatever fails, a decision that is returned is for an enabled route of the tables for the
  -- message's provider, on the pool that is returned with it, and that pool is the customer's own
  -- dedicated pool or a shared one: never another customer's.
  pub select_route-Selected :
      (msg : Message) (customer : String) (w : World R) (d : Decision)
      → (select_route (acts env) msg customer w).0 ≡ ok d
      → Selected msg customer w.db d
  select_route-Selected msg customer w d h =
      ChosenFrom-Selected msg customer w.db d (select_route-ok msg customer w d h)

  -- When a decision is returned, and some enabled route for the provider is on the dedicated pool that
  -- the query gives for the customer (the first of the customer's, LIMIT 1), the decision is on that
  -- pool.
  pub select_route-prefers_dedicated :
      (msg : Message) (customer : String) (w : World R) (d : Decision) (p : IpPool) (r : Route)
      → (select_route (acts env) msg customer w).0 ≡ ok d
      → dedicated_pool customer w.db ≡ some p
      → Memᴰ r (routes_for (route_provider msg) w.db)
      → r.ip_pool_id ≡ some p.id
      → d.pool ≡ p
  select_route-prefers_dedicated msg customer w d p r h own there linked =
      prefers p (routes_for (route_provider msg) w.db) d r w.db
        (subst (λ o. ChosenFrom o w.db (routes_for (route_provider msg) w.db) d) own
          (select_route-ok msg customer w d h))
        there linked
