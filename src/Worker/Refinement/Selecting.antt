-- ===== src/Worker/Refinement/Selecting.antt =====
-- When `Select` of internal/route/route.go ends, and why it fails, on behalf of `Process`.
use email_delivery_engine.Runtime.Interface.{acts}
use email_delivery_engine.Prelude.{
  ℕ, suc, ◌+◌, ◌≡◌, refl, subst, inl, inr, true, Option, none, some, List, arith, Bool-cases,
}
use email_delivery_engine.Store.{Message, Route}
use email_delivery_engine.Store.Query.{routes_for, shared_pools}
use email_delivery_engine.Route.{
  Decision, shared_route, route_provider, is_empty, select_shared, select_pool, select_route,
  or_raise, or_shared,
}
use email_delivery_engine.Runtime.{
  Env, World, Result, ok, err, Error, ◌>>=◌, wrapping, query, fails,
}
use email_delivery_engine.Worker.Refinement.Readings.{
  own_route, selection_reads, Unroutable, routes_unread, no_enabled_route, own_pool_unread,
  shared_pools_unread, no_route_on_pool,
}

-- The end of a selection that began at the point `t`.
pub record Ends {R : Type 0} (env : Env) (msg : Message) (w : World R)
    (out : Result Decision × World R) : Type 0 where
  pub kept_redis : out.1.redis ≡ w.redis
  pub after_reads :
      (d : Decision) → out.0 ≡ ok d → out.1.tick ≡ w.tick + selection_reads (own_route msg w.db)
  pub why : (e : Error) → out.0 ≡ err e → Unroutable env msg w.db w.tick

module _ {R : Type 0} (env : Env) (msg : Message) (w : World R) where
  abbrev routes : List Route
  routes = routes_for (route_provider msg) w.db

  -- The world after `n` reads.
  abbrev after : ℕ → World R
  after n = record w { tick = n }

  failing : (e : Error) (n : ℕ) → Unroutable env msg w.db w.tick → Ends env msg w (err e, after n)
  failing e n reason = record { kept_redis = refl; after_reads = λ d h. cc h; why = λ _ _. reason }

  deciding :
      (d : Decision) (n : ℕ)
      → n ≡ w.tick + selection_reads (own_route msg w.db)
      → Ends env msg w (ok d, after n)
  deciding d n h = record { kept_redis = refl; after_reads = λ _ _. h; why = λ e h. cc h }

  or_raise-Ends :
      (o : Option Decision)
      → own_route msg w.db ≡ none
      → shared_route (shared_pools w.db) routes ≡ o
      → Ends env msg w (or_raise (acts env) o (route_provider msg) (after (suc (suc (suc w.tick)))))
  or_raise-Ends none own nothing = failing _ _ (no_route_on_pool own nothing)
  or_raise-Ends (some d) own found = deciding d _ (rw own (omega arith))

  or_shared-Ends :
      (o : Option Decision)
      → own_route msg w.db ≡ o
      → Ends env msg w
          (or_shared (acts env) o (route_provider msg) routes (after (suc (suc w.tick))))
  unfolding select_shared ◌>>=◌ wrapping query
  or_shared-Ends (some d) own = deciding d _ (rw own (omega arith))
  or_shared-Ends none own = elim (Bool-cases (fails (env.answer (suc (suc w.tick))))) [
    | inl t ↦ rw t (
        failing _ _ (
          shared_pools_unread own (
            subst (λ n. fails (env.answer n) ≡ true) {x = suc (suc w.tick)} {y = w.tick + 2}
              (omega arith) t)))
    | inr f ↦ rw f (or_raise-Ends (shared_route (shared_pools w.db) routes) own refl)
  ]

  pub select_route-Ends : Ends env msg w (select_route (acts env) msg msg.customer_id w)
  unfolding select_route select_pool ◌>>=◌ wrapping query
  select_route-Ends = elim (Bool-cases (fails (env.answer w.tick))) [
    | inl t ↦ rw t (failing _ _ (routes_unread t))
    | inr f ↦ elim (Bool-cases (is_empty routes)) [
      | inl none_enabled ↦ rw (f, none_enabled) (failing _ _ (no_enabled_route none_enabled))
      | inr enabled ↦ elim (Bool-cases (fails (env.answer (suc w.tick)))) [
        | inl t ↦
            rw (f, enabled, t)
              (failing _ _ (
                own_pool_unread (
                  subst (λ n. fails (env.answer n) ≡ true) {x = suc w.tick} {y = w.tick + 1}
                    (omega arith) t)))
        | inr g ↦ rw (f, enabled, g) (or_shared-Ends (own_route msg w.db) refl)
      ]
    ]
  ]
