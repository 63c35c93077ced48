-- ===== src/Interleaving/Reading.antt =====
-- The parts of `Process` of internal/worker/worker.go that only read: the selection of a route and the
-- throttles.
use email_delivery_engine.Prelude.{String, Option, none, some, List, [], ◌∷◌}
use email_delivery_engine.Prelude.Int.{ℤ}
use email_delivery_engine.Classify.{}
use email_delivery_engine.Store.{Message, Route, ThrottleRule}
use email_delivery_engine.Throttle.{allow}
use email_delivery_engine.Route.{
  Decision, or_raise, select_shared, or_shared, select_pool, select_route,
}
use email_delivery_engine.Runtime.Interface.{Ops, Limiter}
use email_delivery_engine.Worker.Sending.{}
use email_delivery_engine.Worker.Pipeline.{applies, check_rules, check_throttles}
use email_delivery_engine.Interleaving.Course.{Stage, Course}

module _ {M : Type 0 → Type 0} (limiter : Limiter M) (ops : Ops M) (max : ℤ) (msg : Message)
    (Passes : (A : Type 0) → M A → Type 0) (Goes : Stage → Stage → (A : Type 0) → M A → Type 0)
    (c : Course limiter ops max msg Passes Goes) where
  on_or_raise : (o : Option Decision) (provider : String) → Passes _ (or_raise ops o provider)
  on_or_raise none provider = c.passes_fail _
  on_or_raise (some d) provider = c.passes_return d

  on_or_shared :
      (o : Option Decision) (provider : String) (routes : List Route)
      → Passes _ (or_shared ops o provider routes)
  unfolding select_shared
  on_or_shared (some d) provider routes = c.passes_return d
  on_or_shared none provider routes =
      search (c.passes_bind, c.passes_wrapping, c.passes_query, on_or_raise) depth 9

  pub on_select_route : (customer : String) → Passes _ (select_route ops msg customer)
  unfolding select_route select_pool
  on_select_route customer =
      search
        (c.passes_bind, c.passes_if, c.passes_wrapping, c.passes_query, c.passes_fail, on_or_shared)
        depth 9

  on_allow : (scope key : String) (limit : ℤ) → Passes _ (allow limiter ops scope key limit)
  unfolding allow
  on_allow scope key limit =
      search
        (
          c.passes_return, c.passes_bind, c.passes_if, c.passes_wrapping, c.passes_now,
          c.passes_incr, c.passes_expire,
        )
        depth 9

  on_check_rules :
      (rs : List ThrottleRule) (d : Decision) → Passes _ (check_rules limiter ops rs msg d)
  unfolding check_rules
  on_check_rules [] d = c.passes_return _
  on_check_rules (r ∷ rs) d =
      let rest : Passes _ (check_rules limiter ops rs msg d) = on_check_rules rs d in
      c.passes_if (applies r msg d) _ _
        (c.passes_bind _ _ (on_allow r.scope r.scope_key r.messages_per_minute)
          (λ verdict. c.passes_if verdict.allowed _ _ rest (c.passes_return _)))
        rest

  pub on_check_throttles : (d : Decision) → Passes _ (check_throttles limiter ops msg d)
  unfolding check_throttles
  on_check_throttles d =
      search (c.passes_bind, c.passes_wrapping, c.passes_query, on_check_rules) depth 9
