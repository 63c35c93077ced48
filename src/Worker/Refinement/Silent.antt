-- ===== src/Worker/Refinement/Silent.antt =====
-- Route selection and throttles, in internal/route/route.go, internal/throttle/throttle.go and
-- internal/worker/worker.go, leave the database as it is.
use email_delivery_engine.Runtime.Interface.{acts}
use email_delivery_engine.Throttle.{commands}
use email_delivery_engine.Prelude.{ℕ, String, refl, Option, none, some, List, [], ◌∷◌}
use email_delivery_engine.Prelude.Int.{ℤ}
use email_delivery_engine.Store.{Message, ThrottleRule, Route}
use email_delivery_engine.Store.Query.{}
use email_delivery_engine.Route.{Decision, select_route}
use email_delivery_engine.Runtime.{Env, Redis}
use email_delivery_engine.Runtime.Rules.{KeepsDb}
use email_delivery_engine.Worker.Sending.{}
use email_delivery_engine.Worker.Pipeline.{check_throttles}
use email_delivery_engine.Worker.Refinement.Endings.{}
use email_delivery_engine.Worker.Refinement.Decision.{}
use email_delivery_engine.Runtime.Rules.{keeps_rules, KeepsDb-bind, KeepsDb-pure, KeepsDb-if}
use email_delivery_engine.Throttle.{allow, incr, expire}
use email_delivery_engine.Route.{select_shared, select_pool, or_raise, or_shared}
use email_delivery_engine.Worker.Pipeline.{check_rules, applies}
use email_delivery_engine.Worker.Refinement.Outcome.{}

module _ {R : Type 0} (redis : Redis R) (env : Env) where
  KeepsDb-incr : (key : String) → KeepsDb (incr redis key)
  unfolding incr
  KeepsDb-incr key = record { at = λ w. refl }

  KeepsDb-expire : (key : String) (n : ℕ) → KeepsDb (expire redis key n)
  unfolding expire
  KeepsDb-expire key n = record { at = λ w. refl }

  pub KeepsDb-allow :
      (scope key : String) (limit : ℤ) → KeepsDb (allow (commands redis) (acts env) scope key limit)
  unfolding allow
  KeepsDb-allow scope key limit = search (keeps_rules, KeepsDb-incr, KeepsDb-expire) depth 9

  KeepsDb-check_rules :
      (rs : List ThrottleRule) (msg : Message) (d : Decision)
      → KeepsDb (check_rules (commands redis) (acts env) rs msg d)
  unfolding check_rules
  KeepsDb-check_rules [] msg d = search keeps_rules
  KeepsDb-check_rules (r ∷ rs) msg d =
      let ih : KeepsDb (check_rules (commands redis) (acts env) rs msg d) =
        KeepsDb-check_rules rs msg d in
      KeepsDb-if (applies r msg d) _ _
        (KeepsDb-bind _ _ (KeepsDb-allow r.scope r.scope_key r.messages_per_minute)
          (λ verdict. KeepsDb-if verdict.allowed _ _ ih (KeepsDb-pure _)))
        ih

  pub KeepsDb-check_throttles :
      (msg : Message) (d : Decision) → KeepsDb (check_throttles (commands redis) (acts env) msg d)
  unfolding check_throttles
  KeepsDb-check_throttles msg d = search (keeps_rules, KeepsDb-check_rules) depth 9

  KeepsDb-or_raise :
      (o : Option Decision) (provider : String)
      → KeepsDb {R = R} (or_raise (acts {R = R} env) o provider)
  KeepsDb-or_raise none provider = search keeps_rules
  KeepsDb-or_raise (some d) provider = search keeps_rules

  KeepsDb-or_shared :
      (o : Option Decision) (provider : String) (routes : List Route)
      → KeepsDb {R = R} (or_shared (acts env) o provider routes)
  unfolding select_shared
  KeepsDb-or_shared (some d) provider routes = search keeps_rules
  KeepsDb-or_shared none provider routes = search (keeps_rules, KeepsDb-or_raise) depth 9

  pub KeepsDb-select_route :
      (msg : Message) (customer : String) → KeepsDb {R = R} (select_route (acts env) msg customer)
  unfolding select_route select_pool
  KeepsDb-select_route msg customer = search (keeps_rules, KeepsDb-or_shared) depth 12
