-- ===== src/Worker/Refinement/Routing.antt =====
-- Step 3 of `Process` in internal/worker/worker.go, and what follows it, refine the plans.
use email_delivery_engine.Runtime.Interface.{acts}
use email_delivery_engine.Throttle.{commands}
use email_delivery_engine.Prelude.{◌+◌, ◌≡◌, refl, subst, ◌∙◌}
use email_delivery_engine.Prelude.Int.{ℤ}
use email_delivery_engine.Store.{Status, EventType, Message, Customer}
use email_delivery_engine.Store.Query.{dedicated_pool, routes_for}
use email_delivery_engine.Route.{Decision, select_route, route_provider}
use email_delivery_engine.Route.Choice.{
  Selected, select_route-Selected, select_route-ok, ChosenFrom,
}
use email_delivery_engine.Runtime.{Env, Redis, World, Result, ok, err, Error, caught, ◌>>=◌}
use email_delivery_engine.Worker.Sending.{classification_meta, terminate}
use email_delivery_engine.Worker.Pipeline.{after_route, route_step}
use email_delivery_engine.Worker.Refinement.Endings.{terminate-Writes}
use email_delivery_engine.Worker.Refinement.Readings.{Reached, Unroutable, decided_at}
use email_delivery_engine.Worker.Refinement.Selecting.{select_route-Ends}
use email_delivery_engine.Worker.Refinement.Decision.{Clear, Chosen, no_route}
use email_delivery_engine.Worker.Refinement.Outcome.{Refines, from_Writes}
use email_delivery_engine.Worker.Refinement.Silent.{KeepsDb-select_route}
use email_delivery_engine.Worker.Refinement.Steps.{cap_step-Refines}

module _ {R : Type 0} (redis : Redis R) (env : Env) (max_attempts : ℤ) (msg : Message)
    (start : World R) (c : Customer) (clear : Clear msg start.db c) where
  -- What a selection that began in `w` gives to the rest.
  record Given (decision : Result Decision) (w : World R) : Type 0 where
    pub given_db : w.db ≡ start.db
    pub given :
        (d : Decision)
        → decision ≡ ok d
        → Chosen msg start d (decided_at start.tick msg start.db)
          × Reached start (decided_at start.tick msg start.db) w
    pub refused : (e : Error) → decision ≡ err e → Unroutable env msg start.db (start.tick + 3)

  after_route-Refines :
      (decision : Result Decision) (w : World R)
      → Given decision w
      → Refines redis env max_attempts msg start
          (after_route (commands redis) (acts env) max_attempts msg c decision w)
  after_route-Refines (ok d) w g =
      let (chosen, here) = g.given d refl in
      cap_step-Refines redis env max_attempts msg start c clear d _ chosen w here
  after_route-Refines (err e) w g =
      let meta = classification_meta "no_route" in
      from_Writes redis env max_attempts msg start _
        (terminate (acts env) msg Status.failed EventType.bounced "" meta) w g.given_db
        (no_route c clear (g.refused e refl) refl)
        (terminate-Writes env msg Status.failed EventType.bounced meta w)

  select_route-Given :
      (w : World R)
      → Reached start (start.tick + 3) w
      → Given
          (select_route (acts env) msg msg.customer_id w).0
          (select_route (acts env) msg msg.customer_id w).1
  select_route-Given w here =
      let ends = select_route-Ends env msg w in
      let kept = (KeepsDb-select_route redis env msg msg.customer_id).at w in
      record {
        given_db = kept ∙ here.same_db;
        given = λ d e. (
          record {
            selected =
                subst (λ b. Selected msg msg.customer_id b d) here.same_db
                  (select_route-Selected env msg msg.customer_id w d e);
            chosen_from =
                subst
                  (λ b.
                    ChosenFrom (dedicated_pool msg.customer_id b) b
                      (routes_for (route_provider msg) b) d)
                  here.same_db (select_route-ok env msg msg.customer_id w d e);
            taken_at = refl;
          },
          record {
            same_db = kept ∙ here.same_db;
            same_redis = ends.kept_redis ∙ here.same_redis;
            at_tick = rw (← here.same_db, ← here.at_tick) (ends.after_reads d e);
          },
        );
        refused = λ e h. rw (← here.same_db, ← here.at_tick) (ends.why e h);
      }

  pub route_step-Refines :
      (w : World R)
      → Reached start (start.tick + 3) w
      → Refines redis env max_attempts msg start
          (route_step (commands redis) (acts env) max_attempts msg c w)
  unfolding route_step caught ◌>>=◌
  route_step-Refines w here =
      after_route-Refines (select_route (acts env) msg msg.customer_id w).0
        (select_route (acts env) msg msg.customer_id w).1 (select_route-Given w here)
