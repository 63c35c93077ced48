-- ===== src/Worker/Refinement/Steps.antt =====
-- Steps 4 to 6 of `Process` in internal/worker/worker.go refine the plans.
use email_delivery_engine.Runtime.Interface.{acts}
use email_delivery_engine.Throttle.{commands}
use email_delivery_engine.Prelude.{
  suc, ℕ, ◌+◌, String, ◌≡◌, refl, ap, subst, ◌∙◌, Option, none, some, [], ◌∷◌, arith, if◌then◌else◌,
}
use email_delivery_engine.Prelude.Int.{ℤ, pos, ◌<ℤ◌, ltb_ℤ, leb_ℤ}
use email_delivery_engine.Backoff.{minute, hour}
use email_delivery_engine.Store.{Message, Customer, Database, num, text}
use email_delivery_engine.Store.Query.{customer_sends_today, pool_sends_today}
use email_delivery_engine.Route.{Decision}
use email_delivery_engine.Route.Choice.{}
use email_delivery_engine.Runtime.{Env, Redis, World, Action, wrapping, query, count, ◌>>=◌, ◌>>◌}
use email_delivery_engine.Runtime.Rules.{KeepsDb}
use email_delivery_engine.Worker.Sending.{reschedule, send}
use email_delivery_engine.Worker.Pipeline.{
  check_throttles, after_throttles, throttle_step, warmup_step, cap_step,
}
use email_delivery_engine.Worker.Plan.{hold_plan, send_plan}
use email_delivery_engine.Worker.Refinement.Endings.{reschedule-Writes}
use email_delivery_engine.Worker.Refinement.Attempt.{result_in, send-Writes}
use email_delivery_engine.Worker.Refinement.Readings.{
  Reached, pool_count_at, rules_at, customer_count, pool_cap, pool_count, HasRoom, Asked, Checked,
}
use email_delivery_engine.Worker.Refinement.Decision.{
  Clear, Chosen, at_daily_cap, at_pool_cap, throttled, sent,
}
use email_delivery_engine.Worker.Refinement.Throttling.{check_throttles-Checked}
use email_delivery_engine.Worker.Refinement.Outcome.{
  Refines, from_Writes, Refines-silent, Refines-load, Refines-if, Refines-count, Refines-now,
}
use email_delivery_engine.Worker.Refinement.Silent.{KeepsDb-check_throttles}

module _ {R : Type 0} (redis : Redis R) (env : Env) (max_attempts : ℤ) (msg : Message)
    (start : World R) (c : Customer) (clear : Clear msg start.db c) where
  module _ (d : Decision) (k : ℕ) (chosen : Chosen msg start d k) where
    abbrev t : ℕ
    t = env.clock k

    after_throttles-Refines :
        HasRoom env msg start.db c d k
        → (verdict : Option String) → Asked redis env msg start c d k verdict
        → (w : World R) → w.db ≡ start.db
        → Refines redis env max_attempts msg start
            (after_throttles (commands redis) (acts env) max_attempts msg d t verdict w)
    after_throttles-Refines room none asked w same =
        let (roll, draw, writes) = send-Writes env max_attempts msg d t w in
        from_Writes redis env max_attempts msg start _ (send (acts env) max_attempts msg d t) w same
          (sent c d k roll draw clear chosen room asked
            (ap (λ b. send_plan max_attempts msg d t (result_in msg b roll) draw) same))
          writes
    after_throttles-Refines room (some scope) asked w same =
        let meta = ("throttle_scope", text scope) ∷ [] in
        Refines-count redis env max_attempts msg start "messages_throttled_total"
          (hold_plan msg d (t + minute) "rate_limited" meta)
          (reschedule (acts env) msg d (t + minute) "rate_limited" meta) w same
          (throttled c d k scope clear chosen room asked refl)
          (reschedule-Writes env msg d (t + minute) "rate_limited" meta)

    throttle_step-Refines :
        HasRoom env msg start.db c d k
        → (w : World R) → Reached start (rules_at (pool_cap env d k) (pool_count_at c k)) w
        → Refines redis env max_attempts msg start
            (throttle_step (commands redis) (acts env) max_attempts msg d t w)
    unfolding throttle_step
    throttle_step-Refines room w here =
        let check : Action R (Option String) = check_throttles (commands redis) (acts env) msg d in
        let keeps : KeepsDb check = KeepsDb-check_throttles redis env msg d in
        Refines-silent redis env max_attempts msg start check
          (after_throttles (commands redis) (acts env) max_attempts msg d t) w keeps here.same_db
          (λ verdict e.
            after_throttles-Refines room verdict
              (subst
                (λ (b : Database).
                  Checked redis env msg d b.throttle_rules
                    (suc (rules_at (pool_cap env d k) (pool_count_at c k))) start.redis verdict)
                here.same_db
                (check_throttles-Checked redis env msg d _ start.redis w verdict here.at_tick
                  here.same_redis e))
              (check w).1 (keeps.at w ∙ here.same_db))

    warmup_step-Refines :
        (pos 0 <ℤ c.daily_send_cap → pos (customer_count env msg start.db k) <ℤ c.daily_send_cap)
        → (w : World R) → Reached start (pool_count_at c k) w
        → Refines redis env max_attempts msg start
            (warmup_step (commands redis) (acts env) max_attempts msg d t w)
    unfolding warmup_step
    warmup_step-Refines room w here =
        let cap = pool_cap env d k in
        let n = pool_count env start.db c d k in
        Refines-if redis env max_attempts msg start (leb_ℤ (pos 0) cap) _ _ w
          (λ capped.
            Refines-load redis env max_attempts msg start "count pool sends"
              (pool_sends_today d.pool.id) _ (pool_count_at c k) w here
              λ v there.
                Refines-if redis env max_attempts msg start (leb_ℤ cap (pos n)) _ _ v
                  (λ full.
                    let meta = ("cap", num cap) ∷ ("sent_today", num (pos n)) ∷ [] in
                    Refines-count redis env max_attempts msg start "messages_throttled_total"
                      (hold_plan msg d (t + hour) "warmup_limit" meta)
                      (reschedule (acts env) msg d (t + hour) "warmup_limit" meta) v there.same_db
                      (at_pool_cap c d k clear chosen room (ground arith) (ground arith) refl)
                      (reschedule-Writes env msg d (t + hour) "warmup_limit" meta))
                  (λ free.
                    throttle_step-Refines
                      (record { customer_room = room; pool_room = λ h. ground arith }) v
                      (rw capped there)))
          (λ uncapped.
            throttle_step-Refines
              (record { customer_room = room; pool_room = λ h. absurd (ground arith) }) w
              (rw uncapped here))

    after_clock-Refines :
        (w : World R)
        → Reached start (suc k) w
        → Refines redis env max_attempts msg start (
            (if ltb_ℤ (pos 0) c.daily_send_cap
                then (wrapping "count customer sends"
                      (query env (customer_sends_today msg.customer_id))
                    >>= λ sent.
                        if leb_ℤ c.daily_send_cap (pos sent)
                        then (count "messages_throttled_total"
                            >> reschedule (acts env) msg d (t + hour) "daily_send_cap" (
                                ("daily_send_cap", num c.daily_send_cap)
                                ∷ ("sent_today", num (pos sent))
                                ∷ []))
                        else warmup_step (commands redis) (acts env) max_attempts msg d t)
                else warmup_step (commands redis) (acts env) max_attempts msg d t)
              w)
    after_clock-Refines w here =
        let n = customer_count env msg start.db k in
        Refines-if redis env max_attempts msg start (ltb_ℤ (pos 0) c.daily_send_cap) _ _ w
          (λ capped.
            Refines-load redis env max_attempts msg start "count customer sends"
              (customer_sends_today msg.customer_id) _ (suc k) w here
              λ v there.
                Refines-if redis env max_attempts msg start (leb_ℤ c.daily_send_cap (pos n)) _ _ v
                  (λ full.
                    let meta =
                      ("daily_send_cap", num c.daily_send_cap) ∷ ("sent_today", num (pos n)) ∷ [] in
                    Refines-count redis env max_attempts msg start "messages_throttled_total"
                      (hold_plan msg d (t + hour) "daily_send_cap" meta)
                      (reschedule (acts env) msg d (t + hour) "daily_send_cap" meta) v there.same_db
                      (at_daily_cap c d k clear chosen (ground arith) (ground arith) refl)
                      (reschedule-Writes env msg d (t + hour) "daily_send_cap" meta))
                  (λ free. warmup_step-Refines (λ h. ground arith) v (rw capped there)))
          (λ uncapped. warmup_step-Refines (λ h. absurd (ground arith)) w (rw uncapped here))

  pub cap_step-Refines :
      (d : Decision) (k : ℕ)
      → Chosen msg start d k
      → (w : World R) → Reached start k w
      → Refines redis env max_attempts msg start
          (cap_step (commands redis) (acts env) max_attempts msg c d w)
  unfolding cap_step
  cap_step-Refines d k chosen w here =
      Refines-now redis env max_attempts msg start _ k w here (after_clock-Refines d k chosen)
