-- ===== src/Worker/Refinement/Decision.antt =====
-- Which plans `Process` in internal/worker/worker.go may choose, by what stands in the tables.
use email_delivery_engine.Prelude.{
  ℕ, ◌+◌, String, ◌≡◌, true, false, ◌&&◌, none, some, List, [], ◌∷◌,
}
use email_delivery_engine.Prelude.Int.{ℤ, pos, ◌≤ℤ◌, ◌<ℤ◌}
use email_delivery_engine.Backoff.{minute, hour}
use email_delivery_engine.Store.{Status, EventType, Message, Customer, Database, num, text}
use email_delivery_engine.Store.Query.{customer_by_id, is_suppressed, dedicated_pool, routes_for}
use email_delivery_engine.Route.{Decision, route_provider}
use email_delivery_engine.Runtime.{Env, Redis, World}
use email_delivery_engine.Route.Choice.{Selected, ChosenFrom}
use email_delivery_engine.Worker.Sending.{classification_meta}
use email_delivery_engine.Worker.Pipeline.{
  blocks_sending, blocks_marketing, is_marketing, state_name, type_name,
}
use email_delivery_engine.Worker.Plan.{Write, end_plan, hold_plan, send_plan}
use email_delivery_engine.Worker.Refinement.Attempt.{result_in}
use email_delivery_engine.Worker.Refinement.Readings.{
  Unroutable, decided_at, customer_count, pool_cap, pool_count, HasRoom, Asked,
}

-- The customer may send this message.
pub record Accepts (msg : Message) (db : Database) (c : Customer) : Type 0 where
  pub found : customer_by_id msg.customer_id db ≡ some c
  pub may_send : blocks_sending c.sending_state ≡ false
  pub may_market : (blocks_marketing c.sending_state && is_marketing msg.type) ≡ false

-- And the recipient is not on the customer's suppression list.
pub record Clear (msg : Message) (db : Database) (c : Customer) : Type 0 where
  pub accepts : Accepts msg db c
  pub open accepts use *
  pub not_suppressed : is_suppressed msg.customer_id msg.to_email db ≡ false

-- A decision that the call may have taken, and the point `k` where it was taken.
pub record Chosen {R : Type 0} (msg : Message) (start : World R) (d : Decision) (k : ℕ)
    : Type 0 where
  pub selected : Selected msg msg.customer_id start.db d
  pub chosen_from :
      ChosenFrom
        (dedicated_pool msg.customer_id start.db)
        start.db
        (routes_for (route_provider msg) start.db)
        d
  pub taken_at : k ≡ decided_at start.tick msg start.db

-- A plan that the tables and the answers give a call for the message `msg` that began in `start`. A
-- decision is at the point `k` where the call reads the clock, and its time is `env.clock k`.
pub data Plan {R : Type 0} (redis : Redis R) (env : Env) (max_attempts : ℤ) (msg : Message)
    (start : World R) (plan : List Write) : Type 0 where
  no_customer :
      customer_by_id msg.customer_id start.db ≡ none
      → plan
        ≡ end_plan msg Status.failed EventType.bounced "" (some (classification_meta "no_customer"))
      → Plan redis env max_attempts msg start plan
  customer_blocked :
      (c : Customer)
      → customer_by_id msg.customer_id start.db ≡ some c
      → blocks_sending c.sending_state ≡ true
      → plan
        ≡ end_plan msg Status.blocked EventType.blocked_by_abuse_control
            "customer_blocked_from_sending"
            (some (("sending_state", text (state_name c.sending_state)) ∷ []))
      → Plan redis env max_attempts msg start plan
  marketing_blocked :
      (c : Customer)
      → customer_by_id msg.customer_id start.db ≡ some c
      → (blocks_marketing c.sending_state && is_marketing msg.type) ≡ true
      → plan
        ≡ end_plan msg Status.blocked EventType.blocked_by_abuse_control
            "customer_blocked_from_marketing"
            (some (
              ("sending_state", text (state_name c.sending_state))
              ∷ ("type", text (type_name msg.type))
              ∷ []))
      → Plan redis env max_attempts msg start plan
  recipient_suppressed :
      (c : Customer)
      → Accepts msg start.db c
      → is_suppressed msg.customer_id msg.to_email start.db ≡ true
      → plan
        ≡ end_plan msg Status.suppressed EventType.suppressed "recipient_on_suppression_list" none
      → Plan redis env max_attempts msg start plan
  no_route :
      (c : Customer)
      → Clear msg start.db c
      → Unroutable env msg start.db (start.tick + 3)
      → plan
        ≡ end_plan msg Status.failed EventType.bounced "" (some (classification_meta "no_route"))
      → Plan redis env max_attempts msg start plan
  at_daily_cap :
      (c : Customer) (d : Decision) (k : ℕ)
      → Clear msg start.db c
      → Chosen msg start d k
      → pos 0 <ℤ c.daily_send_cap
      → c.daily_send_cap ≤ℤ pos (customer_count env msg start.db k)
      → plan
        ≡ hold_plan msg d (env.clock k + hour) "daily_send_cap" (
            ("daily_send_cap", num c.daily_send_cap)
            ∷ ("sent_today", num (pos (customer_count env msg start.db k)))
            ∷ [])
      → Plan redis env max_attempts msg start plan
  at_pool_cap :
      (c : Customer) (d : Decision) (k : ℕ)
      → Clear msg start.db c
      → Chosen msg start d k
      → (pos 0 <ℤ c.daily_send_cap → pos (customer_count env msg start.db k) <ℤ c.daily_send_cap)
      → pos 0 ≤ℤ pool_cap env d k
      → pool_cap env d k ≤ℤ pos (pool_count env start.db c d k)
      → plan
        ≡ hold_plan msg d (env.clock k + hour) "warmup_limit" (
            ("cap", num (pool_cap env d k))
            ∷ ("sent_today", num (pos (pool_count env start.db c d k)))
            ∷ [])
      → Plan redis env max_attempts msg start plan
  throttled :
      (c : Customer) (d : Decision) (k : ℕ) (scope : String)
      → Clear msg start.db c
      → Chosen msg start d k
      → HasRoom env msg start.db c d k
      → Asked redis env msg start c d k (some scope)
      → plan
        ≡ hold_plan msg d
            (env.clock k + minute)
            "rate_limited"
            (("throttle_scope", text scope) ∷ [])
      → Plan redis env max_attempts msg start plan
  sent :
      (c : Customer) (d : Decision) (k roll draw : ℕ)
      → Clear msg start.db c
      → Chosen msg start d k
      → HasRoom env msg start.db c d k
      → Asked redis env msg start c d k none
      → plan ≡ send_plan max_attempts msg d (env.clock k) (result_in msg start.db roll) draw
      → Plan redis env max_attempts msg start plan
