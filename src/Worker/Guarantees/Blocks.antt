-- ===== src/Worker/Guarantees/Blocks.antt =====
-- Whom a call of `Process` in internal/worker/worker.go never sends to or for.
use email_delivery_engine.Runtime.Interface.{acts}
use email_delivery_engine.Throttle.{commands}
use email_delivery_engine.Prelude.{String, ◌≡◌, subst, ◌⊎◌, inl, inr, true, ◌&&◌, some, ap}
use email_delivery_engine.Prelude.Int.{ℤ}
use email_delivery_engine.Store.{Message, Customer, Database}
use email_delivery_engine.Store.Query.{message_by_id, customer_by_id, is_suppressed}
use email_delivery_engine.Runtime.{Env, Redis, World}
use email_delivery_engine.Worker.Pipeline.{blocks_sending, blocks_marketing, is_marketing, process}
use email_delivery_engine.Worker.Guarantees.Sends.{Sent, process-sends_once}

-- A reason not to send that stands in the tables.
pub data Barred (msg : Message) (db : Database) : Type 0 where
  suppressed_recipient : is_suppressed msg.customer_id msg.to_email db ≡ true → Barred msg db
  blocked_customer :
      (c : Customer)
      → customer_by_id msg.customer_id db ≡ some c
      → blocks_sending c.sending_state ≡ true
      → Barred msg db
  blocked_marketing :
      (c : Customer)
      → customer_by_id msg.customer_id db ≡ some c
      → (blocks_marketing c.sending_state && is_marketing msg.type) ≡ true
      → Barred msg db

Sent-not_Barred :
    {R : Type 0} {redis : Redis R} {env : Env} (msg : Message) (w : World R) (after : Database)
    → Sent redis env msg w after
    → ¬ Barred msg w.db
Sent-not_Barred msg w after s (suppressed_recipient h) = cc (s.clear.not_suppressed, h)
Sent-not_Barred msg w after s (blocked_customer c found h) =
    let e : s.customer ≡ c = cc (s.clear.accepts.found, found) in
    cc (ap (λ (x : Customer). blocks_sending x.sending_state) e, s.clear.accepts.may_send, h)
Sent-not_Barred msg w after s (blocked_marketing c found h) =
    let e : s.customer ≡ c = cc (s.clear.accepts.found, found) in
    cc (
      ap (λ (x : Customer). blocks_marketing x.sending_state && is_marketing msg.type) e,
      s.clear.accepts.may_market,
      h,
    )

module _ {R : Type 0} (redis : Redis R) (env : Env) (max_attempts : ℤ) (key : String) (w : World R)
    (msg : Message) (stored : message_by_id key w.db ≡ some msg) where
  same_attempts :
      (after : Database)
      → Barred msg w.db
      → (after.attempts ≡ w.db.attempts)
        ⊎ ((m : Message) × (message_by_id key w.db ≡ some m) × Sent redis env m w after)
      → after.attempts ≡ w.db.attempts
  same_attempts after barred (inl same) = same
  same_attempts after barred (inr (m, found, s)) =
      let e : m ≡ msg = cc (stored, found) in
      absurd (Sent-not_Barred msg w after (subst (λ x. Sent redis env x w after) e s) barred)

  -- Whatever fails, a call makes no attempt for a message whose recipient is on its customer's
  -- suppression list, whose customer is blocked from sending, or which is marketing of a customer
  -- who is blocked from marketing.
  pub process-Barred :
      Barred msg w.db
      → (process (commands redis) (acts env) max_attempts key w).1.db.attempts ≡ w.db.attempts
  process-Barred barred =
      same_attempts (process (commands redis) (acts env) max_attempts key w).1.db barred
        (process-sends_once redis env max_attempts key w)
