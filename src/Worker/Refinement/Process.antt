-- ===== src/Worker/Refinement/Process.antt =====
-- `Process` in internal/worker/worker.go refines the plans.
use email_delivery_engine.Runtime.Interface.{acts}
use email_delivery_engine.Throttle.{commands}
use email_delivery_engine.Prelude.{
  ℕ, suc, ◌+◌, subst, String, ◌≡◌, refl, ◌⊎◌, inl, inr, true, false, ◌&&◌, Option, none, some, [],
  ◌∷◌, arith, Bool-cases,
}
use email_delivery_engine.Prelude.Int.{ℤ}
use email_delivery_engine.Store.{Status, EventType, Message, Customer, text}
use email_delivery_engine.Store.Query.{message_by_id, customer_by_id, is_suppressed}
use email_delivery_engine.Runtime.{
  Env, Redis, World, Result, ok, err, Action, continue, ◌>>=◌, wrapping, query, skips,
}
use email_delivery_engine.Runtime.Rules.{is_ok}
use email_delivery_engine.Worker.Sending.{classification_meta, terminate_event, terminate}
use email_delivery_engine.Worker.Pipeline.{
  is_terminal, blocks_sending, blocks_marketing, is_marketing, state_name, type_name,
  suppression_step, customer_step, message_step, load_message, process,
}
use email_delivery_engine.Worker.Plan.{end_plan}
use email_delivery_engine.Worker.Refinement.Endings.{terminate_event-Writes, terminate-Writes}
use email_delivery_engine.Worker.Refinement.Decision.{
  Accepts, no_customer, customer_blocked, marketing_blocked, recipient_suppressed,
}
use email_delivery_engine.Worker.Refinement.Outcome.{
  Refines, from_Writes, Refines-load, Refines-if, Refines-count,
}
use email_delivery_engine.Worker.Refinement.Readings.{Reached}
use email_delivery_engine.Worker.Refinement.Routing.{route_step-Refines}

module _ {R : Type 0} (redis : Redis R) (env : Env) (max_attempts : ℤ) (msg : Message)
    (start : World R) where
  next :
      (n : ℕ) {v : World R}
      → Reached start (suc (start.tick + n)) v
      → Reached start (start.tick + suc n) v
  next n {v} here = subst (λ m. Reached start m v) (omega arith) here

  suppression_step-Refines :
      (c : Customer)
      → Accepts msg start.db c
      → (w : World R) → Reached start (start.tick + 2) w
      → Refines redis env max_attempts msg start
          (suppression_step (commands redis) (acts env) max_attempts msg c w)
  unfolding suppression_step
  suppression_step-Refines c accepts w here =
      Refines-load redis env max_attempts msg start "check suppression"
        (λ _. is_suppressed msg.customer_id msg.to_email) _ (start.tick + 2) w here
        λ v there.
          let why : String = "recipient_on_suppression_list" in
          Refines-if redis env max_attempts msg start
            (is_suppressed msg.customer_id msg.to_email start.db) _ _ v
            (λ listed.
              Refines-count redis env max_attempts msg start "messages_suppressed_total"
                (end_plan msg Status.suppressed EventType.suppressed why none)
                (terminate_event (acts env) msg Status.suppressed EventType.suppressed "" none ""
                  why none)
                v there.same_db (recipient_suppressed c accepts listed refl)
                (terminate_event-Writes env msg Status.suppressed EventType.suppressed why none))
            (λ free.
              route_step-Refines redis env max_attempts msg start c
                (record { accepts = accepts; not_suppressed = free }) v (next 2 there))

  customer_step-Refines :
      (found : Option Customer)
      → customer_by_id msg.customer_id start.db ≡ found
      → (w : World R) → Reached start (start.tick + 2) w
      → Refines redis env max_attempts msg start
          (customer_step (commands redis) (acts env) max_attempts msg found w)
  unfolding customer_step
  customer_step-Refines none missing w here =
      let meta = classification_meta "no_customer" in
      from_Writes redis env max_attempts msg start _
        (terminate (acts env) msg Status.failed EventType.bounced "" meta) w here.same_db
        (no_customer missing refl) (terminate-Writes env msg Status.failed EventType.bounced meta w)
  customer_step-Refines (some c) found w here =
      let meta = ("sending_state", text (state_name c.sending_state)) ∷ [] in
      let why : String = "customer_blocked_from_sending" in
      let meta' =
        ("sending_state", text (state_name c.sending_state))
        ∷ ("type", text (type_name msg.type))
        ∷ [] in
      let why' : String = "customer_blocked_from_marketing" in
      let event = EventType.blocked_by_abuse_control in
      Refines-if redis env max_attempts msg start (blocks_sending c.sending_state) _ _ w
        (λ blocked.
          Refines-count redis env max_attempts msg start "abuse_blocks_total"
            (end_plan msg Status.blocked event why (some meta))
            (terminate_event (acts env) msg Status.blocked event "" none "" why (some meta)) w
            here.same_db (customer_blocked c found blocked refl)
            (terminate_event-Writes env msg Status.blocked event why (some meta)))
        (λ may_send.
          Refines-if redis env max_attempts msg start
            (blocks_marketing c.sending_state && is_marketing msg.type) _ _ w
            (λ blocked.
              Refines-count redis env max_attempts msg start "abuse_blocks_total"
                (end_plan msg Status.blocked event why' (some meta'))
                (terminate_event (acts env) msg Status.blocked event "" none "" why' (some meta')) w
                here.same_db (marketing_blocked c found blocked refl)
                (terminate_event-Writes env msg Status.blocked event why' (some meta')))
            (λ may_market.
              suppression_step-Refines c
                (record { found = found; may_send = may_send; may_market = may_market }) w here))

  -- A message that was loaded and is not terminal.
  pub message_step-Refines :
      (w : World R)
      → Reached start (start.tick + 1) w
      → is_terminal msg.status ≡ false
      → Refines redis env max_attempts msg start
          (message_step (commands redis) (acts env) max_attempts (some msg) w)
  unfolding message_step
  message_step-Refines w here live =
      Refines-if redis env max_attempts msg start (is_terminal msg.status) _ _ w
        (λ done. cc (done, live))
        (λ _.
          Refines-load redis env max_attempts msg start "load customer"
            (λ _. customer_by_id msg.customer_id) _ (start.tick + 1) w here
            λ v there.
              customer_step-Refines (customer_by_id msg.customer_id start.db) refl v (next 1 there))

-- How a call of `process` ends. It passes over a message that is not there, that another transaction
-- has locked, or that is terminal; it fails before it has read the message; or it runs a live one.
pub data Outcome {R : Type 0} (redis : Redis R) (env : Env) (max_attempts : ℤ) (key : String)
    (w : World R) (out : Result Unit × World R) : Type 0 where
  absent :
      message_by_id key w.db ≡ none → out.1.db ≡ w.db → Outcome redis env max_attempts key w out
  row_locked :
      skips (env.answer w.tick) ≡ true → out.1.db ≡ w.db → Outcome redis env max_attempts key w out
  already_terminal :
      (msg : Message)
      → message_by_id key w.db ≡ some msg
      → is_terminal msg.status ≡ true
      → out.1.db ≡ w.db
      → Outcome redis env max_attempts key w out
  unread : is_ok out.0 ≡ false → out.1.db ≡ w.db → Outcome redis env max_attempts key w out
  ran :
      (msg : Message)
      → message_by_id key w.db ≡ some msg
      → is_terminal msg.status ≡ false
      → Refines redis env max_attempts msg w out
      → Outcome redis env max_attempts key w out

module _ {R : Type 0} (redis : Redis R) (env : Env) (max_attempts : ℤ) (key : String)
    (w : World R) where
  found-Outcome :
      (o : Option Message) (v : World R)
      → message_by_id key w.db ≡ o
      → Reached w (w.tick + 1) v
      → Outcome redis env max_attempts key w
          (message_step (commands redis) (acts env) max_attempts o v)
  unfolding message_step
  found-Outcome none v e here = absent e here.same_db
  found-Outcome (some msg) v e here = elim (Bool-cases (is_terminal msg.status)) [
    | inl done ↦ already_terminal msg e done (rw done here.same_db)
    | inr live ↦ ran msg e live (message_step-Refines redis env max_attempts msg w v here live)
  ]

  after_load :
      (r : Result (Option Message)) (v : World R)
      → Reached w (w.tick + 1) v
      → ((o : Option Message)
          → r ≡ ok o
          → (skips (env.answer w.tick) ≡ true) × (o ≡ none) ⊎ (message_by_id key w.db ≡ o))
      → Outcome redis env max_attempts key w
          (continue r (message_step (commands redis) (acts env) max_attempts) v)
  unfolding message_step
  after_load (err e) v here read = unread refl here.same_db
  after_load (ok o) v here read = by_read o (read o refl)
    where
      by_read :
          (o : Option Message)
          → (skips (env.answer w.tick) ≡ true) × (o ≡ none) ⊎ (message_by_id key w.db ≡ o)
          → Outcome redis env max_attempts key w
              (message_step (commands redis) (acts env) max_attempts o v)
      by_read o (inl (locked_row, nothing)) = row_locked locked_row (rw nothing here.same_db)
      by_read o (inr found) = found-Outcome o v found here

  load_message-read :
      (o : Option Message)
      → (wrapping "load message" (load_message (commands redis) (acts env) key) w).0 ≡ ok o
      → (skips (env.answer w.tick) ≡ true) × (o ≡ none) ⊎ (message_by_id key w.db ≡ o)
  unfolding wrapping load_message query
  load_message-read o e = ground arith

  -- Whatever fails, a call of `process` leaves the database as it is, or it runs a message that it
  -- found live: then it fails before its first write, or it makes the first writes of one plan, in
  -- their order, and all of them if it returns no error. The plan is one that the tables and the
  -- answers give: it ends the message for want of a route only if a statement of the selection failed
  -- or no route is chosen among the tables' routes; it holds the message back for a cap only if the
  -- count of the day's sends, taken when the call counts, is at the cap or above; it holds it back for
  -- a throttle rule only if Redis counted more hits than a rule that applies allows, and let the
  -- message through by those before it; and it sends only
  -- if both counts were below their caps and every rule that applies let the message through.
  pub process-Outcome :
      Outcome redis env max_attempts key w (process (commands redis) (acts env) max_attempts key w)
  unfolding process ◌>>=◌
  process-Outcome =
      let load : Action R (Option Message) =
        wrapping "load message" (load_message (commands redis) (acts env) key) in
      after_load (load w).0 (load w).1
        (unfold wrapping load_message query in
          record { same_db = refl; same_redis = refl; at_tick = omega arith })
        load_message-read
