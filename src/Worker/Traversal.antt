-- ===== src/Worker/Traversal.antt =====
-- One pass through `Process` of internal/worker/worker.go, for any statement on actions that composes.
use email_delivery_engine.Runtime.Interface.{Ops, Limiter}
use email_delivery_engine.Prelude.{ℕ, String, Bool, true, false, Option, none, some, List, [], ◌∷◌}
use email_delivery_engine.Prelude.Int.{ℤ}
use email_delivery_engine.Classify.{
  Kind, delivered, hard_bounce, soft_bounce, provider_deferral, rate_limited, transient_failure,
  policy_rejection,
}
use email_delivery_engine.Simulate.{DeliveryResult}
use email_delivery_engine.Store.Query.{message_by_id}
use email_delivery_engine.Store.{Status, EventType, Message, Customer, Route, ThrottleRule}
use email_delivery_engine.Throttle.{allow}
use email_delivery_engine.Route.{
  Decision, or_raise, select_shared, or_shared, select_pool, select_route,
}
use email_delivery_engine.Runtime.{Error, Result, ok, err}
use email_delivery_engine.Runtime.Closed.{Closed}
use email_delivery_engine.Worker.Sending.{
  Metadata, update_status, write_event, terminate_event, terminate, reschedule, finish,
  schedule_retry, retry_or_bury, outcome_case, apply_outcome, record_attempt, send_marked, send,
}
use email_delivery_engine.Worker.Pipeline.{
  applies, check_rules, check_throttles, after_throttles, throttle_step, warmup_step, cap_step,
  after_route, route_step, suppression_step, customer_step, message_step, load_message, process,
}

module _ {M N : Type 0 → Type 0} (la : Limiter M) (oa : Ops M) (lb : Limiter N) (ob : Ops N)
    (Q : (A : Type 0) → M A → N A → Type 0) (c : Closed la oa lb ob Q) where
  module _ (on_fail : (e : Error) → Q Decision (oa.fail e) (ob.fail e)) where
    on_or_raise :
        (o : Option Decision) (provider : String)
        → Q _ (or_raise oa o provider) (or_raise ob o provider)
    on_or_raise none provider = on_fail _
    on_or_raise (some d) provider = c.on_return d

    on_or_shared :
        (o : Option Decision) (provider : String) (routes : List Route)
        → Q _ (or_shared oa o provider routes) (or_shared ob o provider routes)
    unfolding select_shared
    on_or_shared (some d) provider routes = c.on_return d
    on_or_shared none provider routes =
        search (c.on_bind, c.on_wrapping, c.on_query, on_or_raise) depth 9

    pub on_select_route :
        (msg : Message) (customer : String)
        → Q _ (select_route oa msg customer) (select_route ob msg customer)
    unfolding select_route select_pool
    on_select_route msg customer =
        search (c.on_bind, c.on_if, c.on_wrapping, c.on_query, on_fail, on_or_shared) depth 9

  module _
      (routes : (msg : Message) (customer : String)
        → Q _
            (oa.caught (select_route oa msg customer))
            (ob.caught (select_route ob msg customer))) where
    on_reschedule :
        (msg : Message) (d : Decision) (t : ℕ) (why : String) (meta : Metadata)
        → Q _ (reschedule oa msg d t why meta) (reschedule ob msg d t why meta)
    unfolding reschedule update_status write_event
    on_reschedule msg d t why meta = search (c.on_bind, c.on_exec) depth 9

    on_terminate_event :
        (msg : Message) (s : Status) (e : EventType) (p : String) (smtp : Option ℤ)
        (raw why : String) (meta : Option Metadata)
        → Q _
            (terminate_event oa msg s e p smtp raw why meta)
            (terminate_event ob msg s e p smtp raw why meta)
    unfolding terminate_event update_status write_event
    on_terminate_event msg s e p smtp raw why meta = search (c.on_bind, c.on_exec) depth 9

    on_terminate :
        (msg : Message) (s : Status) (e : EventType) (p : String) (meta : Metadata)
        → Q _ (terminate oa msg s e p meta) (terminate ob msg s e p meta)
    unfolding terminate
    on_terminate msg s e p meta = on_terminate_event msg s e p none "" "" (some meta)

    on_finish :
        (msg : Message) (d : Decision) (n : ℕ) (r : DeliveryResult) (s : Status) (e : EventType)
        → Q _ (finish oa msg d n r s e) (finish ob msg d n r s e)
    unfolding finish update_status write_event
    on_finish msg d n r s e = search (c.on_bind, c.on_exec) depth 9

    on_schedule_retry :
        (msg : Message) (d : Decision) (n : ℕ) (r : DeliveryResult) (t : ℕ)
        → Q _ (schedule_retry oa msg d n r t) (schedule_retry ob msg d n r t)
    unfolding schedule_retry update_status write_event
    on_schedule_retry msg d n r t = search (c.on_bind, c.on_count, c.on_exec) depth 12

    on_retry_or_bury :
        (msg : Message) (d : Decision) (n : ℕ) (r : DeliveryResult) (t : ℕ) (a : ℕ × Bool)
        → Q _ (retry_or_bury oa msg d n r t a) (retry_or_bury ob msg d n r t a)
    unfolding retry_or_bury
    on_retry_or_bury msg d n r t (delay, true) = search (c.on_bind, c.on_count, on_finish) depth 9
    on_retry_or_bury msg d n r t (delay, false) = on_schedule_retry msg d n r _

    on_outcome_case :
        (m : ℤ) (msg : Message) (d : Decision) (n : ℕ) (r : DeliveryResult) (t draw : ℕ) (k : Kind)
        → Q _ (outcome_case oa m msg d n r t draw k) (outcome_case ob m msg d n r t draw k)
    unfolding outcome_case
    on_outcome_case m msg d n r t draw delivered = search (c.on_bind, c.on_count, on_finish) depth 9
    on_outcome_case m msg d n r t draw hard_bounce =
        search (c.on_bind, c.on_wrapping, c.on_count, c.on_exec, on_finish) depth 9
    on_outcome_case m msg d n r t draw policy_rejection =
        search (c.on_bind, c.on_count, on_finish) depth 9
    on_outcome_case m msg d n r t draw soft_bounce = on_retry_or_bury msg d n r t _
    on_outcome_case m msg d n r t draw provider_deferral = on_retry_or_bury msg d n r t _
    on_outcome_case m msg d n r t draw rate_limited = on_retry_or_bury msg d n r t _
    on_outcome_case m msg d n r t draw transient_failure = on_retry_or_bury msg d n r t _

    on_record_attempt :
        (m : ℤ) (msg : Message) (d : Decision) (n t : ℕ) (r : DeliveryResult)
        → Q _ (record_attempt oa m msg d n t r) (record_attempt ob m msg d n t r)
    unfolding record_attempt apply_outcome
    on_record_attempt m msg d n t r =
        search
          (
            c.on_return, c.on_bind, c.on_if, c.on_wrapping, c.on_count, c.on_exec, c.on_random,
            on_outcome_case,
          )
          depth 12

    on_send :
        (m : ℤ) (msg : Message) (d : Decision) (t : ℕ) → Q _ (send oa m msg d t) (send ob m msg d t)
    unfolding send send_marked update_status write_event
    on_send m msg d t =
        search
          (
            c.on_bind, c.on_wrapping, c.on_count, c.on_query, c.on_exec, c.on_random,
            on_record_attempt,
          )
          depth 14

    on_allow :
        (scope key : String) (limit : ℤ)
        → Q _ (allow la oa scope key limit) (allow lb ob scope key limit)
    unfolding allow
    on_allow scope key limit =
        search (c.on_return, c.on_bind, c.on_if, c.on_wrapping, c.on_now, c.on_incr, c.on_expire)
          depth 9

    on_check_rules :
        (rs : List ThrottleRule) (msg : Message) (d : Decision)
        → Q _ (check_rules la oa rs msg d) (check_rules lb ob rs msg d)
    unfolding check_rules
    on_check_rules [] msg d = c.on_return _
    on_check_rules (r ∷ rs) msg d =
        let rest : Q _ (check_rules la oa rs msg d) (check_rules lb ob rs msg d) =
          on_check_rules rs msg d in
        c.on_if (applies r msg d) _ _ _ _
          (c.on_bind _ _ _ _ (on_allow r.scope r.scope_key r.messages_per_minute)
            (λ verdict. c.on_if verdict.allowed _ _ _ _ rest (c.on_return _)))
          rest

    on_check_throttles :
        (msg : Message) (d : Decision)
        → Q _ (check_throttles la oa msg d) (check_throttles lb ob msg d)
    unfolding check_throttles
    on_check_throttles msg d = search (c.on_bind, c.on_wrapping, c.on_query, on_check_rules) depth 9

    on_after_throttles :
        (m : ℤ) (msg : Message) (d : Decision) (t : ℕ) (verdict : Option String)
        → Q _ (after_throttles la oa m msg d t verdict) (after_throttles lb ob m msg d t verdict)
    on_after_throttles m msg d t none = on_send m msg d t
    on_after_throttles m msg d t (some scope) =
        search (c.on_bind, c.on_count, on_reschedule) depth 9

    on_throttle_step :
        (m : ℤ) (msg : Message) (d : Decision) (t : ℕ)
        → Q _ (throttle_step la oa m msg d t) (throttle_step lb ob m msg d t)
    unfolding throttle_step
    on_throttle_step m msg d t = search (c.on_bind, on_check_throttles, on_after_throttles) depth 9

    on_warmup_step :
        (m : ℤ) (msg : Message) (d : Decision) (t : ℕ)
        → Q _ (warmup_step la oa m msg d t) (warmup_step lb ob m msg d t)
    unfolding warmup_step
    on_warmup_step m msg d t =
        search
          (
            c.on_bind, c.on_if, c.on_wrapping, c.on_count, c.on_query, on_throttle_step,
            on_reschedule,
          )
          depth 12

    on_cap_step :
        (m : ℤ) (msg : Message) (who : Customer) (d : Decision)
        → Q _ (cap_step la oa m msg who d) (cap_step lb ob m msg who d)
    unfolding cap_step
    on_cap_step m msg who d =
        search
          (
            c.on_bind, c.on_if, c.on_wrapping, c.on_count, c.on_query, c.on_now, on_warmup_step,
            on_reschedule,
          )
          depth 12

    on_after_route :
        (m : ℤ) (msg : Message) (who : Customer) (r : Result Decision)
        → Q _ (after_route la oa m msg who r) (after_route lb ob m msg who r)
    on_after_route m msg who (ok d) = on_cap_step m msg who d
    on_after_route m msg who (err e) = on_terminate msg _ _ _ _

    on_route_step :
        (m : ℤ) (msg : Message) (who : Customer)
        → Q _ (route_step la oa m msg who) (route_step lb ob m msg who)
    unfolding route_step
    on_route_step m msg who = search (c.on_bind, routes, on_after_route) depth 9

    on_suppression_step :
        (m : ℤ) (msg : Message) (who : Customer)
        → Q _ (suppression_step la oa m msg who) (suppression_step lb ob m msg who)
    unfolding suppression_step
    on_suppression_step m msg who =
        search
          (
            c.on_bind, c.on_if, c.on_wrapping, c.on_count, c.on_query, on_route_step,
            on_terminate_event,
          )
          depth 12

    on_customer_step :
        (m : ℤ) (msg : Message) (o : Option Customer)
        → Q _ (customer_step la oa m msg o) (customer_step lb ob m msg o)
    unfolding customer_step
    on_customer_step m msg none = on_terminate msg _ _ _ _
    on_customer_step m msg (some who) =
        search (c.on_bind, c.on_if, c.on_count, on_suppression_step, on_terminate_event) depth 14

    on_message_step :
        (m : ℤ) (o : Option Message) → Q _ (message_step la oa m o) (message_step lb ob m o)
    unfolding message_step
    on_message_step m none = c.on_return tt
    on_message_step m (some msg) =
        search (c.on_return, c.on_bind, c.on_if, c.on_wrapping, c.on_query, on_customer_step) depth
          9

    -- A call does what a composed statement says of its parts.
    pub on_process :
        (max_attempts : ℤ) (key : String)
        → Q _ (process la oa max_attempts key) (process lb ob max_attempts key)
    unfolding process load_message
    on_process max_attempts key =
        c.on_bind _ _ _ _ (c.on_wrapping "load message" _ _ (c.on_fetch (message_by_id key)))
          (on_message_step max_attempts)
