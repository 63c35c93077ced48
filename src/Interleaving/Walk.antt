-- ===== src/Interleaving/Walk.antt =====
-- One pass through a call of `Process` in internal/worker/worker.go for a live message, by the rules
-- of a `Course`.
use email_delivery_engine.Prelude.{
  ℕ, ◌+◌, String, ◌≡◌, refl, inl, inr, Bool, true, false, Option, none, some,
}
use email_delivery_engine.Prelude.Int.{ℤ, pos, ◌<ℤ◌}
use email_delivery_engine.Classify.{
  Kind, delivered, hard_bounce, soft_bounce, provider_deferral, rate_limited, transient_failure,
  policy_rejection,
}
use email_delivery_engine.Simulate.{DeliveryResult}
use email_delivery_engine.Backoff.{next_delay}
use email_delivery_engine.Store.{Status, EventType, Message, Customer}
use email_delivery_engine.Route.{Decision}
use email_delivery_engine.Runtime.{Result, ok, err}
use email_delivery_engine.Runtime.Interface.{Ops, Limiter}
use email_delivery_engine.Worker.Sending.{
  Metadata, update_status, write_event, terminate_event, terminate, reschedule, finish,
  schedule_retry, retry_or_bury, outcome_case, apply_outcome, record_attempt, send_marked, send,
}
use email_delivery_engine.Worker.Pipeline.{
  is_terminal, after_throttles, throttle_step, warmup_step, cap_step, after_route, route_step,
  suppression_step, customer_step, message_step,
}
use email_delivery_engine.Worker.Guarantees.Settles.{next_delay-left}
use email_delivery_engine.Interleaving.Course.{
  Stage, before, tried, listed, decided, is_bounced, Course,
}
use email_delivery_engine.Interleaving.Reading.{on_select_route, on_check_throttles}

module _ {M : Type 0 → Type 0} (limiter : Limiter M) (ops : Ops M) (max : ℤ) (msg : Message)
    (Passes : (A : Type 0) → M A → Type 0) (Goes : Stage → Stage → (A : Type 0) → M A → Type 0)
    (c : Course limiter ops max msg Passes Goes) where
  on_terminate_event :
      (s : Status) (e : EventType) (p : String) (smtp : Option ℤ) (raw why : String)
      (meta : Option Metadata)
      → is_terminal s ≡ true
      → is_bounced s ≡ false
      → Goes before decided _ (terminate_event ops msg s e p smtp raw why meta)
  unfolding terminate_event update_status write_event
  on_terminate_event s e p smtp raw why meta over other =
      c.goes_bind _ _ _ _ _ (c.goes_decided _ _ (inl (over, inl refl)) other)
        (λ _. c.goes_on _ _ (c.passes_note _))

  on_terminate :
      (s : Status) (e : EventType) (p : String) (meta : Metadata)
      → is_terminal s ≡ true
      → is_bounced s ≡ false
      → Goes before decided _ (terminate ops msg s e p meta)
  unfolding terminate
  on_terminate s e p meta = on_terminate_event s e p none "" "" (some meta)

  on_reschedule :
      (d : Decision) (t : ℕ) (why : String) (meta : Metadata)
      → Goes before decided _ (reschedule ops msg d t why meta)
  unfolding reschedule update_status write_event
  on_reschedule d t why meta =
      c.goes_bind _ _ _ _ _ (c.goes_decided _ _ (inr (refl, (t, refl), inl refl)) refl)
        (λ _. c.goes_on _ _ (c.passes_note _))

  on_finish :
      (d : Decision) (r : DeliveryResult) (s : Status) (e : EventType)
      → is_terminal s ≡ true
      → is_bounced s ≡ false
      → Goes tried decided _ (finish ops msg d (msg.attempt_count + 1) r s e)
  unfolding finish update_status write_event
  on_finish d r s e over other =
      c.goes_bind _ _ _ _ _ (c.goes_decided _ _ (inl (over, inr refl)) other)
        (λ _. c.goes_on _ _ (c.passes_note _))

  on_bounce :
      (d : Decision) (r : DeliveryResult)
      → Goes listed decided _
          (finish ops msg d (msg.attempt_count + 1) r Status.bounced EventType.bounced)
  unfolding finish update_status write_event
  on_bounce d r =
      c.goes_bind _ _ _ _ _ (c.goes_bounced _ (inl (refl, inr refl)))
        (λ _. c.goes_on _ _ (c.passes_note _))

  on_schedule_retry :
      (d : Decision) (r : DeliveryResult) (t : ℕ)
      → pos (msg.attempt_count + 1) <ℤ max
      → Goes tried decided _ (schedule_retry ops msg d (msg.attempt_count + 1) r t)
  unfolding schedule_retry update_status write_event
  on_schedule_retry d r t left = c.goes_past _ _ _ _ (c.passes_count _) (λ _.
      c.goes_past _ _ _ _ (c.passes_count _) (λ _.
        c.goes_bind _ _ _ _ _ (c.goes_decided _ _ (inr (refl, (t, refl), inr (refl, left))) refl)
          (λ _. c.goes_on _ _ (c.passes_bind _ _ (c.passes_note _) (λ _. c.passes_note _)))))

  on_retry_or_bury :
      (d : Decision) (r : DeliveryResult) (t : ℕ) (a : ℕ × Bool)
      → (a.1 ≡ false → pos (msg.attempt_count + 1) <ℤ max)
      → Goes tried decided _ (retry_or_bury ops msg d (msg.attempt_count + 1) r t a)
  unfolding retry_or_bury
  on_retry_or_bury d r t (delay, true) left =
      c.goes_past _ _ _ _ (c.passes_count _) (λ _. on_finish d r _ _ refl refl)
  on_retry_or_bury d r t (delay, false) left = on_schedule_retry d r _ (left refl)

  on_retry :
      (d : Decision) (r : DeliveryResult) (t draw : ℕ)
      → Goes tried decided _ (
          retry_or_bury ops msg d
            (msg.attempt_count + 1)
            r
            t
            (next_delay (pos (msg.attempt_count + 1)) max draw))
  on_retry d r t draw = on_retry_or_bury d r t _ (next_delay-left max msg d r t draw)

  on_outcome_case :
      (d : Decision) (r : DeliveryResult) (t draw : ℕ) (k : Kind)
      → Goes tried decided _ (outcome_case ops max msg d (msg.attempt_count + 1) r t draw k)
  unfolding outcome_case
  on_outcome_case d r t draw delivered =
      c.goes_past _ _ _ _ (c.passes_count _) (λ _. on_finish d r _ _ refl refl)
  on_outcome_case d r t draw hard_bounce =
      c.goes_past _ _ _ _ (c.passes_count _)
        (λ _. c.goes_bind _ _ _ _ _ (c.goes_wrapping _ _ _ _ c.goes_listed) (λ _. on_bounce d r))
  on_outcome_case d r t draw policy_rejection =
      c.goes_past _ _ _ _ (c.passes_count _) (λ _. on_finish d r _ _ refl refl)
  on_outcome_case d r t draw soft_bounce = on_retry d r t draw
  on_outcome_case d r t draw provider_deferral = on_retry d r t draw
  on_outcome_case d r t draw rate_limited = on_retry d r t draw
  on_outcome_case d r t draw transient_failure = on_retry d r t draw

  on_record_attempt :
      (d : Decision) (t : ℕ) (r : DeliveryResult)
      → Goes before decided _ (record_attempt ops max msg d (msg.attempt_count + 1) t r)
  unfolding record_attempt apply_outcome
  on_record_attempt d t r = c.goes_bind _ _ _ _ _ (c.goes_wrapping _ _ _ _ (c.goes_attempt _)) (λ _.
      c.goes_past _ _ _ _ (c.passes_if _ _ _ (c.passes_count _) (c.passes_return _))
        (λ _. c.goes_past _ _ _ _ c.passes_random (λ draw. on_outcome_case d r t draw _)))

  on_send : (d : Decision) (t : ℕ) → Goes before decided _ (send ops max msg d t)
  unfolding send send_marked update_status write_event
  on_send d t = c.goes_bind _ _ _ _ _ (c.goes_wrapping _ _ _ _ (c.goes_mark _ refl)) (λ _.
      c.goes_past _ _ _ _ (c.passes_wrapping _ _ (c.passes_note _)) (λ _.
        c.goes_past _ _ _ _ (c.passes_count _) (λ _.
          c.goes_past _ _ _ _ (c.passes_wrapping _ _ (c.passes_query _))
            (λ _. c.goes_past _ _ _ _ c.passes_random (λ _. on_record_attempt d t _)))))

  on_after_throttles :
      (d : Decision) (t : ℕ) (verdict : Option String)
      → Goes before decided _ (after_throttles limiter ops max msg d t verdict)
  on_after_throttles d t none = on_send d t
  on_after_throttles d t (some scope) =
      c.goes_past _ _ _ _ (c.passes_count _) (λ _. on_reschedule d _ _ _)

  on_throttle_step :
      (d : Decision) (t : ℕ) → Goes before decided _ (throttle_step limiter ops max msg d t)
  unfolding throttle_step
  on_throttle_step d t =
      c.goes_past _ _ _ _ (on_check_throttles limiter ops max msg Passes Goes c d)
        (λ verdict. on_after_throttles d t verdict)

  on_warmup_step :
      (d : Decision) (t : ℕ) → Goes before decided _ (warmup_step limiter ops max msg d t)
  unfolding warmup_step
  on_warmup_step d t =
      search
        (
          c.goes_past, c.goes_if, c.passes_wrapping, c.passes_count, c.passes_query,
          on_throttle_step, on_reschedule,
        )
        depth 12

  on_cap_step :
      (who : Customer) (d : Decision) → Goes before decided _ (cap_step limiter ops max msg who d)
  unfolding cap_step
  on_cap_step who d =
      search
        (
          c.goes_past, c.goes_if, c.passes_wrapping, c.passes_count, c.passes_query, c.passes_now,
          on_warmup_step, on_reschedule,
        )
        depth 12

  on_after_route :
      (who : Customer) (r : Result Decision)
      → Goes before decided _ (after_route limiter ops max msg who r)
  on_after_route who (ok d) = on_cap_step who d
  on_after_route who (err e) = on_terminate _ _ _ _ refl refl

  on_route_step : (who : Customer) → Goes before decided _ (route_step limiter ops max msg who)
  unfolding route_step
  on_route_step who =
      c.goes_past _ _ _ _
        (c.passes_caught _ (on_select_route limiter ops max msg Passes Goes c msg.customer_id))
        (on_after_route who)

  on_suppression_step :
      (who : Customer) → Goes before decided _ (suppression_step limiter ops max msg who)
  unfolding suppression_step
  on_suppression_step who =
      c.goes_past _ _ _ _ (c.passes_wrapping _ _ (c.passes_query _)) (λ suppressed.
        c.goes_if _ _ _ _ _
          (c.goes_past _ _ _ _ (c.passes_count _) (λ _. on_terminate_event _ _ _ _ _ _ _ refl refl))
          (on_route_step who))

  on_block :
      (why : String) (meta : Option Metadata)
      → Goes before decided _ (
          ops.bind (ops.count "abuse_blocks_total") (λ _.
            terminate_event ops msg Status.blocked EventType.blocked_by_abuse_control "" none "" why
              meta))
  on_block why meta =
      c.goes_past _ _ _ _ (c.passes_count _) (λ _. on_terminate_event _ _ _ _ _ _ _ refl refl)

  on_customer_step :
      (o : Option Customer) → Goes before decided _ (customer_step limiter ops max msg o)
  unfolding customer_step
  on_customer_step none = on_terminate _ _ _ _ refl refl
  on_customer_step (some who) = search (c.goes_if, on_block, on_suppression_step) depth 9

  -- A live message is decided about, or the call fails.
  pub on_message_step :
      is_terminal msg.status ≡ false
      → Goes before decided _ (message_step limiter ops max (some msg))
  unfolding message_step
  on_message_step live =
      rw live (c.goes_past _ _ _ _ (c.passes_wrapping _ _ (c.passes_query _)) on_customer_step)
