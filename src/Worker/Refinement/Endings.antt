-- ===== src/Worker/Refinement/Endings.antt =====
-- Each ending of the pipeline of internal/worker/worker.go follows its plan, whatever fails.
use email_delivery_engine.Runtime.Interface.{acts}
use email_delivery_engine.Prelude.{
  ℕ, ◌+◌, String, Bool, true, false, Option, none, some, List, [], ◌∷◌,
}
use email_delivery_engine.Prelude.Int.{ℤ, pos}
use email_delivery_engine.Classify.{
  Kind, delivered, hard_bounce, soft_bounce, provider_deferral, rate_limited, transient_failure,
  policy_rejection,
}
use email_delivery_engine.Simulate.{DeliveryResult}
use email_delivery_engine.Backoff.{next_delay}
use email_delivery_engine.Store.{Status, EventType, Message}
use email_delivery_engine.Store.Statement.{Progress, Note}
use email_delivery_engine.Route.{Decision}
use email_delivery_engine.Runtime.{Env, World, Action, ◌>>◌, count}
use email_delivery_engine.Runtime.Rules.{KeepsDb-count}
use email_delivery_engine.Worker.Sending.{
  Metadata, update_status, write_event, terminate_event, terminate, reschedule, finish,
  schedule_retry, retry_or_bury, outcome_case, attempted, outcome_note,
}
use email_delivery_engine.Worker.Plan.{
  Write, progress, note, suppression, end_plan, hold_plan, finish_plan, retry_plan, outcome_plan,
  ending_progress, ending_note, held_progress, held_note, retry_note,
}
use email_delivery_engine.Worker.Refinement.Rules.{
  Writes, One, One-exec, One-wrapping, Writes-single, Writes-last, Writes-silent,
}

module _ {R : Type 0} (env : Env) (msg : Message) where
  pub One-update_status :
      (p : Progress) (w : World R) → One msg (progress p) (update_status (acts env) msg p) w
  unfolding update_status
  One-update_status p w = One-exec msg env (progress p) w

  pub One-write_event : (n : Note) (w : World R) → One msg (note n) (write_event (acts env) msg n) w
  unfolding write_event
  One-write_event n w = One-exec msg env (note n) w

  -- One change of the row and one event.
  Writes-pair :
      (p : Progress) (n : Note) (w : World R)
      → Writes msg
          (progress p ∷ note n ∷ [])
          (update_status (acts env) msg p >> write_event (acts env) msg n)
          w
  Writes-pair p n w =
      Writes-single msg (progress p) (note n ∷ []) (update_status (acts env) msg p)
        (write_event (acts env) msg n) w (One-update_status p w)
        (Writes-last msg (note n) (write_event (acts env) msg n)
          (update_status (acts env) msg p w).1
          (One-write_event n (update_status (acts env) msg p w).1))

  pub terminate_event-Writes :
      (status : Status) (e : EventType) (classification : String) (meta : Option Metadata)
      (w : World R)
      → Writes msg
          (end_plan msg status e classification meta)
          (terminate_event (acts env) msg status e "" none "" classification meta)
          w
  unfolding terminate_event
  terminate_event-Writes status e classification meta w =
      Writes-pair (ending_progress msg status) (ending_note e classification meta) w

  pub terminate-Writes :
      (status : Status) (e : EventType) (meta : Metadata) (w : World R)
      → Writes msg
          (end_plan msg status e "" (some meta))
          (terminate (acts env) msg status e "" meta)
          w
  unfolding terminate
  terminate-Writes status e meta w = terminate_event-Writes status e "" (some meta) w

  pub reschedule-Writes :
      (d : Decision) (next_at : ℕ) (classification : String) (meta : Metadata) (w : World R)
      → Writes msg
          (hold_plan msg d next_at classification meta)
          (reschedule (acts env) msg d next_at classification meta)
          w
  unfolding reschedule
  reschedule-Writes d next_at classification meta w =
      Writes-pair (held_progress msg d next_at) (held_note msg next_at classification meta) w

  module _ (d : Decision) (attempt : ℕ) (result : DeliveryResult) where
    finish-Writes :
        (status : Status) (e : EventType) (w : World R)
        → Writes msg
            (finish_plan msg d attempt result status e)
            (finish (acts env) msg d attempt result status e)
            w
    unfolding finish
    finish-Writes status e w =
        Writes-pair (attempted d attempt status none) (outcome_note msg e result) w

    counted :
        (name : String) (plan : List Write) (m : Action R Unit) (w : World R)
        → ((v : World R) → Writes msg plan m v)
        → Writes msg plan (count name >> m) w
    counted name plan m w rest =
        Writes-silent msg plan (count name) (λ _. m) w (KeepsDb-count name)
          (λ a e. rest (count name w).1)

    schedule_retry-Writes :
        (next_at : ℕ) (w : World R)
        → Writes msg
            (progress (attempted d attempt Status.deferred (some next_at))
              ∷ note (outcome_note msg EventType.deferred result)
              ∷ note (retry_note msg attempt result next_at)
              ∷ [])
            (schedule_retry (acts env) msg d attempt result next_at)
            w
    unfolding schedule_retry
    schedule_retry-Writes next_at w = counted "messages_deferred_total" _ _ w λ v.
        counted "retry_scheduled_total" _ _ v λ u.
          Writes-single msg (progress p) (note n ∷ note n' ∷ []) (update_status (acts env) msg p)
            (write_event (acts env) msg n >> write_event (acts env) msg n') u
            (One-update_status p u)
            (Writes-single msg (note n) (note n' ∷ []) (write_event (acts env) msg n)
              (write_event (acts env) msg n') (update_status (acts env) msg p u).1
              (One-write_event n (update_status (acts env) msg p u).1)
              (Writes-last msg (note n') (write_event (acts env) msg n')
                (write_event (acts env) msg n (update_status (acts env) msg p u).1).1
                (One-write_event n'
                  (write_event (acts env) msg n (update_status (acts env) msg p u).1).1)))
      where
        p : Progress
        p = attempted d attempt Status.deferred (some next_at)

        n : Note
        n = outcome_note msg EventType.deferred result

        n' : Note
        n' = retry_note msg attempt result next_at

    retry_or_bury-Writes :
        (started : ℕ) (answer : ℕ × Bool) (w : World R)
        → Writes msg
            (retry_plan msg d attempt result started answer)
            (retry_or_bury (acts env) msg d attempt result started answer)
            w
    unfolding retry_or_bury
    retry_or_bury-Writes started (delay, true) w =
        counted "messages_dead_lettered_total" _ _ w
          (finish-Writes Status.dead_lettered EventType.dead_lettered)
    retry_or_bury-Writes started (delay, false) w = schedule_retry-Writes (started + delay) w

    pub outcome_case-Writes :
        (max_attempts : ℤ) (started draw : ℕ) (k : Kind) (w : World R)
        → Writes msg
            (outcome_plan max_attempts msg d attempt result started draw k)
            (outcome_case (acts env) max_attempts msg d attempt result started draw k)
            w
    unfolding outcome_case
    outcome_case-Writes max_attempts started draw delivered w =
        counted "messages_delivered_total" _ _ w
          (finish-Writes Status.delivered EventType.delivered)
    outcome_case-Writes max_attempts started draw hard_bounce w =
        counted "messages_bounced_total" _ _ w λ v.
          Writes-single msg suppression _ _ _ v
            (One-wrapping msg "add suppression" suppression _ v (One-exec msg env suppression v))
            (finish-Writes Status.bounced EventType.bounced _)
    outcome_case-Writes max_attempts started draw policy_rejection w =
        counted "messages_bounced_total" _ _ w (finish-Writes Status.failed EventType.bounced)
    outcome_case-Writes max_attempts started draw soft_bounce w =
        retry_or_bury-Writes started (next_delay (pos attempt) max_attempts draw) w
    outcome_case-Writes max_attempts started draw provider_deferral w =
        retry_or_bury-Writes started (next_delay (pos attempt) max_attempts draw) w
    outcome_case-Writes max_attempts started draw rate_limited w =
        retry_or_bury-Writes started (next_delay (pos attempt) max_attempts draw) w
    outcome_case-Writes max_attempts started draw transient_failure w =
        retry_or_bury-Writes started (next_delay (pos attempt) max_attempts draw) w
