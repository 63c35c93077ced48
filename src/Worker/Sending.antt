-- ===== src/Worker/Sending.antt =====
-- Steps 7 on of `Process` in data-plane/internal/worker/worker.go: the attempt, its outcome, and the
-- endings that the earlier steps share.
use email_delivery_engine.Prelude.{
  ℕ, ◌+◌, String, Bool, true, false, Option, none, some, List, [], ◌∷◌, ◌++◌, ◌==◌, if◌then◌else◌,
}
use email_delivery_engine.Prelude.Int.{ℤ, pos, negsuc}
use email_delivery_engine.Classify.{
  Kind, delivered, hard_bounce, rate_limited, policy_rejection, kind_name,
}
use email_delivery_engine.Simulate.{DeliveryResult, simulate}
use email_delivery_engine.Backoff.{next_delay}
use email_delivery_engine.Store.{Status, EventType, Message, Value, num, text, time}
use email_delivery_engine.Store.Query.{policy_for}
use email_delivery_engine.Store.Statement.{
  Progress, Note, set_progress, insert_event, insert_attempt, insert_suppression,
}
use email_delivery_engine.Route.{Decision}
use email_delivery_engine.Runtime.Interface.{Ops}

abbrev pub Metadata : Type 0
Metadata = List (String × Value)

-- classificationMeta
abbrev pub classification_meta : String → Metadata
classification_meta reason = ("reason", text reason) ∷ []

-- sql.NullInt64{Int64: code, Valid: code != 0}
abbrev pub null_smtp : ℤ → Option ℤ
null_smtp (pos n) = if n == 0 then none else some (pos n)
null_smtp (negsuc n) = some (negsuc n)

abbrev pub is_rate_limited : Kind → Bool
is_rate_limited rate_limited = true
is_rate_limited _ = false

-- The row after attempt number `n` by the decision `d`.
abbrev pub attempted : Decision → ℕ → Status → Option ℕ → Progress
attempted d n status next_at = record {
  status = status;
  route_id = some d.route.id;
  ip_pool_id = some d.pool.id;
  attempt_count = n;
  next_attempt_at = next_at;
}

-- The event that reports the result of an attempt.
abbrev pub outcome_note : Message → EventType → DeliveryResult → Note
outcome_note msg event_type result = record {
  event_type = event_type;
  provider = msg.mailbox_provider;
  smtp_code = null_smtp result.smtp_code;
  raw_response = result.raw_response;
  classification = kind_name result.classification;
  metadata = some (("reason", text result.reason) ∷ []);
}

module _ {M : Type 0 → Type 0} (ops : Ops M) where
  infixl 5 ◌>>=◌ ◌>>◌
  abbrev ◌>>=◌ : {A B : Type 0} → M A → (A → M B) → M B
  ◌>>=◌ = ops.bind

  abbrev ◌>>◌ : {A B : Type 0} → M A → M B → M B
  m >> k = ops.bind m (λ _. k)

  unfoldable pub update_status : Message → Progress → M Unit
  update_status msg p = ops.exec (set_progress msg.id p)

  unfoldable pub write_event : Message → Note → M Unit
  write_event msg n = ops.exec (insert_event msg.id n)

  unfoldable pub terminate_event :
      Message → Status → EventType → String → Option ℤ → String → String → Option Metadata → M Unit
  terminate_event msg status event_type provider smtp raw classification meta = do
    update_status msg (record {
      status = status;
      route_id = none;
      ip_pool_id = none;
      attempt_count = msg.attempt_count;
      next_attempt_at = none;
    })
    write_event msg (record {
      event_type = event_type;
      provider = provider;
      smtp_code = smtp;
      raw_response = raw;
      classification = classification;
      metadata = meta;
    })

  unfoldable pub terminate : Message → Status → EventType → String → Metadata → M Unit
  terminate msg status event_type provider meta =
      terminate_event msg status event_type provider none "" "" (some meta)

  unfoldable pub reschedule : Message → Decision → ℕ → String → Metadata → M Unit
  reschedule msg d next_at classification meta = do
    update_status msg (record {
      status = Status.deferred;
      route_id = some d.route.id;
      ip_pool_id = some d.pool.id;
      attempt_count = msg.attempt_count;
      next_attempt_at = some next_at;
    })
    write_event msg (record {
      event_type = EventType.throttled;
      provider = msg.mailbox_provider;
      smtp_code = none;
      raw_response = "";
      classification = classification;
      metadata = some (meta ++ (("next_attempt_at", time next_at) ∷ []));
    })

  -- The ending that the first three cases of `applyOutcome` and the dead letter share.
  unfoldable pub finish : Message → Decision → ℕ → DeliveryResult → Status → EventType → M Unit
  finish msg d attempt result status event_type = do
    update_status msg (attempted d attempt status none)
    write_event msg (outcome_note msg event_type result)

  -- The end of the `default` case: the message waits for its next attempt.
  unfoldable pub schedule_retry : Message → Decision → ℕ → DeliveryResult → ℕ → M Unit
  schedule_retry msg d attempt result next_at = do
    ops.count "messages_deferred_total"
    ops.count "retry_scheduled_total"
    update_status msg (attempted d attempt Status.deferred (some next_at))
    write_event msg (outcome_note msg EventType.deferred result)
    write_event msg (record {
      event_type = EventType.retry_scheduled;
      provider = msg.mailbox_provider;
      smtp_code = none;
      raw_response = "";
      classification = kind_name result.classification;
      metadata = some (("next_attempt_at", time next_at) ∷ ("attempt", num (pos attempt)) ∷ []);
    })

  -- The `default` case of `applyOutcome`, by the answer of `backoff.NextDelay`.
  unfoldable pub retry_or_bury : Message → Decision → ℕ → DeliveryResult → ℕ → ℕ × Bool → M Unit
  retry_or_bury msg d attempt result started (delay, true) = do
    ops.count "messages_dead_lettered_total"
    finish msg d attempt result Status.dead_lettered EventType.dead_lettered
  retry_or_bury msg d attempt result started (delay, false) =
      schedule_retry msg d attempt result (started + delay)

  -- The `switch` of `applyOutcome`; `draw` is what the jitter of a retry draws, and unused elsewhere.
  unfoldable pub outcome_case : ℤ → Message → Decision → ℕ → DeliveryResult → ℕ → ℕ → Kind → M Unit
  outcome_case max_attempts msg d attempt result started draw delivered = do
    ops.count "messages_delivered_total"
    finish msg d attempt result Status.delivered EventType.delivered
  outcome_case max_attempts msg d attempt result started draw hard_bounce = do
    ops.count "messages_bounced_total"
    ops.wrapping "add suppression"
        (ops.exec (λ _. insert_suppression msg.customer_id msg.to_email "hard_bounce"))
    finish msg d attempt result Status.bounced EventType.bounced
  outcome_case max_attempts msg d attempt result started draw policy_rejection = do
    ops.count "messages_bounced_total"
    finish msg d attempt result Status.failed EventType.bounced
  outcome_case max_attempts msg d attempt result started draw _ =
      retry_or_bury msg d attempt result started (next_delay (pos attempt) max_attempts draw)

  unfoldable pub apply_outcome : ℤ → Message → Decision → ℕ → DeliveryResult → ℕ → M Unit
  apply_outcome max_attempts msg d attempt result started = do
    draw ← ops.random
    outcome_case max_attempts msg d attempt result started draw result.classification

  -- Step 7 behind the simulated send.
  unfoldable pub record_attempt : ℤ → Message → Decision → ℕ → ℕ → DeliveryResult → M Unit
  record_attempt max_attempts msg d attempt started result = do
    ops.wrapping "write delivery attempt" (
        ops.exec (
          insert_attempt msg.id (record {
            attempt_number = attempt;
            provider = msg.mailbox_provider;
            ip_pool_id = some d.pool.id;
            smtp_code = result.smtp_code;
            raw_response = result.raw_response;
            classification = kind_name result.classification;
          })))
    if is_rate_limited result.classification
        then ops.count "provider_rate_limited_total"
        else ops.return tt
    apply_outcome max_attempts msg d attempt result started

  -- Step 7 behind the mark and its event. The draw is used by a degraded provider only.
  unfoldable pub send_marked : ℤ → Message → Decision → ℕ → ℕ → M Unit
  send_marked max_attempts msg d attempt started = do
    policy ← ops.wrapping "load provider policy" (ops.query (λ _. policy_for msg.mailbox_provider))
    roll ← ops.random
    record_attempt max_attempts msg d attempt started
        (simulate msg.to_email policy.reputation_state roll)

  -- Step 7. `started` is the time that was read before step 4.
  unfoldable pub send : ℤ → Message → Decision → ℕ → M Unit
  send max_attempts msg d started = do
    let attempt = msg.attempt_count + 1
    ops.wrapping "mark sending" (update_status msg (attempted d attempt Status.sending none))
    ops.wrapping "write sending event" (
        write_event msg (record {
          event_type = EventType.sending_attempted;
          provider = msg.mailbox_provider;
          smtp_code = none;
          raw_response = "";
          classification = "";
          metadata = some (
              ("attempt", num (pos attempt))
              ∷ ("route_id", num (pos d.route.id))
              ∷ ("ip_pool_id", num (pos d.pool.id))
              ∷ []);
        }))
    ops.count "delivery_attempts_total"
    send_marked max_attempts msg d attempt started
