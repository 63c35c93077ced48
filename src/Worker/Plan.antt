-- ===== src/Worker/Plan.antt =====
-- What one run of `Process` in data-plane/internal/worker/worker.go is to write: each ending of the
-- pipeline as the list of its writes, with nothing of the control flow and no failures.
use email_delivery_engine.Prelude.{
  ℕ, ◌+◌, String, ◌≡◌, Bool, true, false, Option, none, some, List, [], ◌∷◌, ◌++◌,
}
use email_delivery_engine.Prelude.Int.{ℤ, pos}
use email_delivery_engine.Classify.{Kind, delivered, hard_bounce, policy_rejection, kind_name}
use email_delivery_engine.Simulate.{DeliveryResult}
use email_delivery_engine.Backoff.{next_delay}
use email_delivery_engine.Store.{Status, EventType, Message, Database, num, time}
use email_delivery_engine.Store.Statement.{
  Progress, Note, Trial, set_progress, insert_event, insert_attempt, insert_suppression,
}
use email_delivery_engine.Route.{Decision}
use email_delivery_engine.Worker.Sending.{Metadata, attempted, outcome_note}

-- A write on behalf of a message.
pub data Write : Type 0 where
  progress : Progress → Write
  note : Note → Write
  trial : Trial → Write
  suppression : Write

abbrev pub perform : Message → Write → ℕ → Database → Database
perform msg (progress p) = set_progress msg.id p
perform msg (note n) = insert_event msg.id n
perform msg (trial t) = insert_attempt msg.id t
perform msg suppression = λ _. insert_suppression msg.customer_id msg.to_email "hard_bounce"

-- The writes that took effect, each with the database's time.
abbrev pub Log : Type 0
Log = List (ℕ × Write)

abbrev pub replay : Message → Log → Database → Database
replay msg [] db = db
replay msg ((t, x) ∷ log) db = replay msg log (perform msg x t db)

-- `log` holds the first writes of a plan, and all of them if the run is complete.
abbrev pub Follows : List Write → Log → Bool → Type 0
Follows plan [] complete = complete ≡ true → plan ≡ []
Follows [] (e ∷ log) complete = ⊥
Follows (x ∷ plan) ((t, y) ∷ log) complete = (y ≡ x) × Follows plan log complete

-- A message that ends without an attempt.
abbrev pub ending_progress : Message → Status → Progress
ending_progress msg status = record {
  status = status;
  route_id = none;
  ip_pool_id = none;
  attempt_count = msg.attempt_count;
  next_attempt_at = none;
}

abbrev pub ending_note : EventType → String → Option Metadata → Note
ending_note event_type classification meta = record {
  event_type = event_type;
  provider = "";
  smtp_code = none;
  raw_response = "";
  classification = classification;
  metadata = meta;
}

abbrev pub end_plan : Message → Status → EventType → String → Option Metadata → List Write
end_plan msg status event_type classification meta =
    progress (ending_progress msg status) ∷ note (ending_note event_type classification meta) ∷ []

-- A message that is held back by a cap or a throttle.
abbrev pub held_progress : Message → Decision → ℕ → Progress
held_progress msg d next_at = attempted d msg.attempt_count Status.deferred (some next_at)

abbrev pub held_note : Message → ℕ → String → Metadata → Note
held_note msg next_at classification meta = record {
  event_type = EventType.throttled;
  provider = msg.mailbox_provider;
  smtp_code = none;
  raw_response = "";
  classification = classification;
  metadata = some (meta ++ (("next_attempt_at", time next_at) ∷ []));
}

abbrev pub hold_plan : Message → Decision → ℕ → String → Metadata → List Write
hold_plan msg d next_at classification meta =
    progress (held_progress msg d next_at) ∷ note (held_note msg next_at classification meta) ∷ []

abbrev pub finish_plan : Message → Decision → ℕ → DeliveryResult → Status → EventType → List Write
finish_plan msg d attempt result status event_type =
    progress (attempted d attempt status none) ∷ note (outcome_note msg event_type result) ∷ []

abbrev pub retry_note : Message → ℕ → DeliveryResult → ℕ → Note
retry_note msg attempt result next_at = record {
  event_type = EventType.retry_scheduled;
  provider = msg.mailbox_provider;
  smtp_code = none;
  raw_response = "";
  classification = kind_name result.classification;
  metadata = some (("next_attempt_at", time next_at) ∷ ("attempt", num (pos attempt)) ∷ []);
}

abbrev pub retry_plan : Message → Decision → ℕ → DeliveryResult → ℕ → ℕ × Bool → List Write
retry_plan msg d attempt result started (delay, true) =
    finish_plan msg d attempt result Status.dead_lettered EventType.dead_lettered
retry_plan msg d attempt result started (delay, false) =
    progress (attempted d attempt Status.deferred (some (started + delay)))
    ∷ note (outcome_note msg EventType.deferred result)
    ∷ note (retry_note msg attempt result (started + delay))
    ∷ []

abbrev pub outcome_plan : ℤ → Message → Decision → ℕ → DeliveryResult → ℕ → ℕ → Kind → List Write
outcome_plan max_attempts msg d attempt result started draw delivered =
    finish_plan msg d attempt result Status.delivered EventType.delivered
outcome_plan max_attempts msg d attempt result started draw hard_bounce =
    suppression ∷ finish_plan msg d attempt result Status.bounced EventType.bounced
outcome_plan max_attempts msg d attempt result started draw policy_rejection =
    finish_plan msg d attempt result Status.failed EventType.bounced
outcome_plan max_attempts msg d attempt result started draw _ =
    retry_plan msg d attempt result started (next_delay (pos attempt) max_attempts draw)

abbrev pub trial_of : Message → Decision → ℕ → DeliveryResult → Trial
trial_of msg d attempt result = record {
  attempt_number = attempt;
  provider = msg.mailbox_provider;
  ip_pool_id = some d.pool.id;
  smtp_code = result.smtp_code;
  raw_response = result.raw_response;
  classification = kind_name result.classification;
}

abbrev pub sending_note : Message → Decision → ℕ → Note
sending_note msg d attempt = record {
  event_type = EventType.sending_attempted;
  provider = msg.mailbox_provider;
  smtp_code = none;
  raw_response = "";
  classification = "";
  metadata = some (
      ("attempt", num (pos attempt))
      ∷ ("route_id", num (pos d.route.id))
      ∷ ("ip_pool_id", num (pos d.pool.id))
      ∷ []);
}

-- A message that is sent; the outcome is the simulator's, for the provider's state and a draw.
abbrev pub send_plan : ℤ → Message → Decision → ℕ → DeliveryResult → ℕ → List Write
send_plan max_attempts msg d started result draw =
    let attempt = msg.attempt_count + 1 in
    progress (attempted d attempt Status.sending none)
    ∷ note (sending_note msg d attempt)
    ∷ trial (trial_of msg d attempt result)
    ∷ outcome_plan max_attempts msg d attempt result started draw result.classification
