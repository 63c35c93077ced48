-- ===== src/Store/Statement.antt =====
-- The INSERT and UPDATE statements of data-plane/internal/store/store.go, as functions of the tables
-- and of the database's clock.
use email_delivery_engine.Prelude.{
  ℕ, String, ◌&&◌, Option, List, [], ◌∷◌, ◌++◌, str_eq, if◌then◌else◌, update_where,
}
use email_delivery_engine.Prelude.Int.{ℤ}
use email_delivery_engine.Store.{
  Status, SendingState, Message, Customer, Value, EventType, Event, Attempt, Database,
}
use email_delivery_engine.Store.Query.{has_id, is_suppressed, is_deferred}

-- The columns that `UpdateMessageStatus` sets, but for updated_at.
pub record Progress : Type 0 where
  pub status : Status
  pub route_id : Option ℕ
  pub ip_pool_id : Option ℕ
  pub attempt_count : ℕ
  pub next_attempt_at : Option ℕ

abbrev pub with_progress : Progress → ℕ → Message → Message
with_progress p now m = record m {
  status = p.status;
  route_id = p.route_id;
  ip_pool_id = p.ip_pool_id;
  attempt_count = p.attempt_count;
  next_attempt_at = p.next_attempt_at;
  updated_at = now;
}

unfoldable pub set_progress : String → Progress → ℕ → Database → Database
set_progress key p now db = record db {
  messages = update_where (has_id key) (with_progress p now) db.messages;
}

-- The columns that `WriteEvent` is given, but for the message.
pub record Note : Type 0 where
  pub event_type : EventType
  pub provider : String
  pub smtp_code : Option ℤ
  pub raw_response : String
  pub classification : String
  pub metadata : Option (List (String × Value))

abbrev pub event_of : String → Note → ℕ → Event
event_of key n now = record {
  message_id = key;
  event_type = n.event_type;
  provider = n.provider;
  smtp_code = n.smtp_code;
  raw_response = n.raw_response;
  classification = n.classification;
  metadata = n.metadata;
  created_at = now;
}

unfoldable pub insert_event : String → Note → ℕ → Database → Database
insert_event key n now db = record db { events = db.events ++ (event_of key n now ∷ []) }

-- The columns that `WriteDeliveryAttempt` is given, but for the message.
pub record Trial : Type 0 where
  pub attempt_number : ℕ
  pub provider : String
  pub ip_pool_id : Option ℕ
  pub smtp_code : ℤ
  pub raw_response : String
  pub classification : String

abbrev pub attempt_of : String → Trial → ℕ → Attempt
attempt_of key t now = record {
  message_id = key;
  attempt_number = t.attempt_number;
  provider = t.provider;
  ip_pool_id = t.ip_pool_id;
  smtp_code = t.smtp_code;
  raw_response = t.raw_response;
  classification = t.classification;
  started_at = now;
  finished_at = now;
}

unfoldable pub insert_attempt : String → Trial → ℕ → Database → Database
insert_attempt key t now db = record db { attempts = db.attempts ++ (attempt_of key t now ∷ []) }

-- INSERT … ON CONFLICT (customer_id, recipient_email) DO NOTHING
unfoldable pub insert_suppression : String → String → String → Database → Database
insert_suppression customer recipient reason db =
    if is_suppressed customer recipient db then db else record db {
      suppressions =
          db.suppressions
          ++ (record { customer_id = customer; recipient_email = recipient; reason = reason } ∷ []);
    }

-- `MarkQueued`: WHERE id = $1 AND status = 'deferred'
unfoldable pub mark_queued_row : String → ℕ → Database → Database
mark_queued_row key now db = record db {
  messages =
      update_where (λ (m : Message). has_id key m && is_deferred m.status)
        (λ (m : Message). record m { status = Status.queued; updated_at = now }) db.messages;
}

unfoldable pub set_sending_state : String → SendingState → Database → Database
set_sending_state key state db = record db {
  customers =
      update_where (λ (c : Customer). str_eq c.id key)
        (λ (c : Customer). record c { sending_state = state }) db.customers;
}
