-- ===== src/Store.antt =====
-- data-plane/internal/store/store.go: the rows of the tables, and the database as a value. The
-- statements that the methods run are in the children. A column of an enum type of
-- control-plane/src/db/schema.ts is a data type; a nullable column is an Option, but for the text
-- columns that the worker reads through COALESCE, which are texts. Identities are natural numbers,
-- other integers are ℤ, instants are nanoseconds.
pub mod Query
pub mod Statement
pub mod Ready
use email_delivery_engine.Prelude.{ℕ, String, Bool, Option, List}
use email_delivery_engine.Prelude.Int.{ℤ}
use email_delivery_engine.Simulate.{Reputation}

-- message_status; the value `throttled` is never written.
pub data Status : Type 0 where
  queued sending deferred delivered bounced failed dead_lettered suppressed throttled blocked :
      Status

pub data SendingState : Type 0 where
  trusted new limited blocked_from_marketing blocked_from_sending : SendingState

pub data MessageType : Type 0 where
  transactional marketing : MessageType

-- message_event_type.
pub data EventType : Type 0 where
  accepted queued throttled sending_attempted deferred delivered bounced retry_scheduled
        dead_lettered suppressed blocked_by_abuse_control :
      EventType

pub data PoolType : Type 0 where
  shared dedicated : PoolType

pub record Message : Type 0 where
  pub id : String
  pub customer_id : String
  pub from_email : String
  pub from_domain : String
  pub to_email : String
  pub recipient_domain : String
  pub mailbox_provider : String
  pub type : MessageType
  pub subject : String
  pub html : String
  pub status : Status
  pub route_id : Option ℕ
  pub ip_pool_id : Option ℕ
  pub attempt_count : ℕ
  pub next_attempt_at : Option ℕ
  pub created_at : ℕ
  pub updated_at : ℕ

pub record Customer : Type 0 where
  pub id : String
  pub name : String
  pub sending_state : SendingState
  pub daily_send_cap : ℤ

pub record IpPool : Type 0 where
  pub id : ℕ
  pub name : String
  pub type : PoolType
  pub customer_id : Option String
  pub warmup_started_at : Option ℕ
  pub daily_limit : Option ℤ

pub record Route : Type 0 where
  pub id : ℕ
  pub name : String
  pub provider : String
  pub ip_pool_id : Option ℕ
  pub weight : ℤ
  pub enabled : Bool

pub record ProviderPolicy : Type 0 where
  pub provider : String
  pub reputation_state : Reputation
  pub daily_cap : Option ℤ

pub record ThrottleRule : Type 0 where
  pub id : ℕ
  pub scope : String
  pub scope_key : String
  pub messages_per_minute : ℤ

-- The values of a metadata map; `time` is an instant in RFC 3339 form.
pub data Value : Type 0 where
  num : ℤ → Value
  text : String → Value
  time : ℕ → Value

-- A row of message_events. The metadata are kept as the map that is marshalled.
pub record Event : Type 0 where
  pub message_id : String
  pub event_type : EventType
  pub provider : String
  pub smtp_code : Option ℤ
  pub raw_response : String
  pub classification : String
  pub metadata : Option (List (String × Value))
  pub created_at : ℕ

-- A row of delivery_attempts.
pub record Attempt : Type 0 where
  pub message_id : String
  pub attempt_number : ℕ
  pub provider : String
  pub ip_pool_id : Option ℕ
  pub smtp_code : ℤ
  pub raw_response : String
  pub classification : String
  pub started_at : ℕ
  pub finished_at : ℕ

-- A row of suppression_list.
pub record Suppression : Type 0 where
  pub customer_id : String
  pub recipient_email : String
  pub reason : String

pub record Database : Type 0 where
  pub messages : List Message
  pub customers : List Customer
  pub pools : List IpPool
  pub routes : List Route
  pub policies : List ProviderPolicy
  pub throttle_rules : List ThrottleRule
  pub events : List Event
  pub attempts : List Attempt
  pub suppressions : List Suppression
