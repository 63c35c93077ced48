-- ===== src/Metrics.antt =====
-- data-plane/internal/metrics/metrics.go: the registry of counters and gauges as an association list.
-- Values are whole numbers, which doubles hold exactly below 2 ^ 53; the mutex makes each operation
-- one step. The page that the HTTP handler prints is in Page.
pub mod Counting
pub mod Page
use email_delivery_engine.Prelude.{
  ℕ, ◌+◌, String, Option, none, some, List, [], ◌∷◌, str_eq, if◌then◌else◌,
}

pub data MetricType : Type 0 where
  counter gauge : MetricType

pub record Entry : Type 0 where
  pub typ : MetricType
  pub help : String
  pub value : ℕ

abbrev pub Registry : Type 0
Registry = List (String × Entry)

pub record Definition : Type 0 where
  pub name : String
  pub typ : MetricType
  pub help : String

abbrev counts : String → String → Definition
counts name help = record { name = name; typ = counter; help = help }

abbrev pub definitions : List Definition
definitions =
    counts "messages_delivered_total" "Total messages successfully delivered"
    ∷ counts "messages_bounced_total" "Total messages that hard-bounced"
    ∷ counts "messages_deferred_total" "Total messages deferred for retry"
    ∷ counts "messages_dead_lettered_total" "Total messages moved to the DLQ"
    ∷ counts "messages_throttled_total" "Total sends throttled by rate limits"
    ∷ counts "messages_suppressed_total" "Total sends skipped due to suppression"
    ∷ counts "delivery_attempts_total" "Total delivery attempts made by the worker"
    ∷ counts "retry_scheduled_total" "Total retries scheduled"
    ∷ counts "provider_rate_limited_total" "Total provider rate-limit responses received"
    ∷ counts "abuse_blocks_total" "Total sends blocked by abuse controls"
    ∷ counts "abuse_limited_customers_total" "Total times a customer was moved to limited state"
    ∷ counts "worker_process_errors_total" "Total unexpected errors while processing a message"
    ∷ record {
      name = "queue_depth";
      typ = gauge;
      help = "Current number of entries in the delivery stream";
    }
    ∷ []

-- `registry[name]`
unfoldable pub entry_of : String → Registry → Option Entry
entry_of name [] = none
entry_of name ((k, e) ∷ r) = if str_eq k name then some e else entry_of name r

-- `registry[name] = e`
unfoldable pub put_entry : String → Entry → Registry → Registry
put_entry name e [] = (name, e) ∷ []
put_entry name e ((k, old) ∷ r) =
    if str_eq k name then (k, e) ∷ r else (k, old) ∷ put_entry name e r

-- The loop of `Init` over the definitions that are left.
unfoldable pub init_from : List Definition → Registry → Registry
unfolding put_entry
init_from [] r = r
init_from (d ∷ ds) r =
    init_from ds (put_entry d.name (record { typ = d.typ; help = d.help; value = 0 }) r)

unfoldable pub init : Registry → Registry
unfolding init_from
init = init_from definitions

-- The entry that a map look-up finds, or the fresh one that is stored where there is none.
abbrev pub or_new : MetricType → Option Entry → Entry
or_new t none = record { typ = t; help = ""; value = 0 }
or_new t (some e) = e

unfoldable pub add : String → ℕ → Registry → Registry
unfolding entry_of put_entry
add name n r =
    let e = or_new counter (entry_of name r) in put_entry name (record e { value = e.value + n }) r

unfoldable pub inc : String → Registry → Registry
unfolding add
inc name = add name 1

unfoldable pub set_gauge : String → ℕ → Registry → Registry
unfolding entry_of put_entry
set_gauge name v r = put_entry name (record (or_new gauge (entry_of name r)) { value = v }) r
