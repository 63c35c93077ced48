-- ===== src/Store/Query.antt =====
-- The SELECT statements of data-plane/internal/store/store.go, as functions of the tables and of the
-- database's clock. Rows come in the order of the table, which no theorem fixes. The database's day
-- begins at midnight UTC.
use email_delivery_engine.Prelude.{
  ℕ, ◌+◌, ◌*◌, ◌-◌, ◌%◌, String, Bool, true, false, ◌&&◌, Option, none, some, List, [], ◌∷◌, map,
  ltb, leb, ◌==◌, str_eq, if◌then◌else◌, length, take, find?, select, any,
}
use email_delivery_engine.Prelude.Sorting.{sort_by}
use email_delivery_engine.Backoff.{hour}
use email_delivery_engine.Simulate.{healthy}
use email_delivery_engine.Store.{
  Status, Message, Customer, IpPool, PoolType, Route, ProviderPolicy, Attempt, Suppression,
  Database,
}

abbrev pub has_id : String → Message → Bool
has_id key m = str_eq m.id key

-- WHERE id = $1
unfoldable pub message_by_id : String → Database → Option Message
message_by_id key db = find? (has_id key) db.messages

unfoldable pub customer_by_id : String → Database → Option Customer
customer_by_id key db = find? (λ (c : Customer). str_eq c.id key) db.customers

-- SELECT EXISTS(…) of `IsSuppressed`.
unfoldable pub is_suppressed : String → String → Database → Bool
is_suppressed customer recipient db =
    any (λ (s : Suppression). str_eq s.customer_id customer && str_eq s.recipient_email recipient)
      db.suppressions

-- `GetProviderPolicy`, with its default where no row is found.
unfoldable pub policy_for : String → Database → ProviderPolicy
policy_for provider db =
    elim (find? (λ (p : ProviderPolicy). str_eq p.provider provider) db.policies) [
      | some p ↦ p
      | none ↦ record { provider = provider; reputation_state = healthy; daily_cap = none }
    ]

abbrev pub is_dedicated : PoolType → Bool
is_dedicated PoolType.dedicated = true
is_dedicated PoolType.shared = false

abbrev pub is_shared : PoolType → Bool
is_shared PoolType.shared = true
is_shared PoolType.dedicated = false

-- customer_id = $1, which is not true of NULL.
abbrev pub owned_by : String → Option String → Bool
owned_by customer none = false
owned_by customer (some c) = str_eq c customer

unfoldable pub dedicated_pool : String → Database → Option IpPool
dedicated_pool customer db =
    find? (λ (p : IpPool). owned_by customer p.customer_id && is_dedicated p.type) db.pools

unfoldable pub shared_pools : Database → List IpPool
shared_pools db = select (λ (p : IpPool). is_shared p.type) db.pools

unfoldable pub routes_for : String → Database → List Route
routes_for provider db = select (λ (r : Route). str_eq r.provider provider && r.enabled) db.routes

abbrev pub day : ℕ
day = 24 * hour

-- CURRENT_DATE
abbrev pub day_start : ℕ → ℕ
day_start now = now - now % day

abbrev pub pool_is : ℕ → Option ℕ → Bool
pool_is pool none = false
pool_is pool (some p) = p == pool

-- `CountSendsToday`
unfoldable pub pool_sends_today : ℕ → ℕ → Database → ℕ
pool_sends_today pool now db = length (
    select (λ (a : Attempt). pool_is pool a.ip_pool_id && leb (day_start now) a.started_at)
      db.attempts)

-- The rows of the join of attempts and messages that `CountCustomerSendsToday` counts.
unfoldable pub count_joined : String → ℕ → List Message → List Attempt → ℕ
count_joined customer today messages [] = 0
count_joined customer today messages (a ∷ rest) =
    length (
      select
        (λ (m : Message).
          str_eq a.message_id m.id && (str_eq m.customer_id customer && leb today a.started_at))
        messages)
    + count_joined customer today messages rest

unfoldable pub customer_sends_today : String → ℕ → Database → ℕ
unfolding count_joined
customer_sends_today customer now db = count_joined customer (day_start now) db.messages db.attempts

abbrev pub is_bounced : Status → Bool
is_bounced Status.bounced = true
is_bounced _ = false

abbrev pub is_decided : Status → Bool
is_decided Status.bounced = true
is_decided Status.delivered = true
is_decided _ = false

-- The two counts of `GetCustomerBounceRate`.
pub record BounceRate : Type 0 where
  pub total : ℕ
  pub bounced : ℕ

abbrev recent : String → ℕ → Database → List Message
recent customer now db =
    select (λ (m : Message). str_eq m.customer_id customer && leb now (m.created_at + 24 * hour))
      db.messages

unfoldable pub bounce_rate : String → ℕ → Database → BounceRate
bounce_rate customer now db = record {
  total = length (select (λ (m : Message). is_decided m.status) (recent customer now db));
  bounced = length (select (λ (m : Message). is_bounced m.status) (recent customer now db));
}

-- `rate > pct` for the rate `bounced / total * 100` that the method returns, and 0 where the total
-- is 0. The comparison is exact; the program's, on doubles, agrees for counts below 2 ^ 40.
unfoldable pub rate_above : ℕ → BounceRate → Bool
rate_above pct r = if r.total == 0 then false else ltb (pct * r.total) (100 * r.bounced)

abbrev pub is_deferred : Status → Bool
is_deferred Status.deferred = true
is_deferred _ = false

-- next_attempt_at <= now(), which is not true of NULL.
abbrev pub is_due : ℕ → Option ℕ → Bool
is_due now none = false
is_due now (some t) = leb t now

abbrev pub due_time : Message → ℕ
due_time m = elim m.next_attempt_at [ none ↦ 0 | some t ↦ t ]

-- ORDER BY next_attempt_at ASC
abbrev pub due_by : Message → Message → Bool
due_by m x = leb (due_time m) (due_time x)

unfoldable pub deferred_ready : ℕ → ℕ → Database → List String
unfolding sort_by
deferred_ready limit now db =
    map (λ (m : Message). m.id)
      (take limit (
        sort_by due_by (
          select (λ (m : Message). is_deferred m.status && is_due now m.next_attempt_at)
            db.messages)))
