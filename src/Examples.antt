-- ===== src/Examples.antt =====
-- A small installation of the engine, on which the modules below try the code: one trusted customer
-- with a dedicated pool, a shared pool that is warming up, and routes for gmail.
pub mod Delivered
pub mod Pipeline
pub mod Parts
pub mod Loops
pub mod Service
pub mod Rounds
pub mod Interleaved
use email_delivery_engine.Prelude.{
  ℕ, suc, ◌+◌, String, Bool, true, false, Option, none, some, List, [], ◌∷◌, ltb, if◌then◌else◌,
}
use email_delivery_engine.Prelude.Int.{ℤ, pos}
use email_delivery_engine.Simulate.{healthy, degraded}
use email_delivery_engine.Store.{
  Status, SendingState, MessageType, PoolType, Message, Customer, IpPool, Route, ProviderPolicy,
  Database, Suppression,
}
use email_delivery_engine.Store.Query.{day}
use email_delivery_engine.Runtime.{Answer, Env, Redis, World}

-- 2026-01-05 12:00 UTC, in nanoseconds.
abbrev pub noon : ℕ
noon = 1767614400000000000

abbrev pub letter : String → String → Status → ℕ → Message
letter key recipient status attempts = record {
  id = key;
  customer_id = "acme";
  from_email = "news@acme.test";
  from_domain = "acme.test";
  to_email = recipient;
  recipient_domain = "gmail.com";
  mailbox_provider = "gmail";
  type = MessageType.transactional;
  subject = "Hello";
  html = "<p>Hello</p>";
  status = status;
  route_id = none;
  ip_pool_id = none;
  attempt_count = attempts;
  next_attempt_at = none;
  created_at = noon;
  updated_at = noon;
}

abbrev pub fresh : Message
fresh = letter "m-1" "user@gmail.com" Status.queued 0

abbrev pub done : Message
done = letter "m-2" "user@gmail.com" Status.delivered 1

abbrev pub unwanted : Message
unwanted = letter "m-3" "gone@gmail.com" Status.queued 0

abbrev pub bouncing : Message
bouncing = letter "m-4" "BOUNCE.me@gmail.com" Status.deferred 1

abbrev pub acme : Customer
acme = record {
  id = "acme";
  name = "Acme";
  sending_state = SendingState.trusted;
  daily_send_cap = pos 100;
}

abbrev pub own_pool : IpPool
own_pool = record {
  id = 7;
  name = "acme-dedicated";
  type = PoolType.dedicated;
  customer_id = some "acme";
  warmup_started_at = some noon;
  daily_limit = some (pos 80);
}

abbrev pub common_pool : IpPool
common_pool = record {
  id = 1;
  name = "shared";
  type = PoolType.shared;
  customer_id = none;
  warmup_started_at = none;
  daily_limit = none;
}

abbrev pub gmail_route : ℕ → ℕ → Route
gmail_route key pool = record {
  id = key;
  name = "gmail";
  provider = "gmail";
  ip_pool_id = some pool;
  weight = pos 1;
  enabled = true;
}

abbrev pub tables : Database
tables = record {
  messages = fresh ∷ done ∷ unwanted ∷ bouncing ∷ [];
  customers = acme ∷ [];
  pools = common_pool ∷ own_pool ∷ [];
  routes = gmail_route 11 1 ∷ gmail_route 12 7 ∷ [];
  policies = record { provider = "gmail"; reputation_state = healthy; daily_cap = none } ∷ [];
  throttle_rules =
      record { id = 1; scope = "customer"; scope_key = "acme"; messages_per_minute = pos 10 } ∷ [];
  events = [];
  attempts = [];
  suppressions =
      record { customer_id = "acme"; recipient_email = "gone@gmail.com"; reason = "hard_bounce" }
      ∷ [];
}

-- A Redis that counts all keys together.
abbrev pub tally : Redis ℕ
tally = record { incr = λ key n. (some (suc n), suc n); expire = λ key seconds n. (true, n) }

-- Nothing fails; a nanosecond passes at each step.
abbrev pub calm : Env
calm = record { answer = λ t. Answer.works; clock = λ t. noon + t; draw = λ t. 5 }

-- Every statement fails from the fifth point on.
abbrev pub breaking : Env
breaking = record {
  answer = λ t. if ltb t 5 then Answer.works else Answer.refused;
  clock = λ t. noon + t;
  draw = λ t. 5;
}

abbrev pub start : World ℕ
start = record { db = tables; metrics = []; redis = 0; tick = 0 }
