-- ===== src/Worker/Pipeline.antt =====
-- `Process` in data-plane/internal/worker/worker.go up to the send: load, abuse blocks, suppression,
-- route selection, caps and throttles.
use email_delivery_engine.Prelude.{
  ℕ, ◌+◌, String, Bool, true, false, ◌&&◌, Option, none, some, List, [], ◌∷◌, str_eq, if◌then◌else◌,
}
use email_delivery_engine.Prelude.Int.{ℤ, pos, ltb_ℤ, leb_ℤ}
use email_delivery_engine.Backoff.{minute, hour}
use email_delivery_engine.Store.{
  Status, SendingState, MessageType, EventType, Message, Customer, ThrottleRule, Database, num,
  text,
}
use email_delivery_engine.Store.Query.{
  message_by_id, customer_by_id, is_suppressed, customer_sends_today, pool_sends_today,
}
use email_delivery_engine.Route.{Decision, select_route, warmup_cap}
use email_delivery_engine.Throttle.{itoa, allow}
use email_delivery_engine.Runtime.{Result, ok, err}
use email_delivery_engine.Runtime.Interface.{Ops, Limiter}
use email_delivery_engine.Worker.Sending.{
  classification_meta, terminate_event, terminate, reschedule, send,
}
use Prim.Native.String.{◌++◌ as append_text}

-- terminalStatuses
abbrev pub is_terminal : Status → Bool
is_terminal Status.delivered = true
is_terminal Status.bounced = true
is_terminal Status.failed = true
is_terminal Status.dead_lettered = true
is_terminal Status.suppressed = true
is_terminal Status.blocked = true
is_terminal _ = false

abbrev pub blocks_sending : SendingState → Bool
blocks_sending SendingState.blocked_from_sending = true
blocks_sending _ = false

abbrev pub blocks_marketing : SendingState → Bool
blocks_marketing SendingState.blocked_from_marketing = true
blocks_marketing _ = false

abbrev pub is_marketing : MessageType → Bool
is_marketing MessageType.marketing = true
is_marketing MessageType.transactional = false

abbrev pub state_name : SendingState → String
state_name SendingState.trusted = "trusted"
state_name SendingState.new = "new"
state_name SendingState.limited = "limited"
state_name SendingState.blocked_from_marketing = "blocked_from_marketing"
state_name SendingState.blocked_from_sending = "blocked_from_sending"

abbrev pub type_name : MessageType → String
type_name MessageType.transactional = "transactional"
type_name MessageType.marketing = "marketing"

-- scopeKeyFor
unfoldable pub scope_key_for : String → Message → Decision → Option String
scope_key_for scope msg d =
    if str_eq scope "customer"
    then some msg.customer_id
    else if str_eq scope "provider"
    then some msg.mailbox_provider
    else if str_eq scope "domain"
    then some msg.recipient_domain
    else if str_eq scope "ip_pool"
    then some (itoa d.pool.id)
    else none

abbrev pub applies : ThrottleRule → Message → Decision → Bool
applies r msg d = elim (scope_key_for r.scope msg d) [
  | none ↦ false
  | some key ↦ str_eq key r.scope_key
]

module _ {M : Type 0 → Type 0} (limiter : Limiter M) (ops : Ops M) where
  infixl 5 ◌>>=◌ ◌>>◌
  abbrev ◌>>=◌ : {A B : Type 0} → M A → (A → M B) → M B
  ◌>>=◌ = ops.bind

  abbrev ◌>>◌ : {A B : Type 0} → M A → M B → M B
  m >> k = ops.bind m (λ _. k)

  -- The loop of `checkThrottles`; the result is the scope that is over its limit.
  unfoldable pub check_rules : List ThrottleRule → Message → Decision → M (Option String)
  check_rules [] msg d = ops.return none
  check_rules (r ∷ rs) msg d =
      let rest = check_rules rs msg d in
      if applies r msg d
      then (do
        verdict ← allow limiter ops r.scope r.scope_key r.messages_per_minute
        if verdict.allowed
            then rest
            else ops.return (some (append_text r.scope (append_text ":" r.scope_key))))
      else rest

  unfoldable pub check_throttles : Message → Decision → M (Option String)
  check_throttles msg d = do
    rules ← ops.wrapping "load throttle rules" (ops.query (λ _ (db : Database). db.throttle_rules))
    check_rules rules msg d

  abbrev pub after_throttles : ℤ → Message → Decision → ℕ → Option String → M Unit
  after_throttles max_attempts msg d t none = send ops max_attempts msg d t
  after_throttles max_attempts msg d t (some scope) = do
    ops.count "messages_throttled_total"
    reschedule ops msg d (t + minute) "rate_limited" (("throttle_scope", text scope) ∷ [])

  -- Step 6.
  unfoldable pub throttle_step : ℤ → Message → Decision → ℕ → M Unit
  throttle_step max_attempts msg d t = do
    verdict ← check_throttles msg d
    after_throttles max_attempts msg d t verdict

  -- Step 5.
  unfoldable pub warmup_step : ℤ → Message → Decision → ℕ → M Unit
  warmup_step max_attempts msg d t =
      let cap = warmup_cap d.pool t in
      if leb_ℤ (pos 0) cap
      then (do
        sent ← ops.wrapping "count pool sends" (ops.query (pool_sends_today d.pool.id))
        if leb_ℤ cap (pos sent)
            then (do
              ops.count "messages_throttled_total"
              reschedule ops msg d (t + hour) "warmup_limit"
                  (("cap", num cap) ∷ ("sent_today", num (pos sent)) ∷ []))
            else throttle_step max_attempts msg d t)
      else throttle_step max_attempts msg d t

  -- Step 4.
  unfoldable pub cap_step : ℤ → Message → Customer → Decision → M Unit
  cap_step max_attempts msg c d = do
    t ← ops.now
    if ltb_ℤ (pos 0) c.daily_send_cap
        then (do
          sent ←
              ops.wrapping "count customer sends" (ops.query (customer_sends_today msg.customer_id))
          if leb_ℤ c.daily_send_cap (pos sent)
              then (do
                ops.count "messages_throttled_total"
                reschedule ops msg d (t + hour) "daily_send_cap" (
                    ("daily_send_cap", num c.daily_send_cap) ∷ ("sent_today", num (pos sent)) ∷ []))
              else warmup_step max_attempts msg d t)
        else warmup_step max_attempts msg d t

  abbrev pub after_route : ℤ → Message → Customer → Result Decision → M Unit
  after_route max_attempts msg c (ok d) = cap_step max_attempts msg c d
  after_route max_attempts msg c (err e) =
      terminate ops msg Status.failed EventType.bounced "" (classification_meta "no_route")

  -- Step 3.
  unfoldable pub route_step : ℤ → Message → Customer → M Unit
  route_step max_attempts msg c = do
    decision ← ops.caught (select_route ops msg msg.customer_id)
    after_route max_attempts msg c decision

  -- Step 2.
  unfoldable pub suppression_step : ℤ → Message → Customer → M Unit
  suppression_step max_attempts msg c = do
    suppressed ←
        ops.wrapping "check suppression"
          (ops.query (λ _. is_suppressed msg.customer_id msg.to_email))
    if suppressed
        then (do
          ops.count "messages_suppressed_total"
          terminate_event ops msg Status.suppressed EventType.suppressed "" none ""
              "recipient_on_suppression_list" none)
        else route_step max_attempts msg c

  -- Steps 1 and 1b, for the customer that was found.
  unfoldable pub customer_step : ℤ → Message → Option Customer → M Unit
  customer_step max_attempts msg none =
      terminate ops msg Status.failed EventType.bounced "" (classification_meta "no_customer")
  customer_step max_attempts msg (some c) =
      if blocks_sending c.sending_state
      then (do
        ops.count "abuse_blocks_total"
        terminate_event ops msg Status.blocked EventType.blocked_by_abuse_control "" none ""
            "customer_blocked_from_sending"
            (some (("sending_state", text (state_name c.sending_state)) ∷ [])))
      else if blocks_marketing c.sending_state && is_marketing msg.type
      then (do
        ops.count "abuse_blocks_total"
        terminate_event ops msg Status.blocked EventType.blocked_by_abuse_control "" none ""
            "customer_blocked_from_marketing"
            (some (
              ("sending_state", text (state_name c.sending_state))
              ∷ ("type", text (type_name msg.type))
              ∷ [])))
      else suppression_step max_attempts msg c

  -- From the message that was found on.
  unfoldable pub message_step : ℤ → Option Message → M Unit
  message_step max_attempts none = ops.return tt
  message_step max_attempts (some msg) = if is_terminal msg.status then ops.return tt else (do
    customer ← ops.wrapping "load customer" (ops.query (λ _. customer_by_id msg.customer_id))
    customer_step max_attempts msg customer)

  -- `GetMessageForProcessing`: FOR UPDATE SKIP LOCKED finds no row that another transaction has
  -- locked. The statement is a transaction of its own, so its lock ends with it.
  unfoldable pub load_message : String → M (Option Message)
  load_message key = ops.fetch_unlocked (message_by_id key)

  unfoldable pub process : ℤ → String → M Unit
  process max_attempts key = do
    found ← ops.wrapping "load message" (load_message key)
    message_step max_attempts found
