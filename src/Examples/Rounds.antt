-- ===== src/Examples/Rounds.antt =====
-- Rounds of the loops on the small installation, one after another, and how often they attempt a
-- message.
use email_delivery_engine.Runtime.Interface.{acts}
use email_delivery_engine.Throttle.{commands}
use email_delivery_engine.Prelude.{◌+◌, ◌≤◌, String, ◌≡◌, refl, some, ℕ, List, [], ◌∷◌, map, arith}
use email_delivery_engine.Prelude.Int.{pos, ◌≤ℤ◌}
use email_delivery_engine.Prelude.Members.{find?-some, All-mem}
use email_delivery_engine.Store.{Status, Message, Attempt}
use email_delivery_engine.Store.Query.{has_id}
use email_delivery_engine.Queue.{reclaim, ack, command}
use email_delivery_engine.Worker.Guarantees.Numbers.{Numbered, tries, Counted}
use email_delivery_engine.Consumer.{
  Round, reclaiming, run_rounds, reclaim_and_process, process_entries, process_entry,
}
use email_delivery_engine.Metrics.Counting.{value_at}
use email_delivery_engine.Consumer.Counters.{run_rounds-counters_grow}
use email_delivery_engine.Consumer.Attempts.{run_rounds-Numbered}
use email_delivery_engine.Consumer.Bounded.{Within, run_rounds-bounded}
use email_delivery_engine.Examples.{noon, letter, fresh, tables, tally, calm, start}
use email_delivery_engine.Examples.Service.{stranded, tally-Responsive}
use email_delivery_engine.Runtime.{World, ◌>>=◌, wrapping, caught, count, query, exec, now, random}
use email_delivery_engine.Store.Query.{
  message_by_id, customer_by_id, is_suppressed, policy_for, dedicated_pool, shared_pools,
  routes_for, pool_sends_today, count_joined, customer_sends_today,
}
use email_delivery_engine.Store.Statement.{
  set_progress, insert_event, insert_attempt, insert_suppression,
}
use email_delivery_engine.Route.{
  pinned_route, shared_by_id, shared_route, select_shared, select_pool, select_route, day_number,
  schedule_cap, warmup_cap,
}
use email_delivery_engine.Throttle.{itoa_within, itoa, throttle_key, bucket_of, incr, expire, allow}
use email_delivery_engine.Worker.Sending.{
  update_status, write_event, terminate_event, terminate, reschedule, finish, schedule_retry,
  retry_or_bury, outcome_case, apply_outcome, record_attempt, send_marked, send,
}
use email_delivery_engine.Worker.Pipeline.{
  scope_key_for, check_rules, check_throttles, throttle_step, warmup_step, cap_step, route_step,
  suppression_step, customer_step, message_step, load_message, process,
}
use email_delivery_engine.Simulate.{
  before_last_at, local_part, roll_below, health_response, hint_response, raw_response,
  parse_smtp_code, result_of, simulate,
}
use email_delivery_engine.Classify.{rules, first_match, classify}
use email_delivery_engine.Backoff.{with_jitter, delay_index, next_delay}
use email_delivery_engine.Metrics.{entry_of, put_entry, add, inc}
use email_delivery_engine.Prelude.Text.{
  starts_with, contains, to_lower, word, first_field, digits_value, atoi,
}

-- Every message of the tables has been attempted at most once.
tables-few :
    (key : String) (row : Message) → message_by_id key tables ≡ some row → row.attempt_count ≤ 1
unfolding message_by_id
tables-few key row found =
    All-mem (λ (m : Message). m.attempt_count ≤ 1) tables.messages
      (omega arith, (omega arith, (omega arith, (omega arith, tt))))
      (find?-some (has_id key) tables.messages found).0

tables-Counted : Counted tables
tables-Counted key row found = omega arith

tables-Within : Within (pos 4) tables
tables-Within key row found =
    let few = tables-few key row found in (ground arith, λ live. ground arith)

-- The row of the first message when it has been delivered.
abbrev delivered_row : Message
delivered_row = record fresh {
  status = Status.delivered;
  route_id = some 12;
  ip_pool_id = some 7;
  attempt_count = 1;
  updated_at = noon + 16;
}

abbrev calm_rounds : List Round
calm_rounds = reclaiming calm ∷ reclaiming calm ∷ []

delivered_once :
    message_by_id "m-1" (run_rounds tally stranded (pos 4) calm_rounds start).db
    ≡ some delivered_row
unfolding ◌>>=◌ wrapping caught count query exec now random message_by_id customer_by_id
    is_suppressed policy_for dedicated_pool shared_pools routes_for pool_sends_today count_joined
    customer_sends_today set_progress insert_event insert_attempt insert_suppression pinned_route
    shared_by_id shared_route select_shared select_pool select_route day_number schedule_cap
    warmup_cap itoa_within itoa throttle_key bucket_of incr expire allow update_status write_event
    terminate_event terminate reschedule finish schedule_retry retry_or_bury outcome_case
    apply_outcome record_attempt send_marked send scope_key_for check_rules check_throttles
    throttle_step warmup_step cap_step route_step suppression_step customer_step message_step
    load_message process before_last_at local_part roll_below health_response hint_response
    raw_response parse_smtp_code result_of simulate rules first_match classify with_jitter
    delay_index next_delay entry_of put_entry add inc starts_with contains to_lower word first_field
    digits_value atoi reclaim_and_process process_entries process_entry reclaim ack command
delivered_once = refl

tables-Numbered : Numbered tables
tables-Numbered key row found = (tt, tt)

run_rounds-Numbered_example : Numbered (run_rounds tally stranded (pos 4) calm_rounds start).db
run_rounds-Numbered_example =
    run_rounds-Numbered tally stranded (pos 4) calm_rounds start tables-Numbered

run_rounds-bounded_example :
    pos (tries "m-1" (run_rounds tally stranded (pos 4) calm_rounds start).db) ≤ℤ pos 4
run_rounds-bounded_example =
    run_rounds-bounded tally tally-Responsive stranded (pos 4) calm_rounds start
      ((λ t. refl), ((λ t. refl), tt)) tables-Counted tables-Within "m-1" delivered_row
      delivered_once

run_rounds-counters_grow_example :
    value_at "delivery_attempts_total" []
    ≤ value_at "delivery_attempts_total"
        (run_rounds tally stranded (pos 4) calm_rounds start).metrics
run_rounds-counters_grow_example =
    run_rounds-counters_grow tally stranded (pos 4) calm_rounds start "delivery_attempts_total" refl

-- A message whose last allowed attempt was marked as sending before a statement failed.
abbrev stranded_start : World ℕ
stranded_start = record start {
  db = record tables { messages = letter "m-1" "user@gmail.com" Status.sending 4 ∷ [] };
}

-- It is sent a fifth time, with four attempts allowed: the limit is looked at behind a send only.
sent_beyond_limit :
    map
      (λ (a : Attempt). a.attempt_number)
      (process (commands tally) (acts calm) (pos 4) "m-1" stranded_start).1.db.attempts
    ≡ 5 ∷ []
unfolding ◌>>=◌ wrapping caught count query exec now random message_by_id customer_by_id
    is_suppressed policy_for dedicated_pool shared_pools routes_for pool_sends_today count_joined
    customer_sends_today set_progress insert_event insert_attempt insert_suppression pinned_route
    shared_by_id shared_route select_shared select_pool select_route day_number schedule_cap
    warmup_cap itoa_within itoa throttle_key bucket_of incr expire allow update_status write_event
    terminate_event terminate reschedule finish schedule_retry retry_or_bury outcome_case
    apply_outcome record_attempt send_marked send scope_key_for check_rules check_throttles
    throttle_step warmup_step cap_step route_step suppression_step customer_step message_step
    load_message process before_last_at local_part roll_below health_response hint_response
    raw_response parse_smtp_code result_of simulate rules first_match classify with_jitter
    delay_index next_delay entry_of put_entry add inc starts_with contains to_lower word first_field
    digits_value atoi reclaim_and_process process_entries process_entry reclaim ack command
sent_beyond_limit = refl
