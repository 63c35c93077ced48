-- ===== src/Examples/Pipeline.antt =====
-- Calls of the worker on the small installation, and examples of their theorems.
use mathlib.Core.List.{Memᴰ}
use email_delivery_engine.Runtime.Interface.{acts}
use email_delivery_engine.Throttle.{commands}
use email_delivery_engine.Prelude.{
  ◌==◌, if◌then◌else◌, ◌+◌, ℕ, String, ◌≡◌, refl, ◌⊎◌, true, Option, none, some, [],
}
use email_delivery_engine.Prelude.Int.{pos}
use email_delivery_engine.Store.{Status, Message}
use email_delivery_engine.Store.Query.{message_by_id, is_suppressed, dedicated_pool, routes_for}
use email_delivery_engine.Route.{select_route, route_provider}
use email_delivery_engine.Route.Choice.{
  Selected, select_route-Selected, select_route-prefers_dedicated,
}
use email_delivery_engine.Runtime.{Answer, Env, World, Result, ok}
use email_delivery_engine.Runtime.Rules.{is_ok}
use email_delivery_engine.Worker.Pipeline.{process}
use email_delivery_engine.Worker.Replay.{progress_of}
use email_delivery_engine.Worker.Tables.{Touches}
use email_delivery_engine.Worker.Refinement.Process.{Outcome, process-Outcome}
use email_delivery_engine.Worker.Guarantees.Settles.{Settled, process-settles}
use email_delivery_engine.Worker.Guarantees.Sends.{Sent, process-sends_once, process-Touches}
use email_delivery_engine.Worker.Guarantees.Bounces.{process-bounced}
use email_delivery_engine.Worker.Guarantees.Blocks.{suppressed_recipient, process-Barred}
use email_delivery_engine.Examples.{
  noon, bouncing, fresh, done, unwanted, own_pool, gmail_route, tables, tally, calm, breaking,
  start,
}
use email_delivery_engine.Runtime.{◌>>=◌, wrapping, caught, count, query, exec, now, random}
use email_delivery_engine.Store.Query.{
  message_by_id, customer_by_id, is_suppressed, policy_for, dedicated_pool, shared_pools,
  routes_for, pool_sends_today, count_joined, customer_sends_today,
}
use email_delivery_engine.Store.Statement.{
  set_progress, insert_event, insert_attempt, insert_suppression,
}
use email_delivery_engine.Route.{
  pinned_route, shared_by_id, shared_route, select_shared, select_pool, select_route, day_number,
  schedule_cap, warmup_cap,
}
use email_delivery_engine.Throttle.{itoa_within, itoa, throttle_key, bucket_of, incr, expire, allow}
use email_delivery_engine.Worker.Sending.{
  update_status, write_event, terminate_event, terminate, reschedule, finish, schedule_retry,
  retry_or_bury, outcome_case, apply_outcome, record_attempt, send_marked, send,
}
use email_delivery_engine.Worker.Pipeline.{
  scope_key_for, check_rules, check_throttles, throttle_step, warmup_step, cap_step, route_step,
  suppression_step, customer_step, message_step, load_message, process,
}
use email_delivery_engine.Simulate.{
  before_last_at, local_part, roll_below, health_response, hint_response, raw_response,
  parse_smtp_code, result_of, simulate,
}
use email_delivery_engine.Classify.{rules, first_match, classify}
use email_delivery_engine.Backoff.{with_jitter, delay_index, next_delay}
use email_delivery_engine.Metrics.{entry_of, put_entry, add, inc}
use email_delivery_engine.Prelude.Text.{
  starts_with, contains, to_lower, word, first_field, digits_value, atoi,
}

abbrev run : String → Result Unit × World ℕ
run key = process (commands tally) (acts calm) (pos 4) key start

abbrev status_of : String → World ℕ → Option Status
status_of key w = elim (message_by_id key w.db) [ none ↦ none | some m ↦ some m.status ]

fresh_stored : message_by_id "m-1" tables ≡ some fresh
unfolding message_by_id
fresh_stored = refl

done_stored : message_by_id "m-2" tables ≡ some done
unfolding message_by_id
done_stored = refl

unwanted_stored : message_by_id "m-3" tables ≡ some unwanted
unfolding message_by_id
unwanted_stored = refl

own_pool_found : dedicated_pool "acme" tables ≡ some own_pool
unfolding dedicated_pool
own_pool_found = refl

own_route_found : Memᴰ (gmail_route 12 7) (routes_for (route_provider fresh) tables)
unfolding routes_for
own_route_found = Memᴰ.tail (Memᴰ.head refl)

decides_own :
    (select_route (acts calm) fresh "acme" start).0
    ≡ ok (record { route = gmail_route 12 7; pool = own_pool })
unfolding ◌>>=◌ wrapping caught count query exec now random routes_for dedicated_pool shared_pools
    pinned_route shared_by_id shared_route select_shared select_pool select_route
decides_own = refl

delivers : is_ok (run "m-1").0 ≡ true
unfolding ◌>>=◌ wrapping caught count query exec now random message_by_id customer_by_id
    is_suppressed policy_for dedicated_pool shared_pools routes_for pool_sends_today count_joined
    customer_sends_today set_progress insert_event insert_attempt insert_suppression pinned_route
    shared_by_id shared_route select_shared select_pool select_route day_number schedule_cap
    warmup_cap itoa_within itoa throttle_key bucket_of incr expire allow update_status write_event
    terminate_event terminate reschedule finish schedule_retry retry_or_bury outcome_case
    apply_outcome record_attempt send_marked send scope_key_for check_rules check_throttles
    throttle_step warmup_step cap_step route_step suppression_step customer_step message_step
    load_message process before_last_at local_part roll_below health_response hint_response
    raw_response parse_smtp_code result_of simulate rules first_match classify with_jitter
    delay_index next_delay entry_of put_entry add inc starts_with contains to_lower word first_field
    digits_value atoi
delivers = refl

process-Outcome_example :
    Outcome tally breaking
      (pos 4)
      "m-1"
      start
      (process (commands tally) (acts breaking) (pos 4) "m-1" start)
process-Outcome_example = process-Outcome tally breaking (pos 4) "m-1" start

process-settles_example :
    (row : Message) × (message_by_id "m-1" (run "m-1").1.db ≡ some row)
    × Settled (pos 4) 0 (progress_of row)
process-settles_example =
    process-settles tally calm (pos 4) "m-1" start fresh fresh_stored refl refl delivers

process-sends_once_example :
    ((run "m-4").1.db.attempts ≡ [])
    ⊎ ((msg : Message) × (message_by_id "m-4" tables ≡ some msg)
        × Sent tally calm msg start (run "m-4").1.db)
process-sends_once_example = process-sends_once tally calm (pos 4) "m-4" start

process-Touches_example :
    Touches "m-4" tables (process (commands tally) (acts breaking) (pos 4) "m-4" start).1.db
process-Touches_example = process-Touches tally breaking (pos 4) "m-4" start

process-Barred_example : (run "m-3").1.db.attempts ≡ []
unfolding is_suppressed
process-Barred_example =
    process-Barred tally calm (pos 4) "m-3" start unwanted unwanted_stored
      (suppressed_recipient refl)

select_route-Selected_example :
    Selected fresh "acme" tables (record { route = gmail_route 12 7; pool = own_pool })
select_route-Selected_example = select_route-Selected calm fresh "acme" start _ decides_own

select_route-prefers_dedicated_example : own_pool ≡ own_pool
select_route-prefers_dedicated_example =
    select_route-prefers_dedicated calm fresh "acme" start
      (record { route = gmail_route 12 7; pool = own_pool }) own_pool (gmail_route 12 7) decides_own
      own_pool_found own_route_found refl

abbrev bounced_row : Message
bounced_row = record bouncing {
  status = Status.bounced;
  route_id = some 12;
  ip_pool_id = some 7;
  attempt_count = 2;
  updated_at = noon + 17;
}

bounces : message_by_id "m-4" (run "m-4").1.db ≡ some bounced_row
unfolding ◌>>=◌ wrapping caught count query exec now random message_by_id customer_by_id
    is_suppressed policy_for dedicated_pool shared_pools routes_for pool_sends_today count_joined
    customer_sends_today set_progress insert_event insert_attempt insert_suppression pinned_route
    shared_by_id shared_route select_shared select_pool select_route day_number schedule_cap
    warmup_cap itoa_within itoa throttle_key bucket_of incr expire allow update_status write_event
    terminate_event terminate reschedule finish schedule_retry retry_or_bury outcome_case
    apply_outcome record_attempt send_marked send scope_key_for check_rules check_throttles
    throttle_step warmup_step cap_step route_step suppression_step customer_step message_step
    load_message process before_last_at local_part roll_below health_response hint_response
    raw_response parse_smtp_code result_of simulate rules first_match classify with_jitter
    delay_index next_delay entry_of put_entry add inc starts_with contains to_lower word first_field
    digits_value atoi
bounces = refl

bouncing_stored : message_by_id "m-4" tables ≡ some bouncing
unfolding message_by_id
bouncing_stored = refl

process-bounced_example : is_suppressed "acme" "BOUNCE.me@gmail.com" (run "m-4").1.db ≡ true
process-bounced_example =
    process-bounced tally calm (pos 4) "m-4" start bouncing bounced_row bouncing_stored refl refl
      bounces

-- Only the statement that loads the routes fails.
abbrev routes_break : Env
routes_break = record calm { answer = λ t. if t == 3 then Answer.refused else Answer.works }

abbrev unrouted_row : Message
unrouted_row = record fresh { status = Status.failed; updated_at = noon + 4 }

-- A database error in the selection of a route ends the message.
unrouted :
    message_by_id "m-1" (process (commands tally) (acts routes_break) (pos 4) "m-1" start).1.db
    ≡ some unrouted_row
unfolding ◌>>=◌ wrapping caught count query exec now random message_by_id customer_by_id
    is_suppressed policy_for dedicated_pool shared_pools routes_for pool_sends_today count_joined
    customer_sends_today set_progress insert_event insert_attempt insert_suppression pinned_route
    shared_by_id shared_route select_shared select_pool select_route day_number schedule_cap
    warmup_cap itoa_within itoa throttle_key bucket_of incr expire allow update_status write_event
    terminate_event terminate reschedule finish schedule_retry retry_or_bury outcome_case
    apply_outcome record_attempt send_marked send scope_key_for check_rules check_throttles
    throttle_step warmup_step cap_step route_step suppression_step customer_step message_step
    load_message process before_last_at local_part roll_below health_response hint_response
    raw_response parse_smtp_code result_of simulate rules first_match classify with_jitter
    delay_index next_delay entry_of put_entry add inc starts_with contains to_lower word first_field
    digits_value atoi
unrouted = refl
