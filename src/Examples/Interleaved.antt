-- ===== src/Examples/Interleaved.antt =====
-- Calls of `Process` that run at the same time on the small installation.
use email_delivery_engine.Interleaving.Barred.{runs-Suppressed}
use email_delivery_engine.Worker.Guarantees.Numbers.{tries}
use email_delivery_engine.Queue.{Streams}
use email_delivery_engine.Consumer.{Work, consumes, reclaims, sweeps}
use email_delivery_engine.Examples.Service.{stranded}
use email_delivery_engine.Prelude.{
  zero, suc, true, ℕ, ◌≡◌, ◌≢◌, refl, false, some, List, [], ◌∷◌, map, eq_iff,
}
use email_delivery_engine.Prelude.Int.{pos}
use email_delivery_engine.Prelude.Members.{find?-some, All-mem}
use email_delivery_engine.Store.{Message, Attempt}
use email_delivery_engine.Store.Query.{has_id}
use email_delivery_engine.Runtime.Thread.{thread_bind, thread_wrapping, thread_caught}
use email_delivery_engine.Examples.{fresh, unwanted, bouncing, tables, tally, calm, start}
use email_delivery_engine.Interleaving.{move, runs, started, working}
use email_delivery_engine.Interleaving.Course.{is_bounced}
use email_delivery_engine.Interleaving.Rows.{BouncesListed}
use email_delivery_engine.Interleaving.Bounced.{runs-BouncesListed}
use email_delivery_engine.Interleaving.Settling.{Reports, runs-settles}
use email_delivery_engine.Runtime.{◌>>=◌, wrapping, caught, count, query, exec, now, random}
use email_delivery_engine.Store.Query.{
  message_by_id, customer_by_id, is_suppressed, policy_for, dedicated_pool, shared_pools,
  routes_for, pool_sends_today, count_joined, customer_sends_today,
}
use email_delivery_engine.Store.Statement.{
  set_progress, insert_event, insert_attempt, insert_suppression,
}
use email_delivery_engine.Route.{
  pinned_route, shared_by_id, shared_route, select_shared, select_pool, select_route, day_number,
  schedule_cap, warmup_cap,
}
use email_delivery_engine.Throttle.{itoa_within, itoa, throttle_key, bucket_of, incr, expire, allow}
use email_delivery_engine.Worker.Sending.{
  update_status, write_event, terminate_event, terminate, reschedule, finish, schedule_retry,
  retry_or_bury, outcome_case, apply_outcome, record_attempt, send_marked, send,
}
use email_delivery_engine.Worker.Pipeline.{
  scope_key_for, check_rules, check_throttles, throttle_step, warmup_step, cap_step, route_step,
  suppression_step, customer_step, message_step, load_message, process,
}
use email_delivery_engine.Simulate.{
  before_last_at, local_part, roll_below, health_response, hint_response, raw_response,
  parse_smtp_code, result_of, simulate,
}
use email_delivery_engine.Classify.{rules, first_match, classify}
use email_delivery_engine.Backoff.{with_jitter, delay_index, next_delay}
use email_delivery_engine.Metrics.{entry_of, put_entry, add, inc}
use email_delivery_engine.Prelude.Text.{
  starts_with, contains, to_lower, word, first_field, digits_value, atoi,
}

-- Two workers by turns, for twice as many moves.
abbrev turns : ℕ → List ℕ
turns zero = []
turns (suc n) = 0 ∷ 1 ∷ turns n

abbrev by_turns : List ℕ
by_turns = turns 40

-- Two workers that have taken the same message from the queue both send it, as attempt number one:
-- the row lock of the load ends with its statement, and no later statement looks at the row again.
sent_twice :
    map
      (λ (a : Attempt). a.attempt_number)
      (runs by_turns (started tally calm (pos 4) ("m-1" ∷ "m-1" ∷ []) start)).world.db.attempts
    ≡ 1 ∷ 1 ∷ []
unfolding ◌>>=◌ wrapping caught count query exec now random message_by_id customer_by_id
    is_suppressed policy_for dedicated_pool shared_pools routes_for pool_sends_today count_joined
    customer_sends_today set_progress insert_event insert_attempt insert_suppression pinned_route
    shared_by_id shared_route select_shared select_pool select_route day_number schedule_cap
    warmup_cap itoa_within itoa throttle_key bucket_of incr expire allow update_status write_event
    terminate_event terminate reschedule finish schedule_retry retry_or_bury outcome_case
    apply_outcome record_attempt send_marked send scope_key_for check_rules check_throttles
    throttle_step warmup_step cap_step route_step suppression_step customer_step message_step
    load_message process before_last_at local_part roll_below health_response hint_response
    raw_response parse_smtp_code result_of simulate rules first_match classify with_jitter
    delay_index next_delay entry_of put_entry add inc starts_with contains to_lower word first_field
    digits_value atoi thread_bind thread_wrapping thread_caught move runs
sent_twice = refl

tables-BouncesListed : BouncesListed tables
unfolding message_by_id
tables-BouncesListed key row found bounced =
    let other =
      All-mem (λ (m : Message). is_bounced m.status ≡ false) tables.messages
        (refl, (refl, (refl, (refl, tt)))) (find?-some (has_id key) tables.messages found).0 in
    cc (bounced, other)

-- Two consumers, of which one finds a message that another worker has left, and a sweep.
abbrev works : List Work
works = reclaims ∷ consumes ∷ sweeps ∷ []

runs-BouncesListed_example :
    BouncesListed (runs by_turns (working tally stranded calm (pos 4) works start)).world.db
runs-BouncesListed_example =
    runs-BouncesListed tally stranded calm (pos 4) works by_turns start tables-BouncesListed

-- A stream on which a message is left whose recipient is suppressed.
abbrev returned : Streams ℕ
returned = record stranded {
  xautoclaim = λ idle n s. (some (record { id = "1-0"; field = some "m-3" } ∷ []), s);
}

stored_unwanted : message_by_id "m-3" tables ≡ some unwanted
unfolding message_by_id
stored_unwanted = refl

suppressed_unwanted : is_suppressed "acme" "gone@gmail.com" tables ≡ true
unfolding is_suppressed
suppressed_unwanted = refl

runs-Suppressed_example :
    tries "m-3" (runs by_turns (working tally returned calm (pos 4) works start)).world.db
    ≡ tries "m-3" tables
runs-Suppressed_example =
    runs-Suppressed tally returned calm (pos 4) unwanted works by_turns start stored_unwanted
      suppressed_unwanted

other_letter : fresh.id ≢ bouncing.id
other_letter e = cc ((eq_iff fresh.id bouncing.id).1 e)

stored_fresh : message_by_id "m-1" tables ≡ some fresh
unfolding message_by_id
stored_fresh = refl

stored_bouncing : message_by_id "m-4" tables ≡ some bouncing
unfolding message_by_id
stored_bouncing = refl

runs-settles_example :
    Reports
      (pos 4)
      tables
      (fresh ∷ bouncing ∷ [])
      (runs by_turns (started tally calm (pos 4) ("m-1" ∷ "m-4" ∷ []) start)).threads
      (runs by_turns (started tally calm (pos 4) ("m-1" ∷ "m-4" ∷ []) start)).world.db
runs-settles_example =
    runs-settles tally calm (pos 4) start (λ t. refl) (fresh ∷ bouncing ∷ []) by_turns
      ((other_letter, tt), ((tt), tt)) ((stored_fresh, refl), ((stored_bouncing, refl), tt))
