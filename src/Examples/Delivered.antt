-- ===== src/Examples/Delivered.antt =====
-- A message that a call of `Process` in data-plane/internal/worker/worker.go is bound to send.
use email_delivery_engine.Runtime.Interface.{acts}
use email_delivery_engine.Throttle.{commands}
use email_delivery_engine.Prelude.{◌≡◌, refl, inl, none, some, [], arith}
use email_delivery_engine.Prelude.Int.{pos}
use email_delivery_engine.Store.Query.{
  message_by_id, customer_by_id, is_suppressed, dedicated_pool, routes_for, customer_sends_today,
  pool_sends_today, count_joined,
}
use email_delivery_engine.Route.{
  Decision, pinned_route, warmup_cap, schedule_cap, day_number, route_provider,
}
use email_delivery_engine.Route.Choice.{ChosenFrom}
use email_delivery_engine.Worker.Pipeline.{scope_key_for, process}
use email_delivery_engine.Worker.Refinement.Readings.{
  decided_at, HasRoom, Asked, all_checked, let_through,
}
use email_delivery_engine.Worker.Refinement.Decision.{Clear}
use email_delivery_engine.Worker.Guarantees.Sends.{Sent}
use email_delivery_engine.Worker.Guarantees.Delivers.{process-sends}
use email_delivery_engine.Examples.{acme, own_pool, gmail_route, fresh, tables, tally, calm, start}
use email_delivery_engine.Examples.Service.{tally-Responsive}

abbrev by_own_pool : Decision
by_own_pool = record { route = gmail_route 12 7; pool = own_pool }

fresh-Clear : Clear fresh tables acme
unfolding customer_by_id is_suppressed
fresh-Clear = record {
  accepts = record { found = refl; may_send = refl; may_market = refl };
  not_suppressed = refl;
}

fresh-routed :
    ChosenFrom
      (dedicated_pool "acme" tables)
      tables
      (routes_for (route_provider fresh) tables)
      by_own_pool
unfolding dedicated_pool routes_for pinned_route
fresh-routed = inl refl

fresh-HasRoom : HasRoom calm fresh tables acme by_own_pool (decided_at 0 fresh tables)
unfolding dedicated_pool routes_for pinned_route customer_sends_today pool_sends_today count_joined
    warmup_cap schedule_cap day_number
fresh-HasRoom = record { customer_room = λ _. omega arith; pool_room = λ _. omega arith }

fresh-Asked : Asked tally calm fresh start acme by_own_pool (decided_at 0 fresh tables) none
unfolding scope_key_for
fresh-Asked = let_through _ [] _ _ none 1 refl refl (omega arith) (all_checked _ _)

fresh_known : message_by_id "m-1" tables ≡ some fresh
unfolding message_by_id
fresh_known = refl

process-sends_example :
    Sent tally calm fresh start (process (commands tally) (acts calm) (pos 4) "m-1" start).1.db
process-sends_example =
    process-sends tally calm (λ t. refl) (pos 4) fresh start acme by_own_pool fresh-Clear
      fresh-routed fresh-HasRoom fresh-Asked "m-1" fresh_known refl refl tally-Responsive
