-- ===== src/Worker/Guarantees/Delivers.antt =====
-- Which messages a call of `Process` in internal/worker/worker.go sends for certain.
use email_delivery_engine.Runtime.Interface.{acts}
use email_delivery_engine.Throttle.{commands}
use email_delivery_engine.Prelude.{
  ℕ, ◌+◌, ◌&&◌, String, ◌≡◌, refl, sym, ap, subst, inl, inr, true, false, none, some, List, [], ◌∷◌,
  arith,
}
use email_delivery_engine.Prelude.Int.{ℤ, pos, ◌≤ℤ◌, ◌<ℤ◌}
use email_delivery_engine.Store.{Message, Customer}
use email_delivery_engine.Store.Query.{message_by_id, dedicated_pool, routes_for}
use email_delivery_engine.Route.{Decision, route_provider}
use email_delivery_engine.Route.Choice.{ChosenFrom}
use email_delivery_engine.Runtime.{Env, Redis, World, Result, skips}
use email_delivery_engine.Runtime.Rules.{is_ok}
use email_delivery_engine.Runtime.Success.{Calm, Responsive}
use email_delivery_engine.Worker.Pipeline.{
  is_terminal, blocks_sending, blocks_marketing, is_marketing, process,
}
use email_delivery_engine.Worker.Plan.{Write, Log, replay, Follows, send_plan}
use email_delivery_engine.Worker.Refinement.Attempt.{result_in}
use email_delivery_engine.Worker.Refinement.Readings.{
  Unroutable, routes_unread, no_enabled_route, own_pool_unread, shared_pools_unread,
  no_route_on_pool, decided_at, HasRoom, customer_count, pool_cap, pool_count, Asked,
}
use email_delivery_engine.Worker.Refinement.Decision.{
  Clear, Chosen, Plan, no_customer, customer_blocked, marketing_blocked, recipient_suppressed,
  no_route, at_daily_cap, at_pool_cap, throttled, sent,
}
use email_delivery_engine.Worker.Refinement.Outcome.{Refines, untouched, planned}
use email_delivery_engine.Worker.Refinement.Process.{
  Outcome, absent, row_locked, already_terminal, unread, ran, process-Outcome,
}
use email_delivery_engine.Worker.Guarantees.Calm.{process-ok}
use email_delivery_engine.Worker.Guarantees.Sends.{Sent, Sent-log}
use email_delivery_engine.Worker.Refinement.Unique.{ChosenFrom-unique, no_choice, Checked-unique}

send_whole :
    {R : Type 0} {redis : Redis R} {env : Env} (m : ℤ) (msg : Message) (w : World R) (c : Customer)
    (d : Decision) (k roll draw : ℕ) (log : Log)
    → Clear msg w.db c
    → Chosen msg w d k
    → HasRoom env msg w.db c d k
    → Asked redis env msg w c d k none
    → Follows (send_plan m msg d (env.clock k) (result_in msg w.db roll) draw) log true
    → Sent redis env msg w (replay msg log w.db)
send_whole m msg w c d k roll draw [] clear chosen room asked f = cc (f refl)
send_whole m msg w c d k roll draw (x ∷ []) clear chosen room asked (e, f) = cc (f refl)
send_whole m msg w c d k roll draw (x ∷ y ∷ []) clear chosen room asked (e, (e', f)) = cc (f refl)
send_whole m msg w c d k roll draw (x ∷ y ∷ z ∷ log) clear chosen room asked f =
    Sent-log m msg w c d k roll draw x y z log true clear chosen room asked f

module _ {R : Type 0} (redis : Redis R) (env : Env) (calm : Calm env) (max_attempts : ℤ)
    (msg : Message) (w : World R) (c : Customer) (d : Decision) (clear : Clear msg w.db c)
    (routed : ChosenFrom
      (dedicated_pool msg.customer_id w.db)
      w.db
      (routes_for (route_provider msg) w.db)
      d)
    (room : HasRoom env msg w.db c d (decided_at w.tick msg w.db))
    (asked : Asked redis env msg w c d (decided_at w.tick msg w.db) none) where
  the_customer : (x : Customer) → Clear msg w.db x → x ≡ c
  the_customer x h = cc (h.accepts.found, clear.accepts.found)

  the_decision : (x : Decision) (k : ℕ) → Chosen msg w x k → x ≡ d
  the_decision x k h = ChosenFrom-unique _ w.db _ x d h.chosen_from routed

  routable : (t : ℕ) → ¬ Unroutable env msg w.db t
  routable t (routes_unread h) = cc (calm t, h)
  routable t (no_enabled_route h) = no_choice _ w.db _ d h routed
  routable t (own_pool_unread h) = cc (calm (t + 1), h)
  routable t (shared_pools_unread own h) = cc (calm (t + 2), h)
  routable t (no_route_on_pool own h) = not_chosen routed
    where
      not_chosen :
          ¬ ChosenFrom
            (dedicated_pool msg.customer_id w.db)
            w.db
            (routes_for (route_provider msg) w.db)
            d
      not_chosen (inl e) = cc
      not_chosen (inr (e, f)) = cc

  Plan-Sent :
      (plan : List Write) (log : Log)
      → Plan redis env max_attempts msg w plan
      → Follows plan log true
      → Sent redis env msg w (replay msg log w.db)
  Plan-Sent plan log (no_customer h e) f = cc (h, clear.accepts.found)
  Plan-Sent plan log (customer_blocked x h b e) f =
      let same : x ≡ c = cc (h, clear.accepts.found) in
      cc (ap (λ (y : Customer). blocks_sending y.sending_state) same, b, clear.accepts.may_send)
  Plan-Sent plan log (marketing_blocked x h b e) f =
      let same : x ≡ c = cc (h, clear.accepts.found) in
      cc (
        ap (λ (y : Customer). blocks_marketing y.sending_state && is_marketing msg.type) same,
        b,
        clear.accepts.may_market,
      )
  Plan-Sent plan log (recipient_suppressed x h b e) f = cc (b, clear.not_suppressed)
  Plan-Sent plan log (no_route x h why e) f = absurd (routable _ why)
  Plan-Sent plan log (at_daily_cap x y k h g capped full e) f =
      let same : x ≡ c = the_customer x h in
      let below =
        room.customer_room (subst (λ (z : Customer). pos 0 <ℤ z.daily_send_cap) same capped) in
      let reached : c.daily_send_cap
          ≤ℤ pos (customer_count env msg w.db (decided_at w.tick msg w.db)) =
        subst (λ n. c.daily_send_cap ≤ℤ pos (customer_count env msg w.db n)) g.taken_at
          (subst (λ (z : Customer). z.daily_send_cap ≤ℤ pos (customer_count env msg w.db k)) same
            full) in
      absurd (ground (arith, below, reached))
  Plan-Sent plan log (at_pool_cap x y k h g free capped full e) f =
      absurd (pool_free x y k (the_customer x h) (the_decision y k g) g.taken_at capped full)
    where
      pool_free :
          (x : Customer) (y : Decision) (k : ℕ)
          → x ≡ c
          → y ≡ d
          → k ≡ decided_at w.tick msg w.db
          → pos 0 ≤ℤ pool_cap env y k
          → ¬ (pool_cap env y k ≤ℤ pos (pool_count env w.db x y k))
      pool_free x y k ex ey ek capped full =
          let capped' = rw (ey, ek) at capped in
          let full' = rw (ex, ey, ek) at full in
          let below = room.pool_room capped' in ground (arith, below, full')
  Plan-Sent plan log (throttled x y k scope h g roomy held e) f =
      let there : Asked redis env msg w c d (decided_at w.tick msg w.db) (some scope) =
        rw (← the_customer x h, ← the_decision y k g, ← g.taken_at) held in
      cc (Checked-unique redis env msg d _ _ _ none (some scope) asked there)
  Plan-Sent plan log (sent x y k roll draw h g roomy passed e) f =
      send_whole max_attempts msg w x y k roll draw log h g roomy passed
        (subst (λ p. Follows p log true) e f)

  Refines-Sent :
      (out : Result Unit × World R)
      → is_ok out.0 ≡ true
      → Refines redis env max_attempts msg w out
      → Sent redis env msg w out.1.db
  Refines-Sent out done (untouched failed same) = cc
  Refines-Sent out done (planned plan log p follows written) =
      subst (Sent redis env msg w) (sym written)
        (Plan-Sent plan log p (subst (Follows plan log) done follows))

  module _ (key : String) (stored : message_by_id key w.db ≡ some msg)
      (live : is_terminal msg.status ≡ false) (free : skips (env.answer w.tick) ≡ false) where
    Outcome-Sent :
        (out : Result Unit × World R)
        → is_ok out.0 ≡ true
        → Outcome redis env max_attempts key w out
        → Sent redis env msg w out.1.db
    Outcome-Sent out done (absent missing same) = cc (stored, missing)
    Outcome-Sent out done (row_locked skipped same) = cc (skipped, free)
    Outcome-Sent out done (already_terminal m found over same) =
        let e : msg ≡ m = cc (stored, found) in
        cc (ap (λ (x : Message). is_terminal x.status) e, over, live)
    Outcome-Sent out done (unread failed same) = cc (failed, done)
    Outcome-Sent out done (ran m found _ refines) =
        let e : m ≡ msg = cc (stored, found) in
        Refines-Sent out done (subst (λ x. Refines redis env max_attempts x w out) e refines)

    -- When no statement fails and Redis replies, a call for a live message that no other transaction
    -- has locked makes exactly one attempt if the customer may send it, the recipient is not
    -- suppressed, the tables give a route, the customer's and the pool's sends of the day are below
    -- their caps when they are counted, and Redis counts no more hits than each throttle rule that
    -- applies allows. The attempt is the one that the tables give: numbered one above the message's
    -- attempts so far, on the pool of that route, with the simulator's result.
    pub process-sends :
        Responsive redis
        → Sent redis env msg w (process (commands redis) (acts env) max_attempts key w).1.db
    process-sends answers =
        Outcome-Sent (process (commands redis) (acts env) max_attempts key w)
          (process-ok redis answers env calm max_attempts key w)
          (process-Outcome redis env max_attempts key w)
