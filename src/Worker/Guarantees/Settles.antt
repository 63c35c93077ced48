-- ===== src/Worker/Guarantees/Settles.antt =====
-- Where a call of `Process` in internal/worker/worker.go leaves its message.
use email_delivery_engine.Runtime.Interface.{acts}
use email_delivery_engine.Throttle.{commands}
use email_delivery_engine.Prelude.{
  ℕ, ◌+◌, String, ◌≡◌, refl, sym, ap, subst, ◌∙◌, ◌⊎◌, inl, inr, Bool, true, false, some, List,
  arith,
}
use email_delivery_engine.Prelude.{eq_iff}
use email_delivery_engine.Prelude.Members.{find?-some}
use email_delivery_engine.Prelude.Int.{ℤ, pos, ◌<ℤ◌}
use email_delivery_engine.Classify.{
  Kind, delivered, hard_bounce, soft_bounce, provider_deferral, rate_limited, transient_failure,
  policy_rejection,
}
use email_delivery_engine.Simulate.{DeliveryResult}
use email_delivery_engine.Backoff.{next_delay}
use email_delivery_engine.Store.{Status, Message, Database}
use email_delivery_engine.Store.Query.{message_by_id, has_id}
use email_delivery_engine.Store.Statement.{Progress}
use email_delivery_engine.Route.{Decision}
use email_delivery_engine.Runtime.{Env, Redis, World, Result, skips}
use email_delivery_engine.Runtime.Rules.{is_ok}
use email_delivery_engine.Worker.Pipeline.{is_terminal, process}
use email_delivery_engine.Worker.Plan.{Write, Follows, retry_plan, outcome_plan}
use email_delivery_engine.Worker.Replay.{
  row_after, progress_of, writes_of, replay-row, Follows-complete,
}
use email_delivery_engine.Worker.Refinement.Attempt.{result_in}
use email_delivery_engine.Worker.Refinement.Decision.{
  Plan, no_customer, customer_blocked, marketing_blocked, recipient_suppressed, no_route,
  at_daily_cap, at_pool_cap, throttled, sent,
}
use email_delivery_engine.Worker.Refinement.Outcome.{Refines, untouched, planned}
use email_delivery_engine.Worker.Refinement.Process.{
  Outcome, absent, row_locked, already_terminal, unread, ran, process-Outcome,
}

-- A decision about the message, after `before` attempts: it is terminal; or it waits for a time that
-- is set, with no attempt used up or with one that leaves another.
abbrev pub Settled : ℤ → ℕ → Progress → Type 0
Settled max_attempts before p =
    ((is_terminal p.status ≡ true) × ((p.attempt_count ≡ before) ⊎ (p.attempt_count ≡ before + 1)))
    ⊎ ((p.status ≡ Status.deferred)
        × ((t : ℕ) × (p.next_attempt_at ≡ some t))
        × ((p.attempt_count ≡ before)
            ⊎ ((p.attempt_count ≡ before + 1) × (pos p.attempt_count <ℤ max_attempts))))

module _ (max_attempts : ℤ) (msg : Message) (d : Decision) (result : DeliveryResult)
    (started : ℕ) where
  retry_plan-Settled :
      (answer : ℕ × Bool) (p : Progress)
      → (answer.1 ≡ false → pos (msg.attempt_count + 1) <ℤ max_attempts)
      → Settled max_attempts msg.attempt_count
          (row_after (retry_plan msg d (msg.attempt_count + 1) result started answer) p)
  retry_plan-Settled (delay, true) p h = inl (refl, inr refl)
  retry_plan-Settled (delay, false) p h = inr (refl, (started + delay, refl), inr (refl, h refl))

  pub next_delay-left :
      (draw : ℕ)
      → (next_delay (pos (msg.attempt_count + 1)) max_attempts draw).1 ≡ false
      → pos (msg.attempt_count + 1) <ℤ max_attempts
  unfolding next_delay
  next_delay-left draw h = ground arith

  outcome_plan-Settled :
      (draw : ℕ) (k : Kind) (p : Progress)
      → Settled max_attempts msg.attempt_count (
          row_after
            (outcome_plan max_attempts msg d (msg.attempt_count + 1) result started draw k)
            p)
  outcome_plan-Settled draw delivered p = inl (refl, inr refl)
  outcome_plan-Settled draw hard_bounce p = inl (refl, inr refl)
  outcome_plan-Settled draw policy_rejection p = inl (refl, inr refl)
  outcome_plan-Settled draw soft_bounce p = retry_plan-Settled _ p (next_delay-left draw)
  outcome_plan-Settled draw provider_deferral p = retry_plan-Settled _ p (next_delay-left draw)
  outcome_plan-Settled draw rate_limited p = retry_plan-Settled _ p (next_delay-left draw)
  outcome_plan-Settled draw transient_failure p = retry_plan-Settled _ p (next_delay-left draw)

pub Plan-Settled :
    {R : Type 0} {redis : Redis R} {env : Env} (max_attempts : ℤ) (msg : Message) (w : World R)
    (plan : List Write)
    → Plan redis env max_attempts msg w plan
    → Settled max_attempts msg.attempt_count (row_after plan (progress_of msg))
Plan-Settled m msg w plan (no_customer h e) = rw e (inl (refl, inl refl))
Plan-Settled m msg w plan (customer_blocked c h b e) = rw e (inl (refl, inl refl))
Plan-Settled m msg w plan (marketing_blocked c h b e) = rw e (inl (refl, inl refl))
Plan-Settled m msg w plan (recipient_suppressed c h b e) = rw e (inl (refl, inl refl))
Plan-Settled m msg w plan (no_route c h why e) = rw e (inl (refl, inl refl))
Plan-Settled m msg w plan (at_daily_cap c d k _ _ _ _ e) = rw e (inr (refl, (_, refl), inl refl))
Plan-Settled m msg w plan (at_pool_cap c d k _ _ _ _ _ e) = rw e (inr (refl, (_, refl), inl refl))
Plan-Settled m msg w plan (throttled c d k scope _ _ _ _ e) = rw e (inr (refl, (_, refl), inl refl))
Plan-Settled {env = env} m msg w plan (sent c d k roll draw _ _ _ _ e) =
    rw e (outcome_plan-Settled m msg d (result_in msg w.db roll) (env.clock k) draw _ _)

pub message_by_id-id :
    (key : String) (db : Database) (m : Message) → message_by_id key db ≡ some m → m.id ≡ key
unfolding message_by_id
message_by_id-id key db m h =
    let (_, t) = find?-some (has_id key) db.messages h in (eq_iff m.id key).0 t

-- The row that a complete run of a plan leaves.
Refines-Settled :
    {R : Type 0} {redis : Redis R} {env : Env} (max_attempts : ℤ) (msg : Message) (w : World R)
    (out : Result Unit × World R)
    → message_by_id msg.id w.db ≡ some msg
    → is_ok out.0 ≡ true
    → Refines redis env max_attempts msg w out
    → (row : Message) × (message_by_id msg.id out.1.db ≡ some row)
      × Settled max_attempts msg.attempt_count (progress_of row)
Refines-Settled max_attempts msg w out h done (untouched failed same) = cc
Refines-Settled max_attempts msg w out h done (planned plan log p follows written) =
    let after = replay-row msg log w.db h in
    let whole : writes_of log ≡ plan =
      Follows-complete plan log (subst (λ b. Follows plan log b) done follows) in
    (
      after.row,
      ap (message_by_id msg.id) written ∙ after.found,
      subst (Settled max_attempts msg.attempt_count)
          (sym (after.columns ∙ ap (λ xs. row_after xs (progress_of msg)) whole))
          (Plan-Settled max_attempts msg w plan p),
    )

module _ {R : Type 0} (redis : Redis R) (env : Env) (max_attempts : ℤ) (key : String) (w : World R)
    (msg : Message) (stored : message_by_id key w.db ≡ some msg) where
  from_Outcome :
      (out : Result Unit × World R)
      → is_terminal msg.status ≡ false
      → skips (env.answer w.tick) ≡ false
      → is_ok out.0 ≡ true
      → Outcome redis env max_attempts key w out
      → (row : Message) × (message_by_id key out.1.db ≡ some row)
        × Settled max_attempts msg.attempt_count (progress_of row)
  from_Outcome out live free done (absent missing same) = cc (stored, missing)
  from_Outcome out live free done (row_locked skipped same) = cc (skipped, free)
  from_Outcome out live free done (already_terminal m found over same) =
      let e : msg ≡ m = cc (stored, found) in
      cc (ap (λ (x : Message). is_terminal x.status) e, over, live)
  from_Outcome out live free done (unread failed same) = cc (failed, done)
  from_Outcome out live free done (ran m found _ refines) =
      let e : m ≡ msg = cc (stored, found) in
      let at_key = message_by_id-id key w.db msg stored in
      subst
        (λ k.
          (row : Message) × (message_by_id k out.1.db ≡ some row)
          × Settled max_attempts msg.attempt_count (progress_of row))
        at_key
        (Refines-Settled max_attempts msg w out (ap (λ k. message_by_id k w.db) at_key ∙ stored)
          done (subst (λ x. Refines redis env max_attempts x w out) e refines))

  -- A call that returns no error has decided about a live message that no other transaction had
  -- locked, whatever statements failed: the message is terminal, or it waits for a time that is set.
  -- At most one attempt is used up, and a message that waits after one has an attempt left.
  pub process-settles :
      is_terminal msg.status ≡ false
      → skips (env.answer w.tick) ≡ false
      → is_ok (process (commands redis) (acts env) max_attempts key w).0 ≡ true
      → (row : Message) × (message_by_id key
            (process (commands redis) (acts env) max_attempts key w).1.db
          ≡ some row)
        × Settled max_attempts msg.attempt_count (progress_of row)
  process-settles live free done =
      from_Outcome (process (commands redis) (acts env) max_attempts key w) live free done
        (process-Outcome redis env max_attempts key w)

  terminal_Outcome :
      (out : Result Unit × World R)
      → is_terminal msg.status ≡ true
      → Outcome redis env max_attempts key w out
      → out.1.db ≡ w.db
  terminal_Outcome out over (absent missing same) = same
  terminal_Outcome out over (row_locked skipped same) = same
  terminal_Outcome out over (already_terminal m found _ same) = same
  terminal_Outcome out over (unread failed same) = same
  terminal_Outcome out over (ran m found live refines) =
      let e : msg ≡ m = cc (stored, found) in
      cc (ap (λ (x : Message). is_terminal x.status) e, over, live)

  -- A message that is delivered again when it is terminal is not touched, and nothing else in the
  -- database is, whatever fails.
  pub process-terminal :
      is_terminal msg.status ≡ true
      → (process (commands redis) (acts env) max_attempts key w).1.db ≡ w.db
  process-terminal over =
      terminal_Outcome (process (commands redis) (acts env) max_attempts key w) over
        (process-Outcome redis env max_attempts key w)
