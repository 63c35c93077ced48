-- ===== src/Worker/Guarantees/Sends.antt =====
-- How often a call of `Process` in internal/worker/worker.go sends.
use email_delivery_engine.Runtime.Interface.{acts}
use email_delivery_engine.Throttle.{commands}
use email_delivery_engine.Prelude.{
  ℕ, ◌+◌, String, ◌≡◌, refl, sym, ap, subst, ◌∙◌, ◌⊎◌, inl, inr, Bool, none, some, List, [], ◌∷◌,
  ◌++◌,
}
use email_delivery_engine.Prelude.Int.{ℤ}
use email_delivery_engine.Classify.{}
use email_delivery_engine.Store.{Message, Customer, Database}
use email_delivery_engine.Store.Query.{message_by_id}
use email_delivery_engine.Store.Statement.{attempt_of, set_progress, insert_event, insert_attempt}
use email_delivery_engine.Route.{Decision}
use email_delivery_engine.Runtime.{Env, Redis, World, Result}
use email_delivery_engine.Runtime.Rules.{is_ok}
use email_delivery_engine.Worker.Pipeline.{process}
use email_delivery_engine.Worker.Plan.{Write, Log, replay, Follows, send_plan, trial_of}
use email_delivery_engine.Worker.Replay.{trials}
use email_delivery_engine.Worker.Tables.{replay-no_trials, Touches, Touches-refl, replay-Touches}
use email_delivery_engine.Worker.Refinement.Attempt.{result_in}
use email_delivery_engine.Worker.Refinement.Decision.{
  Clear, Chosen, Plan, no_customer, customer_blocked, marketing_blocked, recipient_suppressed,
  no_route, at_daily_cap, at_pool_cap, throttled, sent,
}
use email_delivery_engine.Worker.Refinement.Readings.{HasRoom, Asked}
use email_delivery_engine.Worker.Refinement.Outcome.{Refines, untouched, planned}
use email_delivery_engine.Worker.Refinement.Process.{
  Outcome, absent, row_locked, already_terminal, unread, ran, process-Outcome,
}
use email_delivery_engine.Worker.Guarantees.Settles.{message_by_id-id}
use email_delivery_engine.Worker.Guarantees.Trials.{Follows-no_trials, outcome_plan-no_trials}

-- The attempts after a run: as before, or with the row of one attempt for the message, which is the
-- simulator's result for the provider's state in the tables, sent by a decision that the customer
-- may use, by a customer who may send it and has room, to a recipient who is not suppressed.
pub record Sent {R : Type 0} (redis : Redis R) (env : Env) (msg : Message) (start : World R)
    (after : Database) : Type 0 where
  pub customer : Customer
  pub decision : Decision
  pub decided : ℕ
  pub roll : ℕ
  pub written_at : ℕ
  pub clear : Clear msg start.db customer
  pub chosen : Chosen msg start decision decided
  pub has_room : HasRoom env msg start.db customer decision decided
  pub let_through : Asked redis env msg start customer decision decided none
  pub one_attempt :
      after.attempts
      ≡ start.db.attempts
        ++ (attempt_of msg.id
              (trial_of msg decision (msg.attempt_count + 1) (result_in msg start.db roll))
              written_at
            ∷ [])

-- The first three writes of a send, and what follows them.
pub Sent-log :
    {R : Type 0} {redis : Redis R} {env : Env} (m : ℤ) (msg : Message) (w : World R) (c : Customer)
    (d : Decision) (k roll draw : ℕ) (x y z : ℕ × Write) (log : Log) (complete : Bool)
    → Clear msg w.db c
    → Chosen msg w d k
    → HasRoom env msg w.db c d k
    → Asked redis env msg w c d k none
    → Follows
        (send_plan m msg d (env.clock k) (result_in msg w.db roll) draw)
        (x ∷ y ∷ z ∷ log)
        complete
    → Sent redis env msg w (replay msg (x ∷ y ∷ z ∷ log) w.db)
unfolding set_progress insert_event insert_attempt
Sent-log {env = env} m msg w c d k roll draw x y z log complete clear chosen room asked
      (e, (e', (e'', f))) =
    record {
      customer = c;
      decision = d;
      decided = k;
      roll = roll;
      written_at = z.0;
      clear = clear;
      chosen = chosen;
      has_room = room;
      let_through = asked;
      one_attempt =
          rw (e, e', e'')
            (replay-no_trials msg log _ (
              Follows-no_trials _ log complete
                (outcome_plan-no_trials m msg d (msg.attempt_count + 1) (result_in msg w.db roll)
                  (env.clock k) draw (result_in msg w.db roll).classification)
                f));
    }

send_log :
    {R : Type 0} {redis : Redis R} {env : Env} (m : ℤ) (msg : Message) (w : World R) (c : Customer)
    (d : Decision) (k roll draw : ℕ) (log : Log) (complete : Bool)
    → Clear msg w.db c
    → Chosen msg w d k
    → HasRoom env msg w.db c d k
    → Asked redis env msg w c d k none
    → Follows (send_plan m msg d (env.clock k) (result_in msg w.db roll) draw) log complete
    → ((replay msg log w.db).attempts ≡ w.db.attempts) ⊎ Sent redis env msg w (replay msg log w.db)
unfolding set_progress insert_event insert_attempt
send_log {env = env} m msg w c d k roll draw [] complete clear chosen room asked f = inl refl
send_log {env = env} m msg w c d k roll draw ((t₁, x) ∷ []) complete clear chosen room asked
      (e, f) =
    inl (rw e refl)
send_log {env = env} m msg w c d k roll draw ((t₁, x) ∷ (t₂, y) ∷ []) complete clear chosen room
      asked (e, (e', f)) =
    inl (rw (e, e') refl)
send_log m msg w c d k roll draw (x ∷ y ∷ z ∷ log) complete clear chosen room asked f =
    inr (Sent-log m msg w c d k roll draw x y z log complete clear chosen room asked f)

abbrev pub SendsAtMostOnce : {R : Type 0} → Redis R → Env → Message → World R → Database → Type 0
SendsAtMostOnce redis env msg start after =
    (after.attempts ≡ start.db.attempts) ⊎ Sent redis env msg start after

-- A plan that is not a send makes no attempt.
quiet :
    {R : Type 0} {redis : Redis R} {env : Env} (msg : Message) (w : World R)
    (plan plan' : List Write) (log : Log) (complete : Bool)
    → plan ≡ plan'
    → trials plan' ≡ []
    → Follows plan log complete
    → SendsAtMostOnce redis env msg w (replay msg log w.db)
quiet msg w plan plan' log complete e none_left f = inl (
    replay-no_trials msg log w.db (Follows-no_trials plan log complete (ap trials e ∙ none_left) f))

Plan-sends :
    {R : Type 0} {redis : Redis R} {env : Env} (m : ℤ) (msg : Message) (w : World R)
    (plan : List Write) (log : Log) (complete : Bool)
    → Plan redis env m msg w plan
    → Follows plan log complete
    → SendsAtMostOnce redis env msg w (replay msg log w.db)
Plan-sends m msg w plan log b (no_customer h e) f = quiet msg w plan _ log b e refl f
Plan-sends m msg w plan log b (customer_blocked c h k e) f = quiet msg w plan _ log b e refl f
Plan-sends m msg w plan log b (marketing_blocked c h k e) f = quiet msg w plan _ log b e refl f
Plan-sends m msg w plan log b (recipient_suppressed c h k e) f = quiet msg w plan _ log b e refl f
Plan-sends m msg w plan log b (no_route c h why e) f = quiet msg w plan _ log b e refl f
Plan-sends m msg w plan log b (at_daily_cap c d k _ _ _ _ e) f = quiet msg w plan _ log b e refl f
Plan-sends m msg w plan log b (at_pool_cap c d k _ _ _ _ _ e) f = quiet msg w plan _ log b e refl f
Plan-sends m msg w plan log b (throttled c d k s _ _ _ _ e) f = quiet msg w plan _ log b e refl f
Plan-sends m msg w plan log b (sent c d k roll draw clear chosen room asked e) f =
    send_log m msg w c d k roll draw log b clear chosen room asked
      (subst (λ p. Follows p log b) e f)

Sent-at :
    {R : Type 0} {redis : Redis R} {env : Env} (msg : Message) (w : World R) (a b : Database)
    → b ≡ a
    → SendsAtMostOnce redis env msg w a
    → SendsAtMostOnce redis env msg w b
Sent-at {redis = redis} {env = env} msg w a b e = subst (SendsAtMostOnce redis env msg w) (sym e)

Refines-sends :
    {R : Type 0} {redis : Redis R} {env : Env} (m : ℤ) (msg : Message) (w : World R)
    (out : Result Unit × World R)
    → Refines redis env m msg w out
    → SendsAtMostOnce redis env msg w out.1.db × Touches msg.id w.db out.1.db
Refines-sends m msg w out (untouched failed same) = (
  inl (ap (λ (x : Database). x.attempts) same),
  subst (Touches msg.id w.db) (sym same) (Touches-refl msg.id w.db),
)
Refines-sends m msg w out (planned plan log p follows written) = (
  Sent-at msg w (replay msg log w.db) out.1.db written
      (Plan-sends m msg w plan log (is_ok out.0) p follows),
  subst (Touches msg.id w.db) (sym written) (replay-Touches msg log w.db),
)

-- What a call that began in `start` has done, on behalf of the message with the identity `key`.
abbrev pub SendsFor : {R : Type 0} → Redis R → Env → String → World R → Database → Type 0
SendsFor redis env key start after =
    ((after.attempts ≡ start.db.attempts)
      ⊎ ((msg : Message) × (message_by_id key start.db ≡ some msg)
          × Sent redis env msg start after))
    × Touches key start.db after

module _ {R : Type 0} (redis : Redis R) (env : Env) (max_attempts : ℤ) (key : String)
    (w : World R) where
  SendsFor-same : (after : Database) → after ≡ w.db → SendsFor redis env key w after
  SendsFor-same after e = subst (SendsFor redis env key w) (sym e) (inl refl, Touches-refl key w.db)

  SendsFor-found :
      (m : Message) (after : Database)
      → message_by_id key w.db ≡ some m
      → SendsAtMostOnce redis env m w after × Touches m.id w.db after
      → SendsFor redis env key w after
  SendsFor-found m after found (inl same, touches) =
      (inl same, subst (λ k. Touches k w.db after) (message_by_id-id key w.db m found) touches)
  SendsFor-found m after found (inr sent_once, touches) = (
    inr (m, found, sent_once),
    subst (λ k. Touches k w.db after) (message_by_id-id key w.db m found) touches,
  )

  Outcome-SendsFor :
      (out : Result Unit × World R)
      → Outcome redis env max_attempts key w out
      → SendsFor redis env key w out.1.db
  Outcome-SendsFor out (absent missing same) = SendsFor-same out.1.db same
  Outcome-SendsFor out (row_locked skipped same) = SendsFor-same out.1.db same
  Outcome-SendsFor out (already_terminal m found over same) = SendsFor-same out.1.db same
  Outcome-SendsFor out (unread failed same) = SendsFor-same out.1.db same
  Outcome-SendsFor out (ran m found live refines) =
      SendsFor-found m out.1.db found (Refines-sends max_attempts m w out refines)

  -- Whatever fails, a call makes no attempt, or exactly one: then it is for the message that it was
  -- called for, numbered one above its attempts so far, with the simulator's result, and its customer
  -- may send it, the recipient is not suppressed, the pool is the customer's own or a shared one, the
  -- customer's and the pool's sends of the day, counted when the call counts them, were below their
  -- caps if there are caps, and Redis let the message through by each throttle rule that applies.
  pub process-sends_once :
      let after = (process (commands redis) (acts env) max_attempts key w).1.db in
      (after.attempts ≡ w.db.attempts)
      ⊎ ((msg : Message) × (message_by_id key w.db ≡ some msg) × Sent redis env msg w after)
  process-sends_once =
      (Outcome-SendsFor (process (commands redis) (acts env) max_attempts key w)
        (process-Outcome redis env max_attempts key w)).0

  -- Whatever fails, a call leaves every other message and all customers, pools, routes, policies and
  -- throttle rules as they are, and only appends to the events, the attempts and the suppression
  -- list: the events and the attempts that it appends are the message's own.
  pub process-Touches :
      Touches key w.db (process (commands redis) (acts env) max_attempts key w).1.db
  process-Touches =
      (Outcome-SendsFor (process (commands redis) (acts env) max_attempts key w)
        (process-Outcome redis env max_attempts key w)).1
