-- ===== src/Worker/Guarantees/Bounces.antt =====
-- What a hard bounce in `applyOutcome` of internal/worker/worker.go leaves behind.
use email_delivery_engine.Runtime.Interface.{acts}
use email_delivery_engine.Throttle.{commands}
use email_delivery_engine.Prelude.{
  ℕ, String, ◌≡◌, ◌≢◌, refl, sym, ap, subst, ◌∙◌, inl, inr, Bool, true, false, ◌||◌, some, List, [],
  ◌∷◌, ◌++◌, arith, Bool-cases, any, eq_refl,
}
use email_delivery_engine.Prelude.Int.{ℤ}
use email_delivery_engine.Classify.{
  Kind, delivered, hard_bounce, soft_bounce, provider_deferral, rate_limited, transient_failure,
  policy_rejection,
}
use email_delivery_engine.Simulate.{DeliveryResult}
use email_delivery_engine.Store.{Status, Message, Suppression, Database}
use email_delivery_engine.Store.Query.{message_by_id, is_suppressed}
use email_delivery_engine.Store.Statement.{
  Progress, set_progress, insert_event, insert_attempt, insert_suppression,
}
use email_delivery_engine.Route.{Decision}
use email_delivery_engine.Runtime.{Env, Redis, World, Result}
use email_delivery_engine.Runtime.Rules.{is_ok}
use email_delivery_engine.Worker.Pipeline.{is_terminal, process}
use email_delivery_engine.Worker.Plan.{
  Write, progress, note, trial, suppression, perform, Log, replay, Follows, retry_plan,
  outcome_plan,
}
use email_delivery_engine.Worker.Replay.{row_after, progress_of, writes_of, replay-row}
use email_delivery_engine.Worker.Refinement.Attempt.{result_in}
use email_delivery_engine.Worker.Refinement.Decision.{
  Plan, no_customer, customer_blocked, marketing_blocked, recipient_suppressed, no_route,
  at_daily_cap, at_pool_cap, throttled, sent,
}
use email_delivery_engine.Worker.Refinement.Outcome.{Refines, untouched, planned}
use email_delivery_engine.Worker.Refinement.Process.{
  Outcome, absent, row_locked, already_terminal, unread, ran, process-Outcome,
}
use email_delivery_engine.Worker.Guarantees.Settles.{message_by_id-id}

-- No status `bounced` is written before the suppression.
abbrev Careful : List Write → Type 0
Careful [] = Unit
Careful (progress p ∷ xs) = (p.status ≢ Status.bounced) × Careful xs
Careful (note n ∷ xs) = Careful xs
Careful (trial t ∷ xs) = Careful xs
Careful (suppression ∷ xs) = Unit

retry_plan-Careful :
    (msg : Message) (d : Decision) (attempt : ℕ) (result : DeliveryResult) (started : ℕ)
    (answer : ℕ × Bool)
    → Careful (retry_plan msg d attempt result started answer)
retry_plan-Careful msg d attempt result started (delay, true) = (λ e. cc, tt)
retry_plan-Careful msg d attempt result started (delay, false) = (λ e. cc, tt)

outcome_plan-Careful :
    (m : ℤ) (msg : Message) (d : Decision) (attempt : ℕ) (result : DeliveryResult)
    (started draw : ℕ) (k : Kind)
    → Careful (outcome_plan m msg d attempt result started draw k)
outcome_plan-Careful m msg d attempt result started draw delivered = (λ e. cc, tt)
outcome_plan-Careful m msg d attempt result started draw hard_bounce = tt
outcome_plan-Careful m msg d attempt result started draw policy_rejection = (λ e. cc, tt)
outcome_plan-Careful m msg d attempt result started draw soft_bounce =
    retry_plan-Careful msg d attempt result started _
outcome_plan-Careful m msg d attempt result started draw provider_deferral =
    retry_plan-Careful msg d attempt result started _
outcome_plan-Careful m msg d attempt result started draw rate_limited =
    retry_plan-Careful msg d attempt result started _
outcome_plan-Careful m msg d attempt result started draw transient_failure =
    retry_plan-Careful msg d attempt result started _

Plan-Careful :
    {R : Type 0} {redis : Redis R} {env : Env} (m : ℤ) (msg : Message) (w : World R)
    (plan : List Write)
    → Plan redis env m msg w plan
    → Careful plan
Plan-Careful m msg w plan (no_customer h e) = rw e (λ x. cc, tt)
Plan-Careful m msg w plan (customer_blocked c h k e) = rw e (λ x. cc, tt)
Plan-Careful m msg w plan (marketing_blocked c h k e) = rw e (λ x. cc, tt)
Plan-Careful m msg w plan (recipient_suppressed c h k e) = rw e (λ x. cc, tt)
Plan-Careful m msg w plan (no_route c h why e) = rw e (λ x. cc, tt)
Plan-Careful m msg w plan (at_daily_cap c d k _ _ _ _ e) = rw e (λ x. cc, tt)
Plan-Careful m msg w plan (at_pool_cap c d k _ _ _ _ _ e) = rw e (λ x. cc, tt)
Plan-Careful m msg w plan (throttled c d k s _ _ _ _ e) = rw e (λ x. cc, tt)
Plan-Careful {env = env} m msg w plan (sent c d k roll draw _ _ _ _ e) =
    rw e (λ x. cc, outcome_plan-Careful m msg d _ (result_in msg w.db roll) (env.clock k) draw _)

abbrev Suppresses : Message → Database → Type 0
Suppresses msg db = is_suppressed msg.customer_id msg.to_email db ≡ true

pub any-append :
    (p : Suppression → Bool) (xs ys : List Suppression) → any p (xs ++ ys) ≡ (any p xs || any p ys)
any-append p [] ys = refl
any-append p (x ∷ xs) ys = ground (arith, any-append p xs ys)

perform-Suppresses :
    (msg : Message) (x : Write) (t : ℕ) (db : Database)
    → Suppresses msg db
    → Suppresses msg (perform msg x t db)
unfolding is_suppressed set_progress insert_event insert_attempt insert_suppression
perform-Suppresses msg (progress p) t db h = h
perform-Suppresses msg (note n) t db h = h
perform-Suppresses msg (trial a) t db h = h
perform-Suppresses msg suppression t db h = rw h h

pub suppression-Suppresses :
    (msg : Message) (t : ℕ) (db : Database) → Suppresses msg (perform msg suppression t db)
unfolding is_suppressed insert_suppression
suppression-Suppresses msg t db =
    elim (Bool-cases (is_suppressed msg.customer_id msg.to_email db)) [
      | inl h ↦ rw h h
      | inr n ↦ rw n (rw any-append (ground (arith, eq_refl msg.customer_id, eq_refl msg.to_email)))
    ]

replay-Suppresses :
    (msg : Message) (log : Log) (db : Database)
    → Suppresses msg db
    → Suppresses msg (replay msg log db)
replay-Suppresses msg [] db h = h
replay-Suppresses msg ((t, x) ∷ log) db h =
    replay-Suppresses msg log (perform msg x t db) (perform-Suppresses msg x t db h)

-- A log of a careful plan that leaves the row bounced has the suppression in it.
Careful-bounced :
    (msg : Message) (plan : List Write) (log : Log) (complete : Bool) (p : Progress) (db : Database)
    → Careful plan
    → Follows plan log complete
    → p.status ≢ Status.bounced
    → (row_after (writes_of log) p).status ≡ Status.bounced
    → Suppresses msg (replay msg log db)
Careful-bounced msg plan [] b p db c f before h = absurd (before h)
Careful-bounced msg [] (x ∷ log) b p db c f before h = absurd f
Careful-bounced msg (progress q ∷ plan) ((t, progress r) ∷ log) b p db (nq, c) (e, f) before h =
    Careful-bounced msg plan log b r (perform msg (progress r) t db) c f (λ x. nq (cc)) h
Careful-bounced msg (progress q ∷ plan) ((t, note n) ∷ log) b p db c (e, f) before h = cc
Careful-bounced msg (progress q ∷ plan) ((t, trial a) ∷ log) b p db c (e, f) before h = cc
Careful-bounced msg (progress q ∷ plan) ((t, suppression) ∷ log) b p db c (e, f) before h = cc
Careful-bounced msg (note n ∷ plan) ((t, x) ∷ log) b p db c (e, f) before h =
    Careful-bounced msg plan log b p (perform msg x t db) c f before
      (subst (λ y. (row_after (y ∷ writes_of log) p).status ≡ Status.bounced) e h)
Careful-bounced msg (trial a ∷ plan) ((t, x) ∷ log) b p db c (e, f) before h =
    Careful-bounced msg plan log b p (perform msg x t db) c f before
      (subst (λ y. (row_after (y ∷ writes_of log) p).status ≡ Status.bounced) e h)
Careful-bounced msg (suppression ∷ plan) ((t, x) ∷ log) b p db c (e, f) before h =
    replay-Suppresses msg log (perform msg x t db)
      (subst (λ y. Suppresses msg (perform msg y t db)) (sym e) (suppression-Suppresses msg t db))

module _ {R : Type 0} (redis : Redis R) (env : Env) (max_attempts : ℤ) (key : String) (w : World R)
    (msg row : Message) (stored : message_by_id key w.db ≡ some msg)
    (live : is_terminal msg.status ≡ false) (hard : row.status ≡ Status.bounced) where
  not_bounced : (s : Status) → is_terminal s ≡ false → s ≢ Status.bounced
  not_bounced s h e = ground arith

  unchanged : (db : Database) → db ≡ w.db → message_by_id key db ≡ some row → Suppresses msg db
  unchanged db same after =
      let e : msg ≡ row = cc (stored, ap (message_by_id key) same, after) in
      absurd (not_bounced msg.status live (ap (λ (x : Message). x.status) e ∙ hard))

  Refines-Suppresses :
      (out : Result Unit × World R)
      → Refines redis env max_attempts msg w out
      → message_by_id key out.1.db ≡ some row
      → Suppresses msg out.1.db
  Refines-Suppresses out (untouched failed same) after = unchanged out.1.db same after
  Refines-Suppresses out (planned plan log p follows written) after =
      let at_key = message_by_id-id key w.db msg stored in
      let left = replay-row msg log w.db (ap (λ k. message_by_id k w.db) at_key ∙ stored) in
      let same : left.row ≡ row = cc (
        left.found,
        ap (λ k. message_by_id k (replay msg log w.db)) at_key,
        ap (message_by_id key) written,
        after,
      ) in
      subst (Suppresses msg) (sym written) (
        Careful-bounced msg plan log (is_ok out.0) (progress_of msg) w.db
          (Plan-Careful max_attempts msg w plan p) follows (not_bounced msg.status live)
          (ap (λ (q : Progress). q.status) (sym left.columns)
            ∙ ap (λ (x : Message). x.status) same
            ∙ hard))

  from_Outcome :
      (out : Result Unit × World R)
      → Outcome redis env max_attempts key w out
      → message_by_id key out.1.db ≡ some row
      → Suppresses msg out.1.db
  from_Outcome out (absent missing same) after = unchanged out.1.db same after
  from_Outcome out (row_locked skipped same) after = unchanged out.1.db same after
  from_Outcome out (already_terminal m found over same) after = unchanged out.1.db same after
  from_Outcome out (unread failed same) after = unchanged out.1.db same after
  from_Outcome out (ran m found _ refines) after =
      let e : m ≡ msg = cc (stored, found) in
      Refines-Suppresses out (subst (λ x. Refines redis env max_attempts x w out) e refines) after

  -- Whatever fails, a message that was live and that a call leaves bounced has its recipient on its
  -- customer's suppression list.
  pub process-bounced :
      message_by_id key (process (commands redis) (acts env) max_attempts key w).1.db ≡ some row
      → is_suppressed msg.customer_id msg.to_email
          (process (commands redis) (acts env) max_attempts key w).1.db
        ≡ true
  process-bounced after =
      from_Outcome (process (commands redis) (acts env) max_attempts key w)
        (process-Outcome redis env max_attempts key w) after
