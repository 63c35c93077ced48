-- ===== src/Worker/Guarantees/Counts.antt =====
-- How the recorded attempts of a message agree with its attempt_count, in `Process` of
-- internal/worker/worker.go: their number and the numbers that they bear.
use email_delivery_engine.Runtime.Interface.{acts}
use email_delivery_engine.Throttle.{commands}
use email_delivery_engine.Prelude.{
  ℕ, suc, ◌≤◌, String, ◌≡◌, ◌≢◌, refl, sym, ap, subst, ◌∙◌, inl, inr, Bool, true, false, Option,
  none, some, List, [], ◌∷◌, ◌++◌, All, arith, str_eq, eq_iff, Bool-cases,
}
use email_delivery_engine.Prelude.Int.{ℤ}
use email_delivery_engine.Classify.{
  Kind, delivered, hard_bounce, soft_bounce, provider_deferral, rate_limited, transient_failure,
  policy_rejection,
}
use email_delivery_engine.Simulate.{DeliveryResult}
use email_delivery_engine.Store.{Message, Attempt, Database}
use email_delivery_engine.Store.Query.{message_by_id}
use email_delivery_engine.Store.Statement.{
  Progress, set_progress, insert_event, insert_attempt, insert_suppression, attempt_of,
}
use email_delivery_engine.Route.{Decision}
use email_delivery_engine.Runtime.{Env, Redis, World}
use email_delivery_engine.Worker.Pipeline.{process}
use email_delivery_engine.Worker.Plan.{
  Write, progress, note, trial, suppression, perform, Log, replay, Follows, retry_plan,
  outcome_plan,
}
use email_delivery_engine.Worker.Replay.{row_after, progress_of, writes_of, replay-row}
use email_delivery_engine.Worker.Refinement.Attempt.{result_in}
use email_delivery_engine.Worker.Refinement.Decision.{
  Plan, no_customer, customer_blocked, marketing_blocked, recipient_suppressed, no_route,
  at_daily_cap, at_pool_cap, throttled, sent,
}
use email_delivery_engine.Worker.Guarantees.Settles.{message_by_id-id}
use email_delivery_engine.Worker.Guarantees.Sends.{process-Touches}
use email_delivery_engine.Worker.Guarantees.Logged.{Logged, process-logged, process-absent}

-- What may be said of the attempts of a message and a bound on them: it stays true for a higher bound
-- and where attempts of other messages are added, and an attempt may be added that bears the number
-- above the bound.
pub record Ledger (P : String → ℕ → List Attempt → Type 0) : Type 0 where
  pub widens : (key : String) (m n : ℕ) (rows : List Attempt) → m ≤ n → P key m rows → P key n rows
  pub foreign :
      (key other : String) (n : ℕ) (rows more : List Attempt)
      → other ≢ key
      → All (λ (a : Attempt). a.message_id ≡ other) more
      → P key n rows
      → P key n (rows ++ more)
  pub own :
      (n : ℕ) (rows : List Attempt) (a : Attempt)
      → a.attempt_number ≡ suc n
      → P a.message_id n rows
      → P a.message_id (suc n) (rows ++ (a ∷ []))

-- It is said of every message, with its attempt_count.
abbrev pub Recorded : (String → ℕ → List Attempt → Type 0) → Database → Type 0
Recorded P db =
    (key : String) (row : Message)
    → message_by_id key db ≡ some row
    → P key row.attempt_count db.attempts

-- With `count` in the row and numbers up to `top` recorded: at every point of the writes the count is
-- not below the numbers, and each attempt bears the next number.
abbrev Covered : ℕ → ℕ → List Write → Type 0
Covered count top [] = Unit
Covered count top (progress p ∷ xs) = (top ≤ p.attempt_count) × Covered p.attempt_count top xs
Covered count top (note e ∷ xs) = Covered count top xs
Covered count top (trial a ∷ xs) =
    (a.attempt_number ≡ suc top) × (suc top ≤ count) × Covered count (suc top) xs
Covered count top (suppression ∷ xs) = Covered count top xs

retry_plan-Covered :
    (msg : Message) (d : Decision) (attempt n : ℕ) (result : DeliveryResult) (started : ℕ)
    (answer : ℕ × Bool)
    → n ≤ attempt
    → Covered attempt n (retry_plan msg d attempt result started answer)
retry_plan-Covered msg d attempt n result started (delay, true) h = (h, tt)
retry_plan-Covered msg d attempt n result started (delay, false) h = (h, tt)

outcome_plan-Covered :
    (m : ℤ) (msg : Message) (d : Decision) (attempt n : ℕ) (result : DeliveryResult)
    (started draw : ℕ) (k : Kind)
    → n ≤ attempt
    → Covered attempt n (outcome_plan m msg d attempt result started draw k)
outcome_plan-Covered m msg d attempt n result started draw delivered h = (h, tt)
outcome_plan-Covered m msg d attempt n result started draw hard_bounce h = (h, tt)
outcome_plan-Covered m msg d attempt n result started draw policy_rejection h = (h, tt)
outcome_plan-Covered m msg d attempt n result started draw soft_bounce h =
    retry_plan-Covered msg d attempt n result started _ h
outcome_plan-Covered m msg d attempt n result started draw provider_deferral h =
    retry_plan-Covered msg d attempt n result started _ h
outcome_plan-Covered m msg d attempt n result started draw rate_limited h =
    retry_plan-Covered msg d attempt n result started _ h
outcome_plan-Covered m msg d attempt n result started draw transient_failure h =
    retry_plan-Covered msg d attempt n result started _ h

Plan-Covered :
    {R : Type 0} {redis : Redis R} {env : Env} (m : ℤ) (msg : Message) (w : World R)
    (plan : List Write)
    → Plan redis env m msg w plan
    → Covered msg.attempt_count msg.attempt_count plan
Plan-Covered m msg w plan (no_customer h e) = rw e (omega arith, tt)
Plan-Covered m msg w plan (customer_blocked c h k e) = rw e (omega arith, tt)
Plan-Covered m msg w plan (marketing_blocked c h k e) = rw e (omega arith, tt)
Plan-Covered m msg w plan (recipient_suppressed c h k e) = rw e (omega arith, tt)
Plan-Covered m msg w plan (no_route c h why e) = rw e (omega arith, tt)
Plan-Covered m msg w plan (at_daily_cap c d k _ _ _ _ e) = rw e (omega arith, tt)
Plan-Covered m msg w plan (at_pool_cap c d k _ _ _ _ _ e) = rw e (omega arith, tt)
Plan-Covered m msg w plan (throttled c d k s _ _ _ _ e) = rw e (omega arith, tt)
Plan-Covered {env = env} m msg w plan (sent c d k roll draw _ _ _ _ e) = rw e (
  omega arith,
  (
    omega arith,
    omega arith,
    outcome_plan-Covered m msg d _ (suc msg.attempt_count) (result_in msg w.db roll) (env.clock k)
        draw _ (omega arith),
  ),
)

module _ (P : String → ℕ → List Attempt → Type 0) (laws : Ledger P) where
  Covered-log :
      (msg : Message) (plan : List Write) (log : Log) (complete : Bool) (p : Progress)
      (db : Database) (top : ℕ)
      → Covered p.attempt_count top plan
      → Follows plan log complete
      → top ≤ p.attempt_count
      → P msg.id top db.attempts
      → P msg.id (row_after (writes_of log) p).attempt_count (replay msg log db).attempts
  unfolding set_progress insert_event insert_attempt insert_suppression
  Covered-log msg plan [] b p db top c f h held =
      laws.widens msg.id top p.attempt_count db.attempts h held
  Covered-log msg [] (x ∷ log) b p db top c f h held = absurd f
  Covered-log msg (progress q ∷ plan) ((t, x) ∷ log) b p db top c (e, f) h held =
      rw e (Covered-log msg plan log b q (perform msg (progress q) t db) top c.1 f c.0 held)
  Covered-log msg (note n ∷ plan) ((t, x) ∷ log) b p db top c (e, f) h held =
      rw e (Covered-log msg plan log b p (perform msg (note n) t db) top c f h held)
  Covered-log msg (trial a ∷ plan) ((t, x) ∷ log) b p db top (next, below, c) (e, f) h held = rw e (
      Covered-log msg plan log b p (perform msg (trial a) t db) (suc top) c f below
        (laws.own top db.attempts (attempt_of msg.id a t) next held))
  Covered-log msg (suppression ∷ plan) ((t, x) ∷ log) b p db top c (e, f) h held =
      let same : (perform msg suppression t db).attempts ≡ db.attempts = ground arith in
      rw e (
        Covered-log msg plan log b p (perform msg suppression t db) top c f h
          (subst (P msg.id top) (sym same) held))

  Logged-Recorded :
      {R : Type 0} {redis : Redis R} {env : Env} (m : ℤ) (msg row : Message) (w : World R)
      (after : Database) (complete : Bool)
      → message_by_id msg.id w.db ≡ some msg
      → Logged redis env m msg w after complete
      → P msg.id msg.attempt_count w.db.attempts
      → message_by_id msg.id after ≡ some row
      → P msg.id row.attempt_count after.attempts
  Logged-Recorded m msg row w after complete stored l held found =
      let left = replay-row msg l.log w.db stored in
      let same : left.row ≡ row = cc (left.found, ap (message_by_id msg.id) l.left, found) in
      let covered =
        Covered-log msg l.plan l.log complete (progress_of msg) w.db msg.attempt_count
          (Plan-Covered m msg w l.plan l.chosen) l.follows (omega arith) held in
      let count : (row_after (writes_of l.log) (progress_of msg)).attempt_count
          ≡ row.attempt_count =
        sym (ap (λ (p : Progress). p.attempt_count) left.columns)
        ∙ ap (λ (x : Message). x.attempt_count) same in
      subst (λ x. P msg.id row.attempt_count x.attempts) (sym l.left)
        (subst (λ n. P msg.id n (replay msg l.log w.db).attempts) count covered)

  module _ {R : Type 0} (redis : Redis R) (env : Env) (max_attempts : ℤ) (w : World R)
      (recorded : Recorded P w.db) where
    recorded_own :
        (key : String) (before : Option Message)
        → message_by_id key w.db ≡ before
        → (row : Message)
        → message_by_id key (process (commands redis) (acts env) max_attempts key w).1.db ≡ some row
        → P key row.attempt_count
            (process (commands redis) (acts env) max_attempts key w).1.db.attempts
    recorded_own key none missing row found =
        let same = process-absent redis env max_attempts key w missing in
        cc (ap (message_by_id key) same, missing, found)
    recorded_own key (some msg) stored row found =
        elim (process-logged redis env max_attempts key w msg stored) [
          | inl same ↦
              subst (λ db. P key row.attempt_count db.attempts) (sym same)
                (recorded key row (sym (ap (message_by_id key) same) ∙ found))
          | inr l ↦
              let at_key = message_by_id-id key w.db msg stored in
              subst
                (λ k.
                  P k row.attempt_count
                    (process (commands redis) (acts env) max_attempts key w).1.db.attempts)
                at_key
                (Logged-Recorded max_attempts msg row w _ _
                  (ap (λ k. message_by_id k w.db) at_key ∙ stored) l
                  (subst (λ k. P k msg.attempt_count w.db.attempts) (sym at_key)
                    (recorded key msg stored))
                  (ap
                      (λ k.
                        message_by_id k
                          (process (commands redis) (acts env) max_attempts key w).1.db)
                      at_key
                    ∙ found))
        ]

    -- Whatever fails, a call keeps what is recorded of the attempts of every message.
    pub process-Recorded :
        (k : String) → Recorded P (process (commands redis) (acts env) max_attempts k w).1.db
    process-Recorded k key row found = elim (Bool-cases (str_eq k key)) [
      | inl e ↦
          let same : key ≡ k = sym ((eq_iff k key).0 e) in
          subst
            (λ x.
              message_by_id x (process (commands redis) (acts env) max_attempts k w).1.db ≡ some row
              → P x row.attempt_count
                  (process (commands redis) (acts env) max_attempts k w).1.db.attempts)
            (sym same) (recorded_own k (message_by_id k w.db) refl row) found
      | inr n ↦
          let ne : k ≢ key = λ e. cc ((eq_iff k key).1 e, n) in
          let t = process-Touches redis env max_attempts k w in
          subst (P key row.attempt_count) (sym t.attempts_grow) (
            laws.foreign key k row.attempt_count w.db.attempts t.new_attempts ne t.attempts_own
              (recorded key row (sym (t.other_messages key ne) ∙ found)))
    ]
