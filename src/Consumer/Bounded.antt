-- ===== src/Consumer/Bounded.antt =====
-- How often the loops of cmd/worker/main.go attempt a message.
use email_delivery_engine.Runtime.Interface.{acts}
use email_delivery_engine.Throttle.{commands}
use email_delivery_engine.Prelude.{
  ℕ, String, ◌≡◌, ◌≢◌, refl, sym, ap, subst, ◌∙◌, inl, inr, true, false, Option, none, some, List,
  All, arith, str_eq, eq_iff, Bool-cases,
}
use email_delivery_engine.Prelude.Int.{ℤ, pos, ◌≤ℤ◌, ◌<ℤ◌}
use email_delivery_engine.Store.{Message, Database}
use email_delivery_engine.Store.Query.{message_by_id}
use email_delivery_engine.Store.Statement.{Progress, mark_queued_row}
use email_delivery_engine.Runtime.{Env, Redis, World}
use email_delivery_engine.Runtime.Success.{Calm, Responsive}
use email_delivery_engine.Queue.{Streams}
use email_delivery_engine.Worker.Pipeline.{is_terminal, process}
use email_delivery_engine.Worker.Replay.{row_after, progress_of, replay-row, Follows-complete}
use email_delivery_engine.Worker.Sweep.Limits.{Swept}
use email_delivery_engine.Worker.Guarantees.Settles.{Settled, Plan-Settled, message_by_id-id}
use email_delivery_engine.Worker.Guarantees.Sends.{process-Touches}
use email_delivery_engine.Worker.Guarantees.Logged.{Logged, process-logged, process-absent}
use email_delivery_engine.Worker.Guarantees.Numbers.{tries, Counted}
use email_delivery_engine.Consumer.Attempts.{
  mark_queued_row-before, Swept-messages, run_rounds-Counted,
}
use email_delivery_engine.Worker.Guarantees.Calm.{process-ok}
use email_delivery_engine.Consumer.{Round, run_rounds}
use email_delivery_engine.Consumer.Preserve.{IsKept, env_of, run_rounds-kept}

-- No message counts more attempts than are allowed, and one that is not terminal has one left.
abbrev pub Within : ℤ → Database → Type 0
Within max_attempts db =
    (key : String) (row : Message)
    → message_by_id key db ≡ some row
    → (pos row.attempt_count ≤ℤ max_attempts)
      × (is_terminal row.status ≡ false → pos row.attempt_count <ℤ max_attempts)

Settled-within :
    (max_attempts : ℤ) (before : ℕ) (p : Progress)
    → Settled max_attempts before p
    → pos before <ℤ max_attempts
    → (pos p.attempt_count ≤ℤ max_attempts)
      × (is_terminal p.status ≡ false → pos p.attempt_count <ℤ max_attempts)
Settled-within m n p (inl (over, inl e)) h = (ground arith, λ live. cc)
Settled-within m n p (inl (over, inr e)) h = (ground arith, λ live. cc)
Settled-within m n p (inr (waits, due, inl e)) h = (ground arith, λ live. ground arith)
Settled-within m n p (inr (waits, due, inr (e, room))) h = (ground arith, λ live. room)

module _ {R : Type 0} (redis : Redis R) (answers : Responsive redis) (env : Env) (calm : Calm env)
    (max_attempts : ℤ) (w : World R) (within : Within max_attempts w.db) where
  Logged-within :
      (msg row : Message) (after : Database)
      → message_by_id msg.id w.db ≡ some msg
      → Logged redis env max_attempts msg w after true
      → message_by_id msg.id after ≡ some row
      → (pos row.attempt_count ≤ℤ max_attempts)
        × (is_terminal row.status ≡ false → pos row.attempt_count <ℤ max_attempts)
  Logged-within msg row after stored l found =
      let left = replay-row msg l.log w.db stored in
      let same : left.row ≡ row = cc (left.found, ap (message_by_id msg.id) l.left, found) in
      let settled =
        subst (Settled max_attempts msg.attempt_count)
          (sym (
            ap progress_of (sym same)
            ∙ left.columns
            ∙ ap (λ xs. row_after xs (progress_of msg)) (Follows-complete l.plan l.log l.follows)))
          (Plan-Settled max_attempts msg w l.plan l.chosen) in
      Settled-within max_attempts msg.attempt_count (progress_of row) settled
        ((within msg.id msg stored).1 l.live)

  within_own :
      (key : String) (before : Option Message)
      → message_by_id key w.db ≡ before
      → (row : Message)
      → message_by_id key (process (commands redis) (acts env) max_attempts key w).1.db ≡ some row
      → (pos row.attempt_count ≤ℤ max_attempts)
        × (is_terminal row.status ≡ false → pos row.attempt_count <ℤ max_attempts)
  within_own key none missing row found =
      let same = process-absent redis env max_attempts key w missing in
      cc (ap (message_by_id key) same, missing, found)
  within_own key (some msg) stored row found =
      elim (process-logged redis env max_attempts key w msg stored) [
        | inl same ↦ within key row (sym (ap (message_by_id key) same) ∙ found)
        | inr l ↦
            let at_key = message_by_id-id key w.db msg stored in
            Logged-within msg row _ (ap (λ k. message_by_id k w.db) at_key ∙ stored)
              (subst
                (Logged redis env max_attempts msg w
                  (process (commands redis) (acts env) max_attempts key w).1.db)
                (process-ok redis answers env calm max_attempts key w) l)
              (ap
                  (λ k.
                    message_by_id k (process (commands redis) (acts env) max_attempts key w).1.db)
                  at_key
                ∙ found)
      ]

  process-Within :
      (k : String) → Within max_attempts (process (commands redis) (acts env) max_attempts k w).1.db
  process-Within k key row found = elim (Bool-cases (str_eq k key)) [
    | inl e ↦
        let same : k ≡ key = (eq_iff k key).0 e in
        within_own key (message_by_id key w.db) refl row (
          subst
            (λ x.
              message_by_id key (process (commands redis) (acts env) max_attempts x w).1.db
              ≡ some row)
            same found)
    | inr n ↦
        let ne : k ≢ key = λ e. cc ((eq_iff k key).1 e, n) in
        within key row
          (sym ((process-Touches redis env max_attempts k w).other_messages key ne) ∙ found)
  ]

mark_queued_row-Within :
    (m : ℤ) (k : String) (t : ℕ) (db : Database) → Within m db → Within m (mark_queued_row k t db)
mark_queued_row-Within max_attempts k t db within key row h =
    let (m, found, count, alive) = mark_queued_row-before k key t db row h in
    let (most, left) = within key m found in
    (
      subst (λ n. pos n ≤ℤ max_attempts) (sym count) most,
      λ live. subst (λ n. pos n <ℤ max_attempts) (sym count) (left (sym alive ∙ live)),
    )

Swept-Within : (m : ℤ) (db after : Database) → Swept db after → Within m db → Within m after
Swept-Within m db after s within key row h =
    within key row (sym (Swept-messages db after key s) ∙ h)

module _ {R : Type 0} (redis : Redis R) (answers : Responsive redis) (streams : Streams R)
    (max_attempts : ℤ) where
  Within-IsKept : IsKept redis max_attempts Calm (Within max_attempts)
  Within-IsKept = record {
    by_process = λ env calm key w h. process-Within redis answers env calm max_attempts w h key;
    by_requeue = mark_queued_row-Within max_attempts;
    by_sweep = Swept-Within max_attempts;
  }

  -- While no statement fails and Redis replies to the limiter, rounds in any order record no more than
  -- `max_attempts` attempts of a message, if at the start no row counts more, every live message
  -- counts fewer, and no message has more attempts recorded than its row counts.
  pub run_rounds-bounded :
      (rounds : List Round) (w : World R)
      → All (λ r. Calm (env_of r)) rounds
      → Counted w.db
      → Within max_attempts w.db
      → (key : String) (row : Message)
      → message_by_id key (run_rounds redis streams max_attempts rounds w).db ≡ some row
      → pos (tries key (run_rounds redis streams max_attempts rounds w).db) ≤ℤ max_attempts
  run_rounds-bounded rounds w calm counted within key row found =
      let most =
        (run_rounds-kept redis streams max_attempts Calm (Within max_attempts) Within-IsKept rounds
          w calm within key row found).0 in
      let covered = run_rounds-Counted redis streams max_attempts rounds w counted key row found in
      ground arith
