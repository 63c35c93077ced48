-- ===== src/Consumer/Attempts.antt =====
-- What the loops of cmd/worker/main.go keep of the attempts of every message.
use email_delivery_engine.Prelude.{
  ℕ, String, ◌≡◌, refl, sym, ap, subst, ◌∙◌, ◌⊎◌, inl, inr, Bool, true, false, ◌&&◌, some, List,
  arith,
}
use email_delivery_engine.Prelude.Int.{ℤ}
use email_delivery_engine.Prelude.Members.{find?-update_inv}
use email_delivery_engine.Store.{Status, Message, Database}
use email_delivery_engine.Store.Query.{message_by_id, has_id, is_deferred}
use email_delivery_engine.Store.Statement.{mark_queued_row}
use email_delivery_engine.Runtime.{Redis, World}
use email_delivery_engine.Queue.{Streams}
use email_delivery_engine.Worker.Pipeline.{is_terminal}
use email_delivery_engine.Worker.Sweep.Limits.{Swept}
use email_delivery_engine.Worker.Guarantees.Counts.{Ledger, Recorded, process-Recorded}
use email_delivery_engine.Worker.Guarantees.Numbers.{
  Counted, Numbered, AtMost-Ledger, Rising-Ledger,
}
use email_delivery_engine.Store.{Attempt}
use email_delivery_engine.Consumer.{Round, run_rounds}
use email_delivery_engine.Consumer.Preserve.{IsKept, run_rounds-kept}
use email_delivery_engine.Consumer.Final.{AnyEnv, any_env}

-- The row that a requeueing leaves was there before, with the same count, and as live.
pub mark_queued_row-before :
    (k key : String) (t : ℕ) (db : Database) (row : Message)
    → message_by_id key (mark_queued_row k t db) ≡ some row
    → (m : Message) × (message_by_id key db ≡ some m)
      × (row.attempt_count ≡ m.attempt_count)
      × (is_terminal row.status ≡ is_terminal m.status)
unfolding message_by_id mark_queued_row
mark_queued_row-before k key t db row h =
    let (m, found, e) =
      find?-update_inv (λ (m : Message). has_id k m && is_deferred m.status) (has_id key)
        (λ (m : Message). record m { status = Status.queued; updated_at = t }) (λ x. refl)
        db.messages h in
    let (count, alive) = as_before m e in (m, found, count, alive)
  where
    waiting : (b : Bool) (s : Status) → (b && is_deferred s) ≡ true → is_terminal s ≡ false
    waiting b s e = ground arith

    as_before :
        (m : Message)
        → (row ≡ m)
          ⊎ (((has_id k m && is_deferred m.status) ≡ true)
              × (row ≡ record m { status = Status.queued; updated_at = t }))
        → (row.attempt_count ≡ m.attempt_count) × (is_terminal row.status ≡ is_terminal m.status)
    as_before m (inl e) =
        (ap (λ (x : Message). x.attempt_count) e, ap (λ (x : Message). is_terminal x.status) e)
    as_before m (inr (p, e)) = (
      ap (λ (x : Message). x.attempt_count) e,
      ap (λ (x : Message). is_terminal x.status) e ∙ sym (waiting (has_id k m) m.status p),
    )

pub Swept-messages :
    (db after : Database) (key : String)
    → Swept db after
    → message_by_id key after ≡ message_by_id key db
unfolding message_by_id
Swept-messages db after key s = ap (message_by_id key) s.others

module _ (P : String → ℕ → List Attempt → Type 0) (laws : Ledger P) where
  mark_queued_row-Recorded :
      (k : String) (t : ℕ) (db : Database) → Recorded P db → Recorded P (mark_queued_row k t db)
  unfolding mark_queued_row
  mark_queued_row-Recorded k t db recorded key row h =
      let (m, found, count, _) = mark_queued_row-before k key t db row h in
      subst (λ n. P key n db.attempts) (sym count) (recorded key m found)

  Swept-Recorded : (db after : Database) → Swept db after → Recorded P db → Recorded P after
  Swept-Recorded db after s recorded key row h =
      subst (λ (x : Database). P key row.attempt_count x.attempts) (sym s.others)
        (recorded key row (sym (Swept-messages db after key s) ∙ h))

  module _ {R : Type 0} (redis : Redis R) (streams : Streams R) (max_attempts : ℤ) where
    Recorded-IsKept : IsKept redis max_attempts AnyEnv (Recorded P)
    Recorded-IsKept = record {
      by_process = λ env fits key w h. process-Recorded P laws redis env max_attempts w h key;
      by_requeue = mark_queued_row-Recorded;
      by_sweep = Swept-Recorded;
    }

    run_rounds-Recorded :
        (rounds : List Round) (w : World R)
        → Recorded P w.db
        → Recorded P (run_rounds redis streams max_attempts rounds w).db
    run_rounds-Recorded rounds w =
        run_rounds-kept redis streams max_attempts AnyEnv (Recorded P) Recorded-IsKept rounds w
          (any_env rounds)

module _ {R : Type 0} (redis : Redis R) (streams : Streams R) (max_attempts : ℤ) where
  -- Whatever fails, rounds in any order keep it that no message has more attempts recorded than its
  -- row counts.
  pub run_rounds-Counted :
      (rounds : List Round) (w : World R)
      → Counted w.db
      → Counted (run_rounds redis streams max_attempts rounds w).db
  run_rounds-Counted = run_rounds-Recorded _ AtMost-Ledger redis streams max_attempts

  -- Whatever fails, rounds in any order keep it that the attempts recorded for each message bear
  -- rising numbers, none above the count in its row: no number is given twice.
  pub run_rounds-Numbered :
      (rounds : List Round) (w : World R)
      → Numbered w.db
      → Numbered (run_rounds redis streams max_attempts rounds w).db
  run_rounds-Numbered = run_rounds-Recorded _ Rising-Ledger redis streams max_attempts
