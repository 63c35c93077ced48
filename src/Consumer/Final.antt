-- ===== src/Consumer/Final.antt =====
-- That a message that has come to its end stays as it is, whatever the loops of cmd/worker/main.go do.
use email_delivery_engine.Runtime.Interface.{acts}
use email_delivery_engine.Throttle.{commands}
use email_delivery_engine.Prelude.{
  ℕ, String, ◌≡◌, refl, sym, ap, subst, ◌∙◌, inl, inr, Bool, true, false, ◌&&◌, some, List, [], ◌∷◌,
  All, arith, str_eq, eq_iff, Bool-cases,
}
use email_delivery_engine.Prelude.Int.{ℤ}
use email_delivery_engine.Prelude.Members.{find?-update_missed}
use email_delivery_engine.Store.{Status, Message, Database}
use email_delivery_engine.Store.Query.{message_by_id, has_id, is_deferred}
use email_delivery_engine.Store.Statement.{mark_queued_row}
use email_delivery_engine.Runtime.{Env, Redis, World}
use email_delivery_engine.Queue.{Streams}
use email_delivery_engine.Worker.Pipeline.{is_terminal, process}
use email_delivery_engine.Worker.Sweep.Limits.{Swept}
use email_delivery_engine.Worker.Guarantees.Settles.{process-terminal}
use email_delivery_engine.Worker.Guarantees.Sends.{process-Touches}
use email_delivery_engine.Consumer.{Round, run_rounds}
use email_delivery_engine.Consumer.Preserve.{IsKept, env_of, run_rounds-kept}

-- Every environment.
abbrev pub AnyEnv : Env → Type 0
AnyEnv env = Unit

pub any_env : (rounds : List Round) → All (λ r. AnyEnv (env_of r)) rounds
any_env [] = tt
any_env (r ∷ rs) = (tt, any_env rs)

module _ (key : String) (row : Message) (over : is_terminal row.status ≡ true) where
  mark_queued_row-final :
      (k : String) (t : ℕ) (db : Database)
      → message_by_id key db ≡ some row
      → message_by_id key (mark_queued_row k t db) ≡ some row
  unfolding message_by_id mark_queued_row
  mark_queued_row-final k t db h =
      find?-update_missed (λ (m : Message). has_id k m && is_deferred m.status) (has_id key) _
        (λ x. refl) db.messages h (not_waiting (has_id k row) row.status over)
    where
      not_waiting : (b : Bool) (s : Status) → is_terminal s ≡ true → (b && is_deferred s) ≡ false
      not_waiting b s t = ground arith

  Swept-final :
      (db after : Database)
      → Swept db after
      → message_by_id key db ≡ some row
      → message_by_id key after ≡ some row
  unfolding message_by_id
  Swept-final db after s h = ap (message_by_id key) s.others ∙ h

  module _ {R : Type 0} (redis : Redis R) (max_attempts : ℤ) where
    process-final :
        (env : Env) (k : String) (w : World R)
        → message_by_id key w.db ≡ some row
        → message_by_id key (process (commands redis) (acts env) max_attempts k w).1.db ≡ some row
    process-final env k w h = elim (Bool-cases (str_eq k key)) [
      | inl e ↦
          subst
            (λ x.
              message_by_id key (process (commands redis) (acts env) max_attempts x w).1.db
              ≡ some row)
            (sym ((eq_iff k key).0 e))
            (ap (message_by_id key) (process-terminal redis env max_attempts key w row h over) ∙ h)
      | inr n ↦
          (process-Touches redis env max_attempts k w).other_messages key
            (λ e. cc ((eq_iff k key).1 e, n))
          ∙ h
    ]

    final-IsKept : IsKept redis max_attempts AnyEnv (λ db. message_by_id key db ≡ some row)
    final-IsKept = record {
      by_process = λ env fits. process-final env;
      by_requeue = mark_queued_row-final;
      by_sweep = Swept-final;
    }

module _ {R : Type 0} (redis : Redis R) (streams : Streams R) (max_attempts : ℤ) (key : String)
    (row : Message) (over : is_terminal row.status ≡ true) where
  -- A message that is terminal keeps its row through any rounds of the loops, one after another in any
  -- order, whatever the stream delivers again and whatever fails.
  pub run_rounds-terminal :
      (rounds : List Round) (w : World R)
      → message_by_id key w.db ≡ some row
      → message_by_id key (run_rounds redis streams max_attempts rounds w).db ≡ some row
  run_rounds-terminal rounds w =
      run_rounds-kept redis streams max_attempts AnyEnv (λ db. message_by_id key db ≡ some row)
        (final-IsKept key row over redis max_attempts) rounds w (any_env rounds)
