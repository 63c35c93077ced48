-- ===== src/Worker/Guarantees/Logged.antt =====
-- A call of `Process` in internal/worker/worker.go on a stored message, as the log of its writes.
use email_delivery_engine.Runtime.Interface.{acts}
use email_delivery_engine.Throttle.{commands}
use email_delivery_engine.Prelude.{String, ◌≡◌, subst, ◌⊎◌, inl, inr, Bool, false, none, some, List}
use email_delivery_engine.Prelude.Int.{ℤ}
use email_delivery_engine.Store.{Message, Database}
use email_delivery_engine.Store.Query.{message_by_id}
use email_delivery_engine.Runtime.{Env, Redis, World, Result}
use email_delivery_engine.Runtime.Rules.{is_ok}
use email_delivery_engine.Worker.Pipeline.{is_terminal, process}
use email_delivery_engine.Worker.Plan.{Write, Log, replay, Follows}
use email_delivery_engine.Worker.Refinement.Decision.{Plan}
use email_delivery_engine.Worker.Refinement.Outcome.{Refines, untouched, planned}
use email_delivery_engine.Worker.Refinement.Process.{
  Outcome, absent, row_locked, already_terminal, unread, ran, process-Outcome,
}

-- A log that follows a plan for the message, and the database that it leaves.
pub record Logged {R : Type 0} (redis : Redis R) (env : Env) (max_attempts : ℤ) (msg : Message)
    (start : World R) (after : Database) (complete : Bool) : Type 0 where
  pub live : is_terminal msg.status ≡ false
  pub plan : List Write
  pub log : Log
  pub chosen : Plan redis env max_attempts msg start plan
  pub follows : Follows plan log complete
  pub left : after ≡ replay msg log start.db

abbrev pub KeptOrLogged :
    {R : Type 0} → Redis R → Env → ℤ → Message → World R → Database → Bool → Type 0
KeptOrLogged redis env max_attempts msg start after complete =
    (after ≡ start.db) ⊎ Logged redis env max_attempts msg start after complete

Refines-logged :
    {R : Type 0} {redis : Redis R} {env : Env} (max_attempts : ℤ) (msg : Message) (start : World R)
    (out : Result Unit × World R)
    → is_terminal msg.status ≡ false
    → Refines redis env max_attempts msg start out
    → KeptOrLogged redis env max_attempts msg start out.1.db (is_ok out.0)
Refines-logged max_attempts msg start out live (untouched failed same) = inl same
Refines-logged max_attempts msg start out live (planned plan log p follows written) =
    inr (record {
      live = live;
      plan = plan;
      log = log;
      chosen = p;
      follows = follows;
      left = written;
    })

module _ {R : Type 0} (redis : Redis R) (env : Env) (max_attempts : ℤ) (key : String) (w : World R)
    (msg : Message) (stored : message_by_id key w.db ≡ some msg) where
  from_Outcome :
      (out : Result Unit × World R)
      → Outcome redis env max_attempts key w out
      → KeptOrLogged redis env max_attempts msg w out.1.db (is_ok out.0)
  from_Outcome out (absent missing same) = inl same
  from_Outcome out (row_locked skipped same) = inl same
  from_Outcome out (already_terminal m found over same) = inl same
  from_Outcome out (unread failed same) = inl same
  from_Outcome out (ran m found live refines) =
      let e : m ≡ msg = cc (stored, found) in
      subst (λ x. KeptOrLogged redis env max_attempts x w out.1.db (is_ok out.0)) e
        (Refines-logged max_attempts m w out live refines)

  -- Whatever fails, the database is kept, or the message was live and a log of its writes is played.
  pub process-logged :
      KeptOrLogged redis env max_attempts msg w
        (process (commands redis) (acts env) max_attempts key w).1.db
        (is_ok (process (commands redis) (acts env) max_attempts key w).0)
  process-logged =
      from_Outcome (process (commands redis) (acts env) max_attempts key w)
        (process-Outcome redis env max_attempts key w)

module _ {R : Type 0} (redis : Redis R) (env : Env) (max_attempts : ℤ) (key : String) (w : World R)
    (missing : message_by_id key w.db ≡ none) where
  absent_Outcome :
      (out : Result Unit × World R) → Outcome redis env max_attempts key w out → out.1.db ≡ w.db
  absent_Outcome out (absent h same) = same
  absent_Outcome out (row_locked skipped same) = same
  absent_Outcome out (already_terminal m found over same) = same
  absent_Outcome out (unread failed same) = same
  absent_Outcome out (ran m found live refines) = cc (missing, found)

  -- A call for an unknown message keeps the database.
  pub process-absent : (process (commands redis) (acts env) max_attempts key w).1.db ≡ w.db
  process-absent =
      absent_Outcome (process (commands redis) (acts env) max_attempts key w)
        (process-Outcome redis env max_attempts key w)
