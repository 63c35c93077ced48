-- ===== src/Interleaving/Course.antt =====
-- The course of a call of `Process` in internal/worker/worker.go for one message, by what may be said
-- of its statements.
use email_delivery_engine.Prelude.{ℕ, String, ◌≡◌, Bool, true, false, if◌then◌else◌}
use email_delivery_engine.Prelude.Int.{ℤ}
use email_delivery_engine.Store.{Status, Message, Database}
use email_delivery_engine.Store.Statement.{
  Progress, Note, Trial, set_progress, insert_event, insert_attempt, insert_suppression,
}
use email_delivery_engine.Runtime.{Error, Result}
use email_delivery_engine.Runtime.Interface.{Ops, Limiter}
use email_delivery_engine.Worker.Guarantees.Settles.{Settled}

-- How far a call has come: no attempt is recorded; one may be; the recipient of a message that
-- bounced is on the suppression list; the decision about the message is written.
pub data Stage : Type 0 where
  before tried listed decided : Stage

abbrev pub is_bounced : Status → Bool
is_bounced Status.bounced = true
is_bounced _ = false

-- `Passes` is said of a part that leaves its stage as it is, whether it fails or not; `Goes` of one
-- that, unless it fails, leads from one stage to another.
pub record Course {M : Type 0 → Type 0} (limiter : Limiter M) (ops : Ops M) (max_attempts : ℤ)
    (msg : Message) (Passes : (A : Type 0) → M A → Type 0)
    (Goes : Stage → Stage → (A : Type 0) → M A → Type 0) : Type 1 where
  pub passes_return : {A : Type 0} (a : A) → Passes A (ops.return a)
  pub passes_fail : {A : Type 0} (e : Error) → Passes A (ops.fail e)
  pub passes_bind :
      {A B : Type 0} (m : M A) (f : A → M B)
      → Passes A m
      → ((a : A) → Passes B (f a))
      → Passes B (ops.bind m f)
  pub passes_if :
      {A : Type 0} (b : Bool) (m n : M A) → Passes A m → Passes A n → Passes A (if b then m else n)
  pub passes_wrapping :
      {A : Type 0} (what : String) (m : M A) → Passes A m → Passes A (ops.wrapping what m)
  pub passes_caught : {A : Type 0} (m : M A) → Passes A m → Passes (Result A) (ops.caught m)
  pub passes_count : (name : String) → Passes Unit (ops.count name)
  pub passes_query : {A : Type 0} (f : ℕ → Database → A) → Passes A (ops.query f)
  pub passes_now : Passes ℕ ops.now
  pub passes_random : Passes ℕ ops.random
  pub passes_incr : (key : String) → Passes ℕ (limiter.incr key)
  pub passes_expire : (key : String) (n : ℕ) → Passes Unit (limiter.expire key n)
  pub passes_note : (n : Note) → Passes Unit (ops.exec (insert_event msg.id n))
  pub goes_on : {A : Type 0} (s : Stage) (m : M A) → Passes A m → Goes s s A m
  pub goes_past :
      {A B : Type 0} (s t : Stage) (m : M A) (f : A → M B)
      → Passes A m
      → ((a : A) → Goes s t B (f a))
      → Goes s t B (ops.bind m f)
  pub goes_bind :
      {A B : Type 0} (s t u : Stage) (m : M A) (f : A → M B)
      → Goes s t A m
      → ((a : A) → Goes t u B (f a))
      → Goes s u B (ops.bind m f)
  pub goes_if :
      {A : Type 0} (s t : Stage) (b : Bool) (m n : M A)
      → Goes s t A m
      → Goes s t A n
      → Goes s t A (if b then m else n)
  pub goes_wrapping :
      {A : Type 0} (s t : Stage) (what : String) (m : M A)
      → Goes s t A m
      → Goes s t A (ops.wrapping what m)
  pub goes_mark :
      (p : Progress)
      → p.status ≡ Status.sending
      → Goes before before Unit (ops.exec (set_progress msg.id p))
  pub goes_attempt : (a : Trial) → Goes before tried Unit (ops.exec (insert_attempt msg.id a))
  pub goes_listed :
      Goes tried listed Unit
        (ops.exec (λ _. insert_suppression msg.customer_id msg.to_email "hard_bounce"))
  pub goes_decided :
      (s : Stage) (p : Progress)
      → Settled max_attempts msg.attempt_count p
      → is_bounced p.status ≡ false
      → Goes s decided Unit (ops.exec (set_progress msg.id p))
  pub goes_bounced :
      (p : Progress)
      → Settled max_attempts msg.attempt_count p
      → Goes listed decided Unit (ops.exec (set_progress msg.id p))
