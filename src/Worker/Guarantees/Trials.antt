-- ===== src/Worker/Guarantees/Trials.antt =====
-- Which writes of `Process` in internal/worker/worker.go record no attempt.
use email_delivery_engine.Prelude.{ℕ, ◌≡◌, refl, Bool, true, false, List, [], ◌∷◌}
use email_delivery_engine.Prelude.Int.{ℤ}
use email_delivery_engine.Classify.{
  Kind, delivered, hard_bounce, soft_bounce, provider_deferral, rate_limited, transient_failure,
  policy_rejection,
}
use email_delivery_engine.Simulate.{DeliveryResult}
use email_delivery_engine.Store.{Message}
use email_delivery_engine.Route.{Decision}
use email_delivery_engine.Worker.Plan.{
  Write, progress, note, trial, suppression, Log, Follows, retry_plan, outcome_plan,
}
use email_delivery_engine.Worker.Replay.{trials, writes_of}
use email_delivery_engine.Worker.Refinement.Decision.{}
use email_delivery_engine.Worker.Refinement.Process.{}

pub Follows-no_trials :
    (plan : List Write) (log : Log) (complete : Bool)
    → trials plan ≡ []
    → Follows plan log complete
    → trials (writes_of log) ≡ []
Follows-no_trials plan [] complete none_left f = refl
Follows-no_trials [] (e ∷ log) complete none_left f = absurd f
Follows-no_trials (progress p ∷ plan) ((t, y) ∷ log) complete none_left (e, f) =
    rw e (Follows-no_trials plan log complete none_left f)
Follows-no_trials (note n ∷ plan) ((t, y) ∷ log) complete none_left (e, f) =
    rw e (Follows-no_trials plan log complete none_left f)
Follows-no_trials (suppression ∷ plan) ((t, y) ∷ log) complete none_left (e, f) =
    rw e (Follows-no_trials plan log complete none_left f)
Follows-no_trials (trial a ∷ plan) log complete none_left f = cc

retry_plan-no_trials :
    (msg : Message) (d : Decision) (attempt : ℕ) (result : DeliveryResult) (started : ℕ)
    (answer : ℕ × Bool)
    → trials (retry_plan msg d attempt result started answer) ≡ []
retry_plan-no_trials msg d attempt result started (delay, true) = refl
retry_plan-no_trials msg d attempt result started (delay, false) = refl

pub outcome_plan-no_trials :
    (m : ℤ) (msg : Message) (d : Decision) (attempt : ℕ) (result : DeliveryResult)
    (started draw : ℕ) (k : Kind)
    → trials (outcome_plan m msg d attempt result started draw k) ≡ []
outcome_plan-no_trials m msg d attempt result started draw delivered = refl
outcome_plan-no_trials m msg d attempt result started draw hard_bounce = refl
outcome_plan-no_trials m msg d attempt result started draw policy_rejection = refl
outcome_plan-no_trials m msg d attempt result started draw soft_bounce =
    retry_plan-no_trials msg d attempt result started _
outcome_plan-no_trials m msg d attempt result started draw provider_deferral =
    retry_plan-no_trials msg d attempt result started _
outcome_plan-no_trials m msg d attempt result started draw rate_limited =
    retry_plan-no_trials msg d attempt result started _
outcome_plan-no_trials m msg d attempt result started draw transient_failure =
    retry_plan-no_trials msg d attempt result started _
