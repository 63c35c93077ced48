-- ===== src/Worker/Refinement/Attempt.antt =====
-- The send of internal/worker/worker.go follows the plan of its simulated result, whatever fails.
use email_delivery_engine.Runtime.Interface.{acts}
use email_delivery_engine.Prelude.{
  ℕ, ◌+◌, ◌≡◌, refl, ap, ◌∙◌, none, ◌∷◌, arith, if◌then◌else◌, subst, inl, inr,
}
use email_delivery_engine.Prelude.Int.{ℤ}
use email_delivery_engine.Simulate.{Reputation, DeliveryResult, simulate}
use email_delivery_engine.Store.{Status, Message, Database, ProviderPolicy}
use email_delivery_engine.Store.Query.{policy_for}
use email_delivery_engine.Store.Statement.{
  set_progress, insert_event, insert_attempt, insert_suppression,
}
use email_delivery_engine.Route.{Decision}
use email_delivery_engine.Runtime.{
  Env, World, Action, ok, ◌>>=◌, ◌>>◌, wrapping, exec, query, random, count, pure,
}
use email_delivery_engine.Runtime.Rules.{
  KeepsDb, KeepsDb-count, KeepsDb-random, KeepsDb-query, KeepsDb-wrapping, KeepsDb-if, KeepsDb-pure,
}
use email_delivery_engine.Worker.Sending.{
  update_status, write_event, outcome_case, apply_outcome, send_marked, send, attempted,
  record_attempt, is_rate_limited,
}
use email_delivery_engine.Worker.Plan.{
  Write, progress, note, trial, suppression, perform, outcome_plan, send_plan, sending_note,
  trial_of,
}
use email_delivery_engine.Worker.Refinement.Rules.{
  Writes, One, One-exec, One-wrapping, Writes-single, Writes-silent, Writes-valued,
}
use email_delivery_engine.Worker.Refinement.Endings.{
  One-update_status, One-write_event, outcome_case-Writes,
}

-- A write for a message leaves the provider policies as they are.
policies-perform :
    (msg : Message) (x : Write) (t : ℕ) (db : Database)
    → (perform msg x t db).policies ≡ db.policies
unfolding set_progress insert_event insert_attempt insert_suppression
policies-perform msg (progress p) t db = refl
policies-perform msg (note n) t db = refl
policies-perform msg (trial a) t db = refl
policies-perform msg suppression t db = ground arith

policies_of_One :
    {R : Type 0} (msg : Message) (x : Write) (m : Action R Unit) (w : World R)
    → One msg x m w
    → (m w).1.db.policies ≡ w.db.policies
policies_of_One msg x m w (inl (failed, same)) = ap (λ (db : Database). db.policies) same
policies_of_One msg x m w (inr (t, done)) =
    ap (λ (db : Database). db.policies) done ∙ policies-perform msg x t w.db

-- The provider's state that the simulator is given.
abbrev pub reputation_in : Message → Database → Reputation
reputation_in msg db = (policy_for msg.mailbox_provider db).reputation_state

reputation_in-eq :
    (msg : Message) (before after : Database)
    → after.policies ≡ before.policies
    → reputation_in msg after ≡ reputation_in msg before
unfolding policy_for
reputation_in-eq msg before after e = rw e

-- The simulated result of the attempt that begins in `db`, for a draw.
abbrev pub result_in : Message → Database → ℕ → DeliveryResult
result_in msg db roll = simulate msg.to_email (reputation_in msg db) roll

module _ {R : Type 0} (env : Env) (max_attempts : ℤ) (msg : Message) (d : Decision) where
  apply_outcome-Writes :
      (attempt : ℕ) (result : DeliveryResult) (started : ℕ) (w : World R)
      → Writes msg
          (outcome_plan max_attempts msg d attempt result started
            (env.draw w.tick)
            result.classification)
          (apply_outcome (acts env) max_attempts msg d attempt result started)
          w
  unfolding apply_outcome random
  apply_outcome-Writes attempt result started w =
      Writes-valued msg _ (random env)
        (λ draw.
          outcome_case (acts env) max_attempts msg d attempt result started draw
            result.classification)
        (env.draw w.tick) w (KeepsDb-random env) (λ b e. cc)
        (outcome_case-Writes env msg d attempt result max_attempts started (env.draw w.tick)
          result.classification (random env w).1)

  record_attempt-Writes :
      (attempt started : ℕ) (result : DeliveryResult) (w : World R)
      → (draw : ℕ) × Writes msg
          (trial (trial_of msg d attempt result)
            ∷ outcome_plan max_attempts msg d attempt result started draw result.classification)
          (record_attempt (acts env) max_attempts msg d attempt started result)
          w
  unfolding record_attempt
  record_attempt-Writes attempt started result w =
      let x = trial (trial_of msg d attempt result) in
      let write : Action R Unit = wrapping "write delivery attempt" (exec env (perform msg x)) in
      let tally : Action R Unit =
        if is_rate_limited result.classification
        then count "provider_rate_limited_total"
        else pure tt in
      let v : World R = (write w).1 in
      let u : World R = (tally v).1 in
      (
        env.draw u.tick,
        Writes-single msg x _ write
            (tally >> apply_outcome (acts env) max_attempts msg d attempt result started) w
            (One-wrapping msg "write delivery attempt" x _ w (One-exec msg env x w))
            (Writes-silent msg _ tally
              (λ _. apply_outcome (acts env) max_attempts msg d attempt result started) v
              (KeepsDb-if _ _ _ (KeepsDb-count "provider_rate_limited_total") (KeepsDb-pure tt))
              (λ _ e. apply_outcome-Writes attempt result started u)),
      )

  query_value :
      (v : World R) (b : ProviderPolicy)
      → (wrapping "load provider policy" (query env (λ _. policy_for msg.mailbox_provider)) v).0
        ≡ ok b
      → b ≡ policy_for msg.mailbox_provider v.db
  unfolding wrapping query
  query_value v b e = ground arith

  random_value : (v : World R) (b : ℕ) → (random env v).0 ≡ ok b → b ≡ env.draw v.tick
  unfolding random
  random_value v b e = cc

  -- What is written once the message is marked as sending.
  abbrev pub MarkedWrites : Reputation → ℕ → ℕ → World R → Type 0
  MarkedWrites reputation attempt started w =
      (roll : ℕ) × (draw : ℕ) × Writes msg
        (trial (trial_of msg d attempt (simulate msg.to_email reputation roll))
          ∷ outcome_plan max_attempts msg d attempt (simulate msg.to_email reputation roll) started
              draw (simulate msg.to_email reputation roll).classification)
        (send_marked (acts env) max_attempts msg d attempt started) w

  send_marked-Writes :
      (attempt started : ℕ) (w : World R) → MarkedWrites (reputation_in msg w.db) attempt started w
  unfolding send_marked
  send_marked-Writes attempt started w =
      let load : Action R ProviderPolicy =
        wrapping "load provider policy" (query env (λ _. policy_for msg.mailbox_provider)) in
      let v : World R = (load w).1 in
      let u : World R = (random env v).1 in
      let roll : ℕ = env.draw v.tick in
      let (draw, rest) = record_attempt-Writes attempt started (result_in msg w.db roll) u in
      (
        roll,
        draw,
        Writes-valued msg _ load
            (λ policy. random env >>= λ roll.
              record_attempt (acts env) max_attempts msg d attempt started
                (simulate msg.to_email policy.reputation_state roll))
            (policy_for msg.mailbox_provider w.db) w (KeepsDb-wrapping _ _ (KeepsDb-query env _))
            (query_value w)
            (Writes-valued msg _ (random env)
              (λ roll.
                record_attempt (acts env) max_attempts msg d attempt started
                  (result_in msg w.db roll))
              roll v (KeepsDb-random env) (random_value v) rest),
      )

  -- The attempt for a message follows the plan of the simulator's result, for the provider's state in
  -- the tables and some draws.
  pub send-Writes :
      (started : ℕ) (w : World R)
      → (roll : ℕ) × (draw : ℕ) × Writes msg
          (send_plan max_attempts msg d started (result_in msg w.db roll) draw)
          (send (acts env) max_attempts msg d started)
          w
  unfolding send
  send-Writes started w =
      let n : ℕ = msg.attempt_count + 1 in
      let x = progress (attempted d n Status.sending none) in
      let y = note (sending_note msg d n) in
      let mark : Action R Unit =
        wrapping "mark sending"
          (update_status (acts env) msg (attempted d n Status.sending none)) in
      let tell : Action R Unit =
        wrapping "write sending event" (write_event (acts env) msg (sending_note msg d n)) in
      let tally : Action R Unit = count "delivery_attempts_total" in
      let marked : One msg x mark w = One-wrapping msg _ x _ w (One-update_status env msg _ w) in
      let v : World R = (mark w).1 in
      let told : One msg y tell v = One-wrapping msg _ y _ v (One-write_event env msg _ v) in
      let u : World R = (tell v).1 in
      let kept : KeepsDb tally = KeepsDb-count "delivery_attempts_total" in
      let same =
        ap (λ (db : Database). db.policies) (kept.at u)
        ∙ policies_of_One msg y tell v told
        ∙ policies_of_One msg x mark w marked in
      let (roll, draw, rest) =
        subst (λ r. MarkedWrites r n started (tally u).1)
          (reputation_in-eq msg w.db (tally u).1.db same)
          (send_marked-Writes n started (tally u).1) in
      let mark_rest : Action R Unit = send_marked (acts env) max_attempts msg d n started in
      (
        roll,
        draw,
        Writes-single msg x _ mark (tell >> (tally >> mark_rest)) w marked (
            Writes-single msg y _ tell (tally >> mark_rest) v told
              (Writes-silent msg _ tally (λ _. mark_rest) u kept (λ _ e. rest))),
      )
