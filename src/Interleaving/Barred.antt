-- ===== src/Interleaving/Barred.antt =====
-- The suppression list in `Process` of internal/worker/worker.go, in rounds that run at the same time.
use email_delivery_engine.Worker.Sending.{}
use email_delivery_engine.Worker.Pipeline.{is_terminal, message_step}
use email_delivery_engine.Interleaving.Kept.{Moves, from_Safe}
use email_delivery_engine.Prelude.{
  ℕ, String, ◌≡◌, ◌≢◌, refl, sym, ap, subst, ◌∙◌, inl, inr, true, false, some, List, Bool-cases,
  str_eq, eq_iff,
}
use email_delivery_engine.Prelude.Int.{ℤ}
use email_delivery_engine.Store.{SendingState, Message}
use email_delivery_engine.Store.Query.{message_by_id, is_suppressed}
use email_delivery_engine.Store.Statement.{mark_queued_row, set_sending_state}
use email_delivery_engine.Queue.{Streams}
use email_delivery_engine.Consumer.{Work}
use email_delivery_engine.Runtime.{Env, Redis, World}
use email_delivery_engine.Runtime.Thread.{Thread, thread_ops, thread_commands}
use email_delivery_engine.Worker.Guarantees.Numbers.{tries}
use email_delivery_engine.Worker.Guarantees.Settles.{message_by_id-id}
use email_delivery_engine.Interleaving.{runs, working}
use email_delivery_engine.Interleaving.Safe.{Safe}
use email_delivery_engine.Interleaving.Walk.{on_message_step}
use email_delivery_engine.Interleaving.Writes.{Keeps-Course}
use email_delivery_engine.Interleaving.Calls.{Serves, process-Safe}
use email_delivery_engine.Interleaving.Rows.{}
use email_delivery_engine.Interleaving.Marks.{mark_queued_row-Persists, set_sending_state-Persists}
use email_delivery_engine.Interleaving.Bounced.{Known}
use email_delivery_engine.Interleaving.Workers.{KeepsRounds, runs-Kept}
use email_delivery_engine.Interleaving.Spared.{
  Spared, Spared-refl, Spared-trans, Suppressed, Suppressed-stays, other-Keeps,
}
use email_delivery_engine.Interleaving.Quiet.{Quiet-message_step}

-- A call for any message, while one message's recipient is suppressed.
module _ {R : Type 0} (redis : Redis R) (env : Env) (max : ℤ) (msg : Message) where
  abbrev Calm : (A : Type 0) → Thread R A → World R → Type 0
  Calm A t w =
      Safe (Moves env (Spared msg.id) (Suppressed msg)) (Moves env (Spared msg.id) (Suppressed msg))
        (λ r v. Suppressed msg v.db) t w

  other_step :
      (m : Message) (w : World R)
      → m.id ≢ msg.id
      → is_terminal m.status ≡ false
      → message_by_id m.id w.db ≡ some m
      → Suppressed msg w.db
      → Calm Unit (message_step (thread_commands redis) (thread_ops env) max (some m)) w
  other_step m w ne live found start =
      from_Safe env (Spared msg.id) (Suppressed msg) (Spared-refl msg.id)
        (λ x y s. Suppressed-stays msg x y s.persists) _ _ w start
        (on_message_step _ _ max m _ _
          (Keeps-Course redis env max m (Spared msg.id) (Spared msg.id) (Known m) (λ db. Unit)
            (other-Keeps max msg.id m ne))
          live w (m, found, refl, refl))

  own_step :
      (m : Message) (w : World R)
      → is_terminal m.status ≡ false
      → message_by_id msg.id w.db ≡ some m
      → Suppressed msg w.db
      → Calm Unit (message_step (thread_commands redis) (thread_ops env) max (some m)) w
  own_step m w live found start =
      let ((row, stored, customer, recipient), known) = start in
      let same : row ≡ m = cc (stored, found) in
      let at_key = message_by_id-id msg.id w.db m found in
      let to_customer = ap (λ (x : Message). x.customer_id) (sym same) ∙ customer in
      let to_recipient = ap (λ (x : Message). x.to_email) (sym same) ∙ recipient in
      let listed_too : is_suppressed m.customer_id m.to_email w.db ≡ true =
        ap (λ c. is_suppressed c m.to_email w.db) to_customer
        ∙ ap (λ r. is_suppressed msg.customer_id r w.db) to_recipient
        ∙ known in
      let there = ap (λ k. message_by_id k w.db) at_key ∙ found in
      let quiet = Quiet-message_step redis env max m live w ((m, there, refl, refl), listed_too) in
      from_Safe env (Spared msg.id) (Suppressed msg) (Spared-refl msg.id)
        (λ x y s. Suppressed-stays msg x y s.persists) (λ r v. Suppressed m v.db) _ w start
        (subst
          (λ k.
            Safe (λ (x y : World R). Spared k x.db y.db) (λ (x y : World R). Spared k x.db y.db)
              (λ r v. Suppressed m v.db)
              (message_step (thread_commands redis) (thread_ops env) max (some m)) w)
          at_key quiet)

  barred-Serves :
      (key : String)
      → Serves redis env max key
          (Spared msg.id)
          (Spared msg.id)
          (Suppressed msg)
          (λ r db. Suppressed msg db)
  barred-Serves key = record {
    nothing = Spared-refl msg.id;
    stable = λ v w s. Suppressed-stays msg v w s.persists;
    failed = λ db e h. h;
    absent = λ db h e. h;
    passed_over = λ db t h e. h;
    over = λ db m h e o. h;
    live = λ w m h found live.
        let at_key = message_by_id-id key w.db m found in
        elim (Bool-cases (str_eq m.id msg.id)) [
          | inl e ↦
              let same : key ≡ msg.id = sym at_key ∙ (eq_iff m.id msg.id).0 e in
              own_step m w live (ap (λ k. message_by_id k w.db) (sym same) ∙ found) h
          | inr ne ↦
              other_step m w (λ e. cc ((eq_iff m.id msg.id).1 e, ne)) live
                (ap (λ k. message_by_id k w.db) at_key ∙ found) h
        ];
  }

module _ {R : Type 0} (redis : Redis R) (streams : Streams R) (env : Env) (max_attempts : ℤ)
    (msg : Message) where
  barred-KeepsRounds : KeepsRounds redis streams env max_attempts (Spared msg.id) (Suppressed msg)
  unfolding mark_queued_row set_sending_state
  barred-KeepsRounds = record {
    nothing = Spared-refl msg.id;
    composed = Spared-trans msg.id;
    stays = λ v w s. Suppressed-stays msg v w s.persists;
    keeps_queued =
        λ key t db. record { persists = mark_queued_row-Persists key t db; no_attempt = refl };
    keeps_limited = λ key db. record {
      persists = set_sending_state-Persists key SendingState.limited db;
      no_attempt = refl;
    };
    keeps_process = λ key.
        process-Safe redis env max_attempts key (Spared msg.id) (Spared msg.id) (Suppressed msg)
          (λ r db. Suppressed msg db) (barred-Serves redis env max_attempts msg key);
  }

  -- Rounds of the loops of any number of workers run at the same time, with their statements in any
  -- order, whatever the stream delivers and whatever fails: for a stored message whose recipient is on
  -- its customer's suppression list no attempt is recorded.
  pub runs-Suppressed :
      (works : List Work) (schedule : List ℕ) (w : World R)
      → message_by_id msg.id w.db ≡ some msg
      → is_suppressed msg.customer_id msg.to_email w.db ≡ true
      → tries msg.id (runs schedule (working redis streams env max_attempts works w)).world.db
        ≡ tries msg.id w.db
  runs-Suppressed works schedule w stored known =
      (runs-Kept redis streams env max_attempts (Spared msg.id) (Suppressed msg) barred-KeepsRounds
        works schedule w ((msg, stored, refl, refl), known)).no_attempt
