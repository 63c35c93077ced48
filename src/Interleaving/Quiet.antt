-- ===== src/Interleaving/Quiet.antt =====
-- The call of `Process` of internal/worker/worker.go for a message whose recipient is suppressed, among
-- others.
use email_delivery_engine.Worker.Sending.{
  Metadata, update_status, write_event, terminate_event, terminate,
}
use email_delivery_engine.Worker.Pipeline.{
  is_terminal, blocks_sending, blocks_marketing, is_marketing, suppression_step, customer_step,
  message_step,
}
use email_delivery_engine.Interleaving.Kept.{
  Keeping, Keeping-same, Keeping-exec, Keeping-bind, Keeping-wrapping, Keeping-if,
}
use email_delivery_engine.Prelude.{
  ◌&&◌, ℕ, String, ◌≡◌, refl, inl, inr, Bool, false, Option, none, some, Bool-cases, if◌then◌else◌,
}
use email_delivery_engine.Prelude.Int.{ℤ}
use email_delivery_engine.Store.{Status, EventType, Message, Customer, Database}
use email_delivery_engine.Store.Statement.{Progress, Note, insert_event, set_progress}
use email_delivery_engine.Runtime.{Env, Redis, count, query, step, fails}
use email_delivery_engine.Runtime.Thread.{
  Thread, atomic, thread_ops, thread_commands, thread_bind, thread_wrapping,
}
use email_delivery_engine.Interleaving.Safe.{Safe}
use email_delivery_engine.Interleaving.Course.{is_bounced}
use email_delivery_engine.Interleaving.Rows.{insert_event-Persists}
use email_delivery_engine.Interleaving.Bounced.{calm_update}
use email_delivery_engine.Interleaving.Spared.{Spared, Spared-refl, Suppressed, Suppressed-stays}

-- Parts of the call for the message itself, while its recipient is suppressed.
module _ {R : Type 0} (redis : Redis R) (env : Env) (max : ℤ) (msg : Message) where
  abbrev Quiet : (A : Type 0) → Thread R A → Type 0
  Quiet = Keeping env (Spared msg.id) (Suppressed msg)

  abbrev stays : (v w : Database) → Spared msg.id v w → Suppressed msg v → Suppressed msg w
  stays v w s = Suppressed-stays msg v w s.persists

  Quiet-bind :
      {A B : Type 0} (m : Thread R A) (f : A → Thread R B)
      → Quiet A m
      → ((a : A) → Quiet B (f a))
      → Quiet B (thread_bind m f)
  Quiet-bind = Keeping-bind env (Spared msg.id) (Suppressed msg) (Spared-refl msg.id) stays

  Quiet-if :
      {A : Type 0} (b : Bool) (m n : Thread R A)
      → Quiet A m
      → Quiet A n
      → Quiet A (if b then m else n)
  Quiet-if = Keeping-if env (Spared msg.id) (Suppressed msg) (Spared-refl msg.id) stays

  Quiet-count : (name : String) → Quiet Unit (atomic (count name))
  unfolding count
  Quiet-count name =
      Keeping-same env (Spared msg.id) (Suppressed msg) (Spared-refl msg.id) stays (count name)
        (λ w. refl)

  Quiet-query : {A : Type 0} (f : ℕ → Database → A) → Quiet A (atomic (query env f))
  unfolding query
  Quiet-query f =
      Keeping-same env (Spared msg.id) (Suppressed msg) (Spared-refl msg.id) stays (query env f)
        (λ w. refl)

  update-Spared :
      (m : Message) (p : Progress) (t : ℕ) (db : Database)
      → is_bounced p.status ≡ false
      → Spared msg.id db (set_progress m.id p t db)
  unfolding set_progress
  update-Spared m p t db calm = record { persists = calm_update m p t db calm; no_attempt = refl }

  note-Spared :
      (key : String) (n : Note) (t : ℕ) (db : Database) → Spared msg.id db (insert_event key n t db)
  unfolding insert_event
  note-Spared key n t db = record { persists = insert_event-Persists key n t db; no_attempt = refl }

  Quiet-end :
      (m : Message) (s : Status) (e : EventType) (p : String) (smtp : Option ℤ) (raw why : String)
      (meta : Option Metadata)
      → is_bounced s ≡ false
      → Quiet Unit (terminate_event (thread_ops env) m s e p smtp raw why meta)
  unfolding terminate_event update_status write_event
  Quiet-end m s e p smtp raw why meta calm =
      let write = Keeping-exec env (Spared msg.id) (Suppressed msg) (Spared-refl msg.id) stays in
      Quiet-bind _ _ (write _ (λ t db. update-Spared m _ t db calm))
        (λ _. write _ (λ t db. note-Spared m.id _ t db))

  Quiet-blocked :
      (m : Message) (name : String) (s : Status) (e : EventType) (why : String)
      (meta : Option Metadata)
      → is_bounced s ≡ false
      → Quiet Unit (
          thread_bind
            (atomic (count name))
            (λ _. terminate_event (thread_ops env) m s e "" none "" why meta))
  Quiet-blocked m name s e why meta calm =
      Quiet-bind _ _ (Quiet-count name) (λ _. Quiet-end m s e "" none "" why meta calm)

  -- The suppression list is asked while the recipient is on it.
  Quiet-suppression_step :
      (who : Customer)
      → Quiet Unit (suppression_step (thread_commands redis) (thread_ops env) max msg who)
  unfolding suppression_step Safe thread_bind thread_wrapping query
  Quiet-suppression_step who w start = λ v r.
      let there = stays w.db v.db r start in
      let end =
        Quiet-blocked msg "messages_suppressed_total" Status.suppressed EventType.suppressed
          "recipient_on_suppression_list" none refl (step env v) there in
      (
        Spared-refl msg.id v.db,
        elim (Bool-cases (fails (env.answer v.tick))) [
          | inl failed ↦ rw failed there
          | inr works ↦ rw works (rw there.1 end)
        ],
      )

  Quiet-customer_step :
      (o : Option Customer)
      → Quiet Unit (customer_step (thread_commands redis) (thread_ops env) max msg o)
  unfolding customer_step terminate
  Quiet-customer_step none = Quiet-end msg _ _ _ _ _ _ _ refl
  Quiet-customer_step (some who) =
      Quiet-if (blocks_sending who.sending_state) _ _ (Quiet-blocked msg _ _ _ _ _ refl) (
        Quiet-if (blocks_marketing who.sending_state && is_marketing msg.type) _ _
          (Quiet-blocked msg _ _ _ _ _ refl) (Quiet-suppression_step who))

  pub Quiet-message_step :
      is_terminal msg.status ≡ false
      → Quiet Unit (message_step (thread_commands redis) (thread_ops env) max (some msg))
  unfolding message_step
  Quiet-message_step live = rw live (
      Quiet-bind _ _
        (Keeping-wrapping env (Spared msg.id) (Suppressed msg) (Spared-refl msg.id) stays _ _
          (Quiet-query _))
        Quiet-customer_step)
