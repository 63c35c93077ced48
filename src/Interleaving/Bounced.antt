-- ===== src/Interleaving/Bounced.antt =====
-- Hard bounces in `applyOutcome` of internal/worker/worker.go, in rounds that run at the same time.
use email_delivery_engine.Store.{SendingState}
use email_delivery_engine.Queue.{Streams}
use email_delivery_engine.Consumer.{Work}
use email_delivery_engine.Interleaving.{runs, working}
use email_delivery_engine.Interleaving.Marks.{mark_queued_row-Persists, set_sending_state-Persists}
use email_delivery_engine.Interleaving.Workers.{KeepsRounds, runs-Kept}
use email_delivery_engine.Runtime.Thread.{}
use email_delivery_engine.Prelude.{List, ℕ, String, ◌≡◌, refl, sym, ap, ◌∙◌, true, false, some}
use email_delivery_engine.Prelude.Int.{ℤ}
use email_delivery_engine.Store.{Message, Database}
use email_delivery_engine.Store.Query.{message_by_id, is_suppressed}
use email_delivery_engine.Store.Statement.{Progress, set_progress}
use email_delivery_engine.Runtime.{Env, Redis, World}
use email_delivery_engine.Worker.Guarantees.Bounces.{suppression-Suppresses}
use email_delivery_engine.Worker.Guarantees.Settles.{message_by_id-id}
use email_delivery_engine.Interleaving.Safe.{Safe-weaken}
use email_delivery_engine.Interleaving.Course.{Stage, before, tried, listed, decided, is_bounced}
use email_delivery_engine.Interleaving.Walk.{on_message_step}
use email_delivery_engine.Interleaving.Writes.{Keeps, Keeps-Course}
use email_delivery_engine.Interleaving.Calls.{Serves, process-Safe}
use email_delivery_engine.Interleaving.Rows.{
  BouncesListed, Persists, Persists-refl, Persists-trans, insert_event-Persists,
  insert_attempt-Persists, insert_suppression-Persists, set_progress-Persists,
}

-- The row is there, for the same recipient of the same customer.
abbrev SameRecipient : Message → Database → Type 0
SameRecipient msg db =
    (row : Message) × (message_by_id msg.id db ≡ some row)
    × (row.customer_id ≡ msg.customer_id)
    × (row.to_email ≡ msg.to_email)

abbrev pub Known : Message → Stage → Database → Type 0
Known msg listed db = SameRecipient msg db × (is_suppressed msg.customer_id msg.to_email db ≡ true)
Known msg _ db = SameRecipient msg db

SameRecipient-stays :
    (msg : Message) (v w : Database) → Persists v w → SameRecipient msg v → SameRecipient msg w
SameRecipient-stays msg v w p (row, found, customer, recipient) =
    let (new, there, customer', recipient') = p.rows_stay msg.id row found in
    (new, there, customer' ∙ customer, recipient' ∙ recipient)

Known-stays :
    (msg : Message) (s : Stage) (v w : Database) → Persists v w → Known msg s v → Known msg s w
Known-stays msg before v w p h = SameRecipient-stays msg v w p h
Known-stays msg tried v w p h = SameRecipient-stays msg v w p h
Known-stays msg decided v w p h = SameRecipient-stays msg v w p h
Known-stays msg listed v w p h = (SameRecipient-stays msg v w p h.0, p.lists_stay _ _ h.1)

Known-row : (msg : Message) (s : Stage) (db : Database) → Known msg s db → SameRecipient msg db
Known-row msg before db h = h
Known-row msg tried db h = h
Known-row msg decided db h = h
Known-row msg listed db h = h.0

-- Where an update to `bounced` is allowed.
listed_row :
    (msg m : Message) (db : Database)
    → Known msg listed db
    → message_by_id msg.id db ≡ some m
    → is_suppressed m.customer_id m.to_email db ≡ true
listed_row msg m db ((row, found, customer, recipient), suppressed) h =
    let same : row ≡ m = cc (found, h) in
    ap (λ (x : Message). is_suppressed x.customer_id x.to_email db) (sym same)
    ∙ ap (λ c. is_suppressed c row.to_email db) customer
    ∙ ap (λ r. is_suppressed msg.customer_id r db) recipient
    ∙ suppressed

pub calm_update :
    (msg : Message) (p : Progress) (t : ℕ) (db : Database)
    → is_bounced p.status ≡ false
    → Persists db (set_progress msg.id p t db)
calm_update msg p t db other = set_progress-Persists msg.id p t db (λ m h b. cc (b, other))

pub bounced-Keeps :
    (max : ℤ) (msg : Message) → Keeps max msg Persists Persists (Known msg) (λ db. Unit)
bounced-Keeps max msg = record {
  nothing = Persists-refl;
  stable = Known-stays msg;
  failed = λ s db h. tt;
  keeps_note = λ s n t db h.
      let does = insert_event-Persists msg.id n t db in (does, Known-stays msg s _ _ does h);
  keeps_mark = λ p e t db h.
      let does = calm_update msg p t db (ap is_bounced e) in
      (does, SameRecipient-stays msg _ _ does h);
  keeps_attempt = λ a t db h.
      let does = insert_attempt-Persists msg.id a t db in
      (does, SameRecipient-stays msg _ _ does h);
  keeps_listed = λ t db h.
      let does = insert_suppression-Persists msg db in
      (does, (SameRecipient-stays msg _ _ does h, suppression-Suppresses msg t db));
  keeps_decided = λ s p settled other t db h.
      let does = calm_update msg p t db other in
      (does, SameRecipient-stays msg _ _ does (Known-row msg s db h));
  keeps_bounced = λ p settled t db h.
      let does = set_progress-Persists msg.id p t db (λ m found b. listed_row msg m db h found) in
      (does, SameRecipient-stays msg _ _ does h.0);
}

module _ {R : Type 0} (redis : Redis R) (env : Env) (max_attempts : ℤ) where
  bounced-Serves :
      (key : String)
      → Serves redis env max_attempts key Persists Persists (λ db. Unit) (λ r db. Unit)
  bounced-Serves key = record {
    nothing = Persists-refl;
    stable = λ v w p h. tt;
    failed = λ db e h. tt;
    absent = λ db h e. tt;
    passed_over = λ db t h e. tt;
    over = λ db msg h e o. tt;
    live = λ w msg h found live.
        let at_key = message_by_id-id key w.db msg found in
        Safe-weaken _ _ _ _ _ w (λ r v q. tt)
          (on_message_step _ _ max_attempts msg _ _
            (Keeps-Course redis env max_attempts msg Persists Persists (Known msg) (λ db. Unit)
              (bounced-Keeps max_attempts msg))
            live w (msg, ap (λ k. message_by_id k w.db) at_key ∙ found, refl, refl));
  }

module _ {R : Type 0} (redis : Redis R) (streams : Streams R) (env : Env) (max_attempts : ℤ) where
  bounced-KeepsRounds : KeepsRounds redis streams env max_attempts Persists (λ db. Unit)
  bounced-KeepsRounds = record {
    nothing = Persists-refl;
    composed = Persists-trans;
    stays = λ v w p h. tt;
    keeps_queued = mark_queued_row-Persists;
    keeps_limited = λ key. set_sending_state-Persists key SendingState.limited;
    keeps_process = λ key.
        process-Safe redis env max_attempts key Persists Persists (λ db. Unit) (λ r db. Unit)
          (bounced-Serves redis env max_attempts key);
  }

  -- Rounds of the loops of any number of workers run at the same time, with their statements in any
  -- order, whatever the stream delivers, also one message to several workers, and whatever fails: if
  -- every bounced message had its recipient on its customer's suppression list before, every bounced
  -- message has at every point.
  pub runs-BouncesListed :
      (works : List Work) (schedule : List ℕ) (w : World R)
      → BouncesListed w.db
      → BouncesListed (runs schedule (working redis streams env max_attempts works w)).world.db
  runs-BouncesListed works schedule w =
      (runs-Kept redis streams env max_attempts Persists (λ db. Unit) bounced-KeepsRounds works
        schedule w tt).bounces_listed
