-- ===== src/Interleaving/Spared.antt =====
-- Calls of `Process` of internal/worker/worker.go that add no attempt of one message.
use email_delivery_engine.Worker.Sending.{}
use email_delivery_engine.Worker.Pipeline.{}
use email_delivery_engine.Interleaving.Kept.{}
use email_delivery_engine.Prelude.{ℕ, String, ◌≡◌, ◌≢◌, refl, ◌∙◌, true, some}
use email_delivery_engine.Prelude.Int.{ℤ}
use email_delivery_engine.Store.{Message, Database}
use email_delivery_engine.Store.Query.{message_by_id, is_suppressed}
use email_delivery_engine.Store.Statement.{}
use email_delivery_engine.Runtime.{}
use email_delivery_engine.Runtime.Thread.{}
use email_delivery_engine.Worker.Plan.{Write, progress, note, trial, suppression, perform}
use email_delivery_engine.Worker.Guarantees.Numbers.{tries}
use email_delivery_engine.Interleaving.Writes.{Keeps}
use email_delivery_engine.Interleaving.Rows.{Persists, Persists-refl, Persists-trans}
use email_delivery_engine.Interleaving.Bounced.{Known, bounced-Keeps}
use email_delivery_engine.Interleaving.Exclusive.{perform-Spares}

-- No attempt of this message is added.
pub record Spared (key : String) (old new : Database) : Type 0 where
  pub persists : Persists old new
  pub no_attempt : tries key new ≡ tries key old

pub Spared-refl : (key : String) (db : Database) → Spared key db db
Spared-refl key db = record { persists = Persists-refl db; no_attempt = refl }

pub Spared-trans :
    (key : String) (a b c : Database) → Spared key a b → Spared key b c → Spared key a c
Spared-trans key a b c s t = record {
  persists = Persists-trans a b c s.persists t.persists;
  no_attempt = t.no_attempt ∙ s.no_attempt;
}

-- The message is stored, and its recipient is on the list of its customer.
abbrev pub Suppressed : Message → Database → Type 0
Suppressed msg db =
    ((row : Message) × (message_by_id msg.id db ≡ some row)
      × (row.customer_id ≡ msg.customer_id)
      × (row.to_email ≡ msg.to_email))
    × (is_suppressed msg.customer_id msg.to_email db ≡ true)

pub Suppressed-stays :
    (msg : Message) (v w : Database) → Persists v w → Suppressed msg v → Suppressed msg w
Suppressed-stays msg v w p ((row, found, customer, recipient), known) =
    let (new, there, customer', recipient') = p.rows_stay msg.id row found in
    ((new, there, customer' ∙ customer, recipient' ∙ recipient), p.lists_stay _ _ known)

-- A call for another message.
pub other-Keeps :
    (max : ℤ) (key : String) (msg : Message)
    → msg.id ≢ key
    → Keeps max msg (Spared key) (Spared key) (Known msg) (λ db. Unit)
other-Keeps max key msg ne =
    let k = bounced-Keeps max msg in
    record {
      nothing = Spared-refl key;
      stable = λ s v w r h. k.stable s v w r.persists h;
      failed = λ s db h. tt;
      keeps_note = λ s n t db h. spared (note n) t db (k.keeps_note s n t db h);
      keeps_mark = λ p e t db h. spared (progress p) t db (k.keeps_mark p e t db h);
      keeps_attempt = λ a t db h. spared (trial a) t db (k.keeps_attempt a t db h);
      keeps_listed = λ t db h. spared suppression t db (k.keeps_listed t db h);
      keeps_decided =
          λ s p settled o t db h. spared (progress p) t db (k.keeps_decided s p settled o t db h);
      keeps_bounced =
          λ p settled t db h. spared (progress p) t db (k.keeps_bounced p settled t db h);
    }
  where
    spared :
        {P : Type 0} (x : Write) (t : ℕ) (db : Database)
        → Persists db (perform msg x t db) × P
        → Spared key db (perform msg x t db) × P
    spared x t db (does, known) = (
      record { persists = does; no_attempt = (perform-Spares msg x t db key ne).same_tries },
      known,
    )
