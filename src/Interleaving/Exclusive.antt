-- ===== src/Interleaving/Exclusive.antt =====
-- The row and the attempts of one message of internal/worker/worker.go, of which only one call makes
-- changes.
use email_delivery_engine.Prelude.{
  ℕ, suc, ◌+◌, ◌≤◌, String, ◌≡◌, ◌≢◌, refl, sym, ap, subst, ◌∙◌, inl, inr, some, arith, length,
  Bool-cases,
}
use email_delivery_engine.Prelude.Int.{ℤ}
use email_delivery_engine.Store.{Message, Database}
use email_delivery_engine.Store.Query.{message_by_id, is_suppressed}
use email_delivery_engine.Store.Statement.{
  Progress, Trial, with_progress, insert_event, set_progress, insert_attempt, insert_suppression,
  attempt_of,
}
use email_delivery_engine.Worker.Plan.{Write, progress, note, trial, suppression, perform}
use email_delivery_engine.Worker.Replay.{progress_of}
use email_delivery_engine.Worker.Tables.{perform-Touches}
use email_delivery_engine.Worker.Guarantees.Numbers.{
  tries, own_of, own_of-unchanged, own_of-one, length-one,
}
use email_delivery_engine.Worker.Guarantees.Settles.{Settled}
use email_delivery_engine.Interleaving.Course.{Stage, before, tried, listed, decided}
use email_delivery_engine.Interleaving.Writes.{Keeps}
use email_delivery_engine.Interleaving.Rows.{row_set}

-- The row of this message and the number of its attempts are as they were.
pub record Same (key : String) (old new : Database) : Type 0 where
  pub same_row : message_by_id key new ≡ message_by_id key old
  pub same_tries : tries key new ≡ tries key old

-- Other messages are left alone.
abbrev pub Spares : String → Database → Database → Type 0
Spares key old new = (k : String) → key ≢ k → Same k old new

pub Same-refl : (key : String) (db : Database) → Same key db db
Same-refl key db = record { same_row = refl; same_tries = refl }

pub Same-trans : (key : String) (a b c : Database) → Same key a b → Same key b c → Same key a c
Same-trans key a b c s t = record {
  same_row = t.same_row ∙ s.same_row;
  same_tries = t.same_tries ∙ s.same_tries;
}

pub perform-Spares :
    (msg : Message) (x : Write) (t : ℕ) (db : Database) → Spares msg.id db (perform msg x t db)
perform-Spares msg x t db k ne =
    let touches = perform-Touches msg x t db in
    record {
      same_row = touches.other_messages k ne;
      same_tries = ap length (
          ap (own_of k) touches.attempts_grow
          ∙ own_of-unchanged k msg.id db.attempts touches.new_attempts ne touches.attempts_own);
    }

-- None or one attempt more than before the call.
abbrev pub Within : String → ℕ → Database → Type 0
Within key n db = (n ≤ tries key db) × (tries key db ≤ n + 1)

abbrev Present : String → Database → Type 0
Present key db = (row : Message) × (message_by_id key db ≡ some row)

-- The decision is written.
abbrev pub Decided : ℤ → Message → Database → Type 0
Decided max_attempts msg db =
    (row : Message) × (message_by_id msg.id db ≡ some row)
    × Settled max_attempts msg.attempt_count (progress_of row)

module _ (max_attempts : ℤ) (msg : Message) (n : ℕ) where
  abbrev pub Known : Stage → Database → Type 0
  Known before db = Present msg.id db × (tries msg.id db ≡ n)
  Known tried db = Present msg.id db × Within msg.id n db
  Known listed db = Present msg.id db × Within msg.id n db
  Known decided db = Decided max_attempts msg db × Within msg.id n db

  pub Within-same :
      (v w : Database) → tries msg.id w ≡ tries msg.id v → Within msg.id n v → Within msg.id n w
  Within-same v w e h = let low = h.0 in let high = h.1 in (omega arith, omega arith)

  Known-Same : (s : Stage) (v w : Database) → Same msg.id v w → Known s v → Known s w
  Known-Same before v w same ((row, found), count) =
      ((row, same.same_row ∙ found), same.same_tries ∙ count)
  Known-Same tried v w same ((row, found), count) =
      ((row, same.same_row ∙ found), Within-same v w same.same_tries count)
  Known-Same listed v w same ((row, found), count) =
      ((row, same.same_row ∙ found), Within-same v w same.same_tries count)
  Known-Same decided v w same ((row, found, settled), count) =
      ((row, same.same_row ∙ found, settled), Within-same v w same.same_tries count)

  Known-Within : (s : Stage) (db : Database) → Known s db → Within msg.id n db
  Known-Within before db h = let e = h.1 in (omega arith, omega arith)
  Known-Within tried db h = h.1
  Known-Within listed db h = h.1
  Known-Within decided db h = h.1

  Known-Present : (s : Stage) (db : Database) → Known s db → Present msg.id db
  Known-Present before db h = h.0
  Known-Present tried db h = h.0
  Known-Present listed db h = h.0
  Known-Present decided db h = (h.0.0, h.0.1)

  note-Same : (key : String) (x : _) (t : ℕ) (db : Database) → Same key db (insert_event key x t db)
  unfolding insert_event message_by_id
  note-Same key x t db = record { same_row = refl; same_tries = refl }

  suppression-Same :
      (key customer recipient : String) (db : Database)
      → Same key db (insert_suppression customer recipient "hard_bounce" db)
  unfolding insert_suppression message_by_id
  suppression-Same key customer recipient db =
      elim (Bool-cases (is_suppressed customer recipient db)) [
        | inl known ↦ rw known (Same-refl key db)
        | inr new ↦ rw new (record { same_row = refl; same_tries = refl })
      ]

  update_found :
      (p : Progress) (t : ℕ) (db : Database)
      → Present msg.id db
      → (row : Message) × (message_by_id msg.id (set_progress msg.id p t db) ≡ some row)
        × (progress_of row ≡ p)
  update_found p t db (row, found) = (with_progress p t row, row_set msg.id p t db row found, refl)

  update-tries :
      (p : Progress) (t : ℕ) (db : Database)
      → tries msg.id (set_progress msg.id p t db) ≡ tries msg.id db
  unfolding set_progress
  update-tries p t db = refl

  attempt-Known :
      (a : Trial) (t : ℕ) (db : Database)
      → Known before db
      → Known tried (insert_attempt msg.id a t db)
  unfolding insert_attempt message_by_id
  attempt-Known a t db h =
      let row = attempt_of msg.id a t in
      let one : tries msg.id (insert_attempt msg.id a t db) ≡ suc (tries msg.id db) =
        ap length (own_of-one db.attempts row) ∙ length-one (own_of msg.id db.attempts) row in
      let e = h.1 in (h.0, (omega arith, omega arith))

  update-Decided :
      (s : Stage) (p : Progress) (t : ℕ) (db : Database)
      → Settled max_attempts msg.attempt_count p
      → Known s db
      → Known decided (set_progress msg.id p t db)
  update-Decided s p t db settled h =
      let (row, found, columns) = update_found p t db (Known-Present s db h) in
      (
        (row, found, subst (Settled max_attempts msg.attempt_count) (sym columns) settled),
        Within-same db (set_progress msg.id p t db) (update-tries p t db) (Known-Within s db h),
      )

  -- What one call keeps of its message, when the others leave it alone.
  pub own-Keeps : Keeps max_attempts msg (Same msg.id) (Spares msg.id) Known (Within msg.id n)
  own-Keeps = record {
    nothing = λ db k ne. Same-refl k db;
    stable = Known-Same;
    failed = Known-Within;
    keeps_note = λ s x t db h.
        (perform-Spares msg (note x) t db, Known-Same s _ _ (note-Same msg.id x t db) h);
    keeps_mark = λ p e t db h.
        let (row, found, columns) = update_found p t db h.0 in
        (perform-Spares msg (progress p) t db, ((row, found), update-tries p t db ∙ h.1));
    keeps_attempt = λ a t db h. (perform-Spares msg (trial a) t db, attempt-Known a t db h);
    keeps_listed = λ t db h. (
      perform-Spares msg suppression t db,
      Known-Same tried _ _ (suppression-Same msg.id msg.customer_id msg.to_email db) h,
    );
    keeps_decided = λ s p settled other t db h.
        (perform-Spares msg (progress p) t db, update-Decided s p t db settled h);
    keeps_bounced = λ p settled t db h.
        (perform-Spares msg (progress p) t db, update-Decided listed p t db settled h);
  }
