-- ===== src/Worker/Replay.antt =====
-- What a log of writes of internal/worker/worker.go does to the tables.
use email_delivery_engine.Prelude.{
  ℕ, String, ◌≡◌, ◌≢◌, refl, sym, ap, ◌∙◌, inl, inr, true, false, some, List, [], ◌∷◌, arith,
  str_eq, eq_iff, find?, update_where, Bool-cases,
}
use email_delivery_engine.Store.{Message, Database}
use email_delivery_engine.Store.Query.{message_by_id, has_id}
use email_delivery_engine.Store.Statement.{
  Progress, Note, Trial, with_progress, set_progress, insert_event, insert_attempt,
  insert_suppression,
}
use email_delivery_engine.Worker.Plan.{
  Write, progress, note, trial, suppression, perform, Log, replay, Follows,
}

pub find-update_self :
    (key : String) (f : Message → Message) (xs : List Message) {m : Message}
    → ((x : Message) → (f x).id ≡ x.id)
    → find? (has_id key) xs ≡ some m
    → find? (has_id key) (update_where (has_id key) f xs) ≡ some (f m)
find-update_self key f [] same h = cc
find-update_self key f (x ∷ xs) same h = elim (Bool-cases (has_id key x)) [
  | inl t ↦
      let first : some x ≡ some _ = rw t at h in
      let hit : has_id key (f x) ≡ true = ap (λ i. str_eq i key) (same x) ∙ t in
      rw t (rw hit (ap (λ y. some (f y)) (some_eq first)))
  | inr e ↦ rw e (rw e (find-update_self key f xs same (rw e at h)))
]
  where
    some_eq : {a b : Message} → some a ≡ some b → a ≡ b
    some_eq e = cc

pub find-update_ne :
    (key k : String) (f : Message → Message) (xs : List Message)
    → ((x : Message) → (f x).id ≡ x.id)
    → key ≢ k
    → find? (has_id k) (update_where (has_id key) f xs) ≡ find? (has_id k) xs
find-update_ne key k f [] same ne = refl
find-update_ne key k f (x ∷ xs) same ne = elim (Bool-cases (has_id key x)) [
  | inl t ↦
      let other : has_id k x ≡ false = ground (arith, eq_iff x.id key, eq_iff x.id k) in
      rw t (rw (same x, other) (find-update_ne key k f xs same ne))
  | inr e ↦ rw e (ground (arith, find-update_ne key k f xs same ne))
]

-- The columns of a row that an UPDATE of the pipeline sets.
abbrev pub progress_of : Message → Progress
progress_of m = record {
  status = m.status;
  route_id = m.route_id;
  ip_pool_id = m.ip_pool_id;
  attempt_count = m.attempt_count;
  next_attempt_at = m.next_attempt_at;
}

-- Those columns after some writes.
abbrev pub row_after : List Write → Progress → Progress
row_after [] p = p
row_after (progress q ∷ xs) p = row_after xs q
row_after (note n ∷ xs) p = row_after xs p
row_after (trial t ∷ xs) p = row_after xs p
row_after (suppression ∷ xs) p = row_after xs p

abbrev pub trials : List Write → List Trial
trials [] = []
trials (trial t ∷ xs) = t ∷ trials xs
trials (progress q ∷ xs) = trials xs
trials (note n ∷ xs) = trials xs
trials (suppression ∷ xs) = trials xs

abbrev pub notes : List Write → List Note
notes [] = []
notes (note n ∷ xs) = n ∷ notes xs
notes (progress q ∷ xs) = notes xs
notes (trial t ∷ xs) = notes xs
notes (suppression ∷ xs) = notes xs

abbrev pub writes_of : Log → List Write
writes_of [] = []
writes_of ((t, x) ∷ log) = x ∷ writes_of log

-- The row of the message after a log, with its identity and its owner.
pub record RowIs (key : String) (db : Database) (before : Message) (p : Progress) : Type 0 where
  pub row : Message
  pub found : message_by_id key db ≡ some row
  pub columns : progress_of row ≡ p
  pub same_id : row.id ≡ before.id
  pub same_customer : row.customer_id ≡ before.customer_id
  pub same_recipient : row.to_email ≡ before.to_email

perform-row :
    (msg : Message) (x : Write) (t : ℕ) (db : Database) {m : Message}
    → message_by_id msg.id db ≡ some m
    → RowIs msg.id (perform msg x t db) m (row_after (x ∷ []) (progress_of m))
unfolding message_by_id set_progress insert_event insert_attempt insert_suppression
perform-row msg (progress p) t db {m} h = record {
  row = with_progress p t m;
  found = find-update_self msg.id (with_progress p t) db.messages (λ x. refl) h;
  columns = refl;
  same_id = refl;
  same_customer = refl;
  same_recipient = refl;
}
perform-row msg (note n) t db {m} h = record {
  row = m;
  found = h;
  columns = refl;
  same_id = refl;
  same_customer = refl;
  same_recipient = refl;
}
perform-row msg (trial a) t db {m} h = record {
  row = m;
  found = h;
  columns = refl;
  same_id = refl;
  same_customer = refl;
  same_recipient = refl;
}
perform-row msg suppression t db {m} h = record {
  row = m;
  found = ground arith;
  columns = refl;
  same_id = refl;
  same_customer = refl;
  same_recipient = refl;
}

-- The row of a message after a log has the columns of the last change in the log.
pub replay-row :
    (msg : Message) (log : Log) (db : Database) {m : Message}
    → message_by_id msg.id db ≡ some m
    → RowIs msg.id (replay msg log db) m (row_after (writes_of log) (progress_of m))
replay-row msg [] db {m} h = record {
  row = m;
  found = h;
  columns = refl;
  same_id = refl;
  same_customer = refl;
  same_recipient = refl;
}
replay-row msg ((t, x) ∷ log) db {m} h =
    let one = perform-row msg x t db h in
    let rest = replay-row msg log (perform msg x t db) one.found in
    record {
      row = rest.row;
      found = rest.found;
      columns =
          rest.columns
          ∙ ap (row_after (writes_of log)) one.columns
          ∙ step_after x (writes_of log) m;
      same_id = rest.same_id ∙ one.same_id;
      same_customer = rest.same_customer ∙ one.same_customer;
      same_recipient = rest.same_recipient ∙ one.same_recipient;
    }
  where
    step_after :
        (x : Write) (xs : List Write) (m : Message)
        → row_after xs (row_after (x ∷ []) (progress_of m)) ≡ row_after (x ∷ xs) (progress_of m)
    step_after (progress p) xs m = refl
    step_after (note n) xs m = refl
    step_after (trial a) xs m = refl
    step_after suppression xs m = refl

-- A complete log holds its plan.
pub Follows-complete :
    (plan : List Write) (log : Log) → Follows plan log true → writes_of log ≡ plan
Follows-complete plan [] h = sym (h refl)
Follows-complete [] (e ∷ log) h = absurd h
Follows-complete (x ∷ plan) ((t, y) ∷ log) h = cc (h.0, Follows-complete plan log h.1)
