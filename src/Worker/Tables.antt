-- ===== src/Worker/Tables.antt =====
-- What the writes of one message of internal/worker/worker.go leave alone, and how the tables of
-- events and attempts grow.
use email_delivery_engine.Prelude.{
  ℕ, String, ◌≡◌, ◌≢◌, refl, sym, ap, ◌∙◌, inl, inr, List, [], ◌∷◌, ◌++◌, arith, Bool-cases, All,
}
use mathlib.Core.List.{append-nil, append_assoc}
use email_delivery_engine.Store.{
  Message, Customer, IpPool, Route, ProviderPolicy, ThrottleRule, Database, Event, Attempt,
  Suppression,
}
use email_delivery_engine.Store.Query.{message_by_id, is_suppressed}
use email_delivery_engine.Store.Statement.{
  with_progress, set_progress, insert_event, insert_attempt, insert_suppression, event_of,
  attempt_of,
}
use email_delivery_engine.Worker.Plan.{
  Write, progress, note, trial, suppression, perform, Log, replay,
}
use email_delivery_engine.Worker.Replay.{find-update_ne, trials, writes_of}

-- The configuration tables.
abbrev pub Config : Type 0
Config = List Customer × List IpPool × List Route × List ProviderPolicy × List ThrottleRule

abbrev pub config : Database → Config
config db = (db.customers, db.pools, db.routes, db.policies, db.throttle_rules)

-- Only the message's own row changes; the configuration tables stay; the other tables only grow.
pub record Touches (key : String) (before after : Database) : Type 0 where
  pub other_messages : (k : String) → key ≢ k → message_by_id k after ≡ message_by_id k before
  pub same_config : config after ≡ config before
  pub new_events : List Event
  pub events_grow : after.events ≡ before.events ++ new_events
  pub events_own : All (λ (e : Event). e.message_id ≡ key) new_events
  pub new_attempts : List Attempt
  pub attempts_grow : after.attempts ≡ before.attempts ++ new_attempts
  pub attempts_own : All (λ (a : Attempt). a.message_id ≡ key) new_attempts
  pub new_suppressions : List Suppression
  pub suppressions_grow : after.suppressions ≡ before.suppressions ++ new_suppressions

pub Touches-refl : (key : String) (db : Database) → Touches key db db
Touches-refl key db = record {
  other_messages = λ k ne. refl;
  same_config = refl;
  new_events = [];
  events_grow = sym (append-nil db.events);
  events_own = tt;
  new_attempts = [];
  attempts_grow = sym (append-nil db.attempts);
  attempts_own = tt;
  new_suppressions = [];
  suppressions_grow = sym (append-nil db.suppressions);
}

All-append {ℓ κ} :
    {A : Type ℓ} (P : A → Type κ) (xs ys : List A) → All P xs → All P ys → All P (xs ++ ys)
All-append P [] ys hx hy = hy
All-append P (x ∷ xs) ys hx hy = (hx.0, All-append P xs ys hx.1 hy)

grow_on {ℓ} : {A : Type ℓ} (a b c xs ys : List A) → b ≡ a ++ xs → c ≡ b ++ ys → c ≡ a ++ (xs ++ ys)
grow_on a b c xs ys e f = f ∙ ap (λ l. l ++ ys) e ∙ append_assoc a xs ys

Touches-trans :
    {key : String} {a b c : Database} → Touches key a b → Touches key b c → Touches key a c
Touches-trans s t = record {
  other_messages = λ k ne. t.other_messages k ne ∙ s.other_messages k ne;
  same_config = t.same_config ∙ s.same_config;
  new_events = s.new_events ++ t.new_events;
  events_grow = grow_on _ _ _ s.new_events t.new_events s.events_grow t.events_grow;
  events_own = All-append _ s.new_events t.new_events s.events_own t.events_own;
  new_attempts = s.new_attempts ++ t.new_attempts;
  attempts_grow = grow_on _ _ _ s.new_attempts t.new_attempts s.attempts_grow t.attempts_grow;
  attempts_own = All-append _ s.new_attempts t.new_attempts s.attempts_own t.attempts_own;
  new_suppressions = s.new_suppressions ++ t.new_suppressions;
  suppressions_grow =
      grow_on _ _ _ s.new_suppressions t.new_suppressions s.suppressions_grow t.suppressions_grow;
}

-- One write, by what it adds to the tables that grow.
adds :
    (key : String) (before after : Database) (es : List Event) (ats : List Attempt)
    (ss : List Suppression)
    → ((k : String) → key ≢ k → message_by_id k after ≡ message_by_id k before)
    → config after ≡ config before
    → (after.events ≡ before.events ++ es) × All (λ (e : Event). e.message_id ≡ key) es
    → (after.attempts ≡ before.attempts ++ ats) × All (λ (a : Attempt). a.message_id ≡ key) ats
    → after.suppressions ≡ before.suppressions ++ ss
    → Touches key before after
adds key before after es ats ss others configured events attempts suppressions = record {
  other_messages = others;
  same_config = configured;
  new_events = es;
  events_grow = events.0;
  events_own = events.1;
  new_attempts = ats;
  attempts_grow = attempts.0;
  attempts_own = attempts.1;
  new_suppressions = ss;
  suppressions_grow = suppressions;
}

insert_suppression-Touches :
    (key customer recipient : String) (db : Database)
    → Touches key db (insert_suppression customer recipient "hard_bounce" db)
unfolding insert_suppression message_by_id
insert_suppression-Touches key customer recipient db =
    elim (Bool-cases (is_suppressed customer recipient db)) [
      | inl listed ↦ rw listed (Touches-refl key db)
      | inr new ↦ rw new (
          adds key db _ [] [] _ (λ k ne. refl) refl (sym (append-nil db.events), tt)
            (sym (append-nil db.attempts), tt) refl)
    ]

pub perform-Touches :
    (msg : Message) (x : Write) (t : ℕ) (db : Database) → Touches msg.id db (perform msg x t db)
unfolding set_progress insert_event insert_attempt message_by_id
perform-Touches msg (progress p) t db =
    adds msg.id db _ [] [] []
      (λ k ne. find-update_ne msg.id k (with_progress p t) db.messages (λ x. refl) ne) refl
      (sym (append-nil db.events), tt) (sym (append-nil db.attempts), tt)
      (sym (append-nil db.suppressions))
perform-Touches msg (note n) t db =
    adds msg.id db _ (event_of msg.id n t ∷ []) [] [] (λ k ne. refl) refl (refl, (refl, tt))
      (sym (append-nil db.attempts), tt) (sym (append-nil db.suppressions))
perform-Touches msg (trial a) t db =
    adds msg.id db _ [] (attempt_of msg.id a t ∷ []) [] (λ k ne. refl) refl
      (sym (append-nil db.events), tt) (refl, (refl, tt)) (sym (append-nil db.suppressions))
perform-Touches msg suppression t db =
    insert_suppression-Touches msg.id msg.customer_id msg.to_email db

pub replay-Touches :
    (msg : Message) (log : Log) (db : Database) → Touches msg.id db (replay msg log db)
replay-Touches msg [] db = Touches-refl msg.id db
replay-Touches msg ((t, x) ∷ log) db =
    Touches-trans (perform-Touches msg x t db) (replay-Touches msg log (perform msg x t db))

-- A log without an attempt leaves the attempts as they are, and one with a single attempt adds its
-- row.
pub replay-no_trials :
    (msg : Message) (log : Log) (db : Database)
    → trials (writes_of log) ≡ []
    → (replay msg log db).attempts ≡ db.attempts
unfolding set_progress insert_event insert_attempt insert_suppression
replay-no_trials msg [] db h = refl
replay-no_trials msg ((t, progress p) ∷ log) db h =
    replay-no_trials msg log (perform msg (progress p) t db) h
replay-no_trials msg ((t, note n) ∷ log) db h =
    replay-no_trials msg log (perform msg (note n) t db) h
replay-no_trials msg ((t, trial a) ∷ log) db h = cc
replay-no_trials msg ((t, suppression) ∷ log) db h =
    replay-no_trials msg log (perform msg suppression t db) h ∙ ground arith
