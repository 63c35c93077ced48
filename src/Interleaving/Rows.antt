-- ===== src/Interleaving/Rows.antt =====
-- The rows of messages of data-plane/internal/store/store.go under the writes of any number of calls.
use email_delivery_engine.Prelude.{
  ℕ, String, ◌≡◌, ◌≢◌, refl, sym, ap, subst, ◌∙◌, inl, inr, true, false, Option, none, some, List,
  [], ◌∷◌, arith, Bool-cases, find?, update_where, str_eq, eq_iff,
}
use email_delivery_engine.Store.{Message, Database}
use email_delivery_engine.Store.Query.{message_by_id, is_suppressed, has_id}
use email_delivery_engine.Store.Statement.{
  Progress, Note, Trial, with_progress, set_progress, insert_event, insert_attempt,
  insert_suppression,
}
use email_delivery_engine.Worker.Replay.{find-update_self, find-update_ne}
use email_delivery_engine.Worker.Guarantees.Bounces.{any-append}
use email_delivery_engine.Interleaving.Course.{is_bounced}

pub row_set :
    (key : String) (p : Progress) (t : ℕ) (db : Database) (m : Message)
    → message_by_id key db ≡ some m
    → message_by_id key (set_progress key p t db) ≡ some (with_progress p t m)
unfolding message_by_id set_progress
row_set key p t db m h = find-update_self key (with_progress p t) db.messages (λ x. refl) h

row_other :
    (key k : String) (p : Progress) (t : ℕ) (db : Database)
    → key ≢ k
    → message_by_id k (set_progress key p t db) ≡ message_by_id k db
unfolding message_by_id set_progress
row_other key k p t db ne = find-update_ne key k (with_progress p t) db.messages (λ x. refl) ne

find-update_none :
    (key : String) (f : Message → Message) (xs : List Message)
    → ((x : Message) → (f x).id ≡ x.id)
    → find? (has_id key) xs ≡ none
    → find? (has_id key) (update_where (has_id key) f xs) ≡ none
find-update_none key f [] same h = refl
find-update_none key f (x ∷ xs) same h = elim (Bool-cases (has_id key x)) [
  | inl t ↦ cc (rw t at h)
  | inr e ↦ rw e (rw e (find-update_none key f xs same (rw e at h)))
]

-- The row that an update leaves comes from a row.
row_before :
    (key : String) (p : Progress) (t : ℕ) (db : Database) (row : Message)
    → message_by_id key (set_progress key p t db) ≡ some row
    → (m : Message) × (message_by_id key db ≡ some m) × (row ≡ with_progress p t m)
unfolding message_by_id set_progress
row_before key p t db row h = found (message_by_id key db) refl
  where
    found :
        (o : Option Message)
        → message_by_id key db ≡ o
        → (m : Message) × (message_by_id key db ≡ some m) × (row ≡ with_progress p t m)
    found none e = cc (find-update_none key (with_progress p t) db.messages (λ x. refl) e, h)
    found (some m) e = (m, e, cc (row_set key p t db m e, h))

-- Every message that bounced has its recipient on its customer's suppression list.
abbrev pub BouncesListed : Database → Type 0
BouncesListed db =
    (key : String) (row : Message)
    → message_by_id key db ≡ some row
    → is_bounced row.status ≡ true
    → is_suppressed row.customer_id row.to_email db ≡ true

-- What no statement of a call undoes, whichever messages the calls are for.
pub record Persists (old new : Database) : Type 0 where
  pub rows_stay :
      (key : String) (m : Message)
      → message_by_id key old ≡ some m
      → (row : Message) × (message_by_id key new ≡ some row)
        × (row.customer_id ≡ m.customer_id)
        × (row.to_email ≡ m.to_email)
  pub lists_stay :
      (customer recipient : String)
      → is_suppressed customer recipient old ≡ true
      → is_suppressed customer recipient new ≡ true
  pub bounces_listed : BouncesListed old → BouncesListed new

pub Persists-refl : (db : Database) → Persists db db
Persists-refl db = record {
  rows_stay = λ key m h. (m, h, refl, refl);
  lists_stay = λ c r h. h;
  bounces_listed = λ h. h;
}

pub Persists-trans : (a b c : Database) → Persists a b → Persists b c → Persists a c
Persists-trans a b c s t = record {
  rows_stay = λ key m h.
      let (n, found, customer, recipient) = s.rows_stay key m h in
      let (row, there, customer', recipient') = t.rows_stay key n found in
      (row, there, customer' ∙ customer, recipient' ∙ recipient);
  lists_stay = λ x r h. t.lists_stay x r (s.lists_stay x r h);
  bounces_listed = λ h. t.bounces_listed (s.bounces_listed h);
}

-- A write that leaves the messages alone.
pub same_rows-Persists :
    (old new : Database)
    → ((key : String) → message_by_id key new ≡ message_by_id key old)
    → ((customer recipient : String)
        → is_suppressed customer recipient old ≡ true
        → is_suppressed customer recipient new ≡ true)
    → Persists old new
same_rows-Persists old new same grows = record {
  rows_stay = λ key m h. (m, same key ∙ h, refl, refl);
  lists_stay = grows;
  bounces_listed = λ listed key row h b. grows _ _ (listed key row (sym (same key) ∙ h) b);
}

pub insert_event-Persists :
    (key : String) (n : Note) (t : ℕ) (db : Database) → Persists db (insert_event key n t db)
unfolding insert_event message_by_id is_suppressed
insert_event-Persists key n t db =
    same_rows-Persists db (insert_event key n t db) (λ k. refl) (λ c r h. h)

pub insert_attempt-Persists :
    (key : String) (a : Trial) (t : ℕ) (db : Database) → Persists db (insert_attempt key a t db)
unfolding insert_attempt message_by_id is_suppressed
insert_attempt-Persists key a t db =
    same_rows-Persists db (insert_attempt key a t db) (λ k. refl) (λ c r h. h)

same_suppressions :
    (key : String) (p : Progress) (t : ℕ) (db : Database) (customer recipient : String)
    → is_suppressed customer recipient (set_progress key p t db)
      ≡ is_suppressed customer recipient db
unfolding is_suppressed set_progress
same_suppressions key p t db customer recipient = refl

differs : (key k : String) → str_eq key k ≡ false → key ≢ k
differs key k ne e = ground (arith, eq_iff key k)

-- An update to `bounced` is for a message whose recipient is listed.
pub set_progress-Persists :
    (key : String) (p : Progress) (t : ℕ) (db : Database)
    → ((m : Message)
        → message_by_id key db ≡ some m
        → is_bounced p.status ≡ true
        → is_suppressed m.customer_id m.to_email db ≡ true)
    → Persists db (set_progress key p t db)
set_progress-Persists key p t db allowed = record {
  rows_stay = λ k m h. elim (Bool-cases (str_eq key k)) [
    | inl e ↦
        let same = (eq_iff key k).0 e in
        let own = row_set key p t db m (ap (λ x. message_by_id x db) same ∙ h) in
        (
          with_progress p t m,
          ap (λ x. message_by_id x (set_progress key p t db)) (sym same) ∙ own,
          refl,
          refl,
        )
    | inr ne ↦ (m, row_other key k p t db (differs key k ne) ∙ h, refl, refl)
  ];
  lists_stay = λ c r h. same_suppressions key p t db c r ∙ h;
  bounces_listed = λ listed k row h b.
      same_suppressions key p t db row.customer_id row.to_email ∙ elim (Bool-cases (str_eq key k)) [
        | inl e ↦
            let same = (eq_iff key k).0 e in
            let (m, found, from) =
              row_before key p t db row
                (ap (λ x. message_by_id x (set_progress key p t db)) same ∙ h) in
            let bounced = ap (λ (x : Message). is_bounced x.status) (sym from) ∙ b in
            subst (λ (x : Message). is_suppressed x.customer_id x.to_email db ≡ true) (sym from)
              (allowed m found bounced)
        | inr ne ↦ listed k row (sym (row_other key k p t db (differs key k ne)) ∙ h) b
      ];
}

pub insert_suppression-Persists :
    (msg : Message) (db : Database)
    → Persists db (insert_suppression msg.customer_id msg.to_email "hard_bounce" db)
unfolding message_by_id is_suppressed insert_suppression
insert_suppression-Persists msg db =
    elim (Bool-cases (is_suppressed msg.customer_id msg.to_email db)) [
      | inl listed ↦ rw listed (Persists-refl db)
      | inr new ↦
          rw new (same_rows-Persists db _ (λ k. refl) (λ c r h. rw any-append (ground (arith, h))))
    ]
