-- ===== src/Interleaving/Marks.antt =====
-- The writes of the deferred poller and of the abuse sweep of data-plane/cmd/worker/main.go, among
-- other calls.
use email_delivery_engine.Prelude.{
  ℕ, String, ◌≡◌, refl, sym, ap, ◌∙◌, inl, inr, Bool, true, ◌&&◌, Option, none, some, List, [], ◌∷◌,
  Bool-cases, Option-cases, find?, update_where, if◌then◌else◌,
}
use email_delivery_engine.Store.{Status, SendingState, Message, Database}
use email_delivery_engine.Store.Query.{message_by_id, is_suppressed, has_id, is_deferred}
use email_delivery_engine.Store.Statement.{mark_queued_row, set_sending_state}
use email_delivery_engine.Interleaving.Course.{is_bounced}
use email_delivery_engine.Interleaving.Rows.{Persists, same_rows-Persists}

-- An element after an update of those that pass a test.
abbrev updated : {A : Type 0} → (A → Bool) → (A → A) → A → A
updated p f x = if p x then f x else x

abbrev found_after : {A : Type 0} → (A → Bool) → (A → A) → Option A → Option A
found_after p f none = none
found_after p f (some x) = some (updated p f x)

updated-same :
    {A : Type 0} (p q : A → Bool) (f : A → A)
    → ((x : A) → q (f x) ≡ q x)
    → (x : A) → q (updated p f x) ≡ q x
updated-same p q f same x = elim (Bool-cases (p x)) [ inl t ↦ rw t (same x) | inr n ↦ rw n refl ]

-- A search after an update that it does not see.
find?-updated :
    {A : Type 0} (p q : A → Bool) (f : A → A)
    → ((x : A) → q (f x) ≡ q x)
    → (xs : List A) → find? q (update_where p f xs) ≡ found_after p f (find? q xs)
find?-updated p q f same [] = refl
find?-updated p q f same (x ∷ xs) =
    let seen = updated-same p q f same x in
    elim (Bool-cases (q x)) [
      | inl t ↦ rw (seen, t) refl
      | inr n ↦ rw (seen, n) (find?-updated p q f same xs)
    ]

abbrev waits_as : String → Message → Bool
waits_as key m = has_id key m && is_deferred m.status

abbrev queued_at : ℕ → Message → Message
queued_at t m = record m { status = Status.queued; updated_at = t }

row_after_mark :
    (key k : String) (t : ℕ) (db : Database)
    → message_by_id k (mark_queued_row key t db)
      ≡ found_after (waits_as key) (queued_at t) (message_by_id k db)
unfolding message_by_id mark_queued_row
row_after_mark key k t db =
    find?-updated (waits_as key) (has_id k) (queued_at t) (λ x. refl) db.messages

same_columns :
    (key : String) (t : ℕ) (m : Message)
    → ((updated (waits_as key) (queued_at t) m).customer_id ≡ m.customer_id)
      × ((updated (waits_as key) (queued_at t) m).to_email ≡ m.to_email)
same_columns key t m = elim (Bool-cases (waits_as key m)) [
  | inl w ↦ rw w (refl, refl)
  | inr n ↦ rw n (refl, refl)
]

still_bounced :
    (key : String) (t : ℕ) (m : Message)
    → is_bounced (updated (waits_as key) (queued_at t) m).status ≡ true
    → updated (waits_as key) (queued_at t) m ≡ m
still_bounced key t m h = elim (Bool-cases (waits_as key m)) [
  | inl w ↦ cc (rw w at h)
  | inr n ↦ rw n refl
]

same_lists :
    (key c r : String) (t : ℕ) (db : Database)
    → is_suppressed c r (mark_queued_row key t db) ≡ is_suppressed c r db
unfolding is_suppressed mark_queued_row
same_lists key c r t db = refl

bounced_before :
    (key k : String) (t : ℕ) (db : Database) (row : Message)
    → message_by_id k (mark_queued_row key t db) ≡ some row
    → is_bounced row.status ≡ true
    → message_by_id k db ≡ some row
bounced_before key k t db row h bounced = elim (Option-cases (message_by_id k db)) [
  | inl missing ↦ cc (row_after_mark key k t db, missing, h)
  | inr (m, found) ↦
      let e : updated (waits_as key) (queued_at t) m ≡ row =
        cc (row_after_mark key k t db, found, h) in
      let same = still_bounced key t m (ap (λ (x : Message). is_bounced x.status) e ∙ bounced) in
      found ∙ ap some (sym same ∙ e)
]

pub mark_queued_row-Persists :
    (key : String) (t : ℕ) (db : Database) → Persists db (mark_queued_row key t db)
mark_queued_row-Persists key t db = record {
  rows_stay = λ k m h.
      let (customer, recipient) = same_columns key t m in
      (
        updated (waits_as key) (queued_at t) m,
        row_after_mark key k t db ∙ ap (found_after (waits_as key) (queued_at t)) h,
        customer,
        recipient,
      );
  lists_stay = λ c r h. same_lists key c r t db ∙ h;
  bounces_listed = λ listed k row h b.
      same_lists key row.customer_id row.to_email t db
      ∙ listed k row (bounced_before key k t db row h b) b;
}

pub set_sending_state-Persists :
    (key : String) (s : SendingState) (db : Database) → Persists db (set_sending_state key s db)
unfolding set_sending_state message_by_id is_suppressed
set_sending_state-Persists key s db =
    same_rows-Persists db (set_sending_state key s db) (λ k. refl) (λ c r h. h)
