-- ===== src/Worker/Sweep/Limits.antt =====
-- Whom `RunAbuseSweep` of internal/worker/worker.go moves to the limited state.
use email_delivery_engine.Runtime.Interface.{acts}
use email_delivery_engine.Prelude.{
  ℕ, String, ◌≡◌, ◌≢◌, refl, sym, ap, subst, ◌∙◌, ◌⊎◌, inl, inr, Bool, true, Option, none, some,
  List, [], ◌∷◌, arith, str_eq, eq_iff, Bool-cases,
}
use email_delivery_engine.Prelude.Members.{find?-update_self, find?-update_other}
use email_delivery_engine.Store.{SendingState, Customer, Database}
use email_delivery_engine.Store.Query.{customer_by_id, BounceRate, bounce_rate, rate_above}
use email_delivery_engine.Store.Statement.{set_sending_state}
use email_delivery_engine.Runtime.{
  Env, World, Result, ok, err, Action, continue, ◌>>=◌, caught, count, query, exec, fails,
  takes_effect,
}
use email_delivery_engine.Worker.Sweep.{
  threshold_pct, customer_ids, is_watched, note_limited, limit_customer, judge_rate, judge_customer,
  sweep_customer, sweep_customers, sweep_listed, run_abuse_sweep,
}

abbrev pub limited_form : Customer → Customer
limited_form c = record c { sending_state = SendingState.limited }

-- What becomes of the customer under a key: it is kept; or it was trusted or new, its bounce rate was
-- above the threshold at some time, and now it is limited and otherwise as it was.
pub data Fate (db : Database) (key : String) (after : Option Customer) : Type 0 where
  kept : after ≡ customer_by_id key db → Fate db key after
  limited :
      (c : Customer) (t : ℕ)
      → customer_by_id key db ≡ some c
      → is_watched c.sending_state ≡ true
      → rate_above threshold_pct (bounce_rate key t db) ≡ true
      → after ≡ some (limited_form c)
      → Fate db key after

-- Nothing but customers changes, and each of them has one of these fates.
pub record Swept (db after : Database) : Type 0 where
  pub others : after ≡ record db { customers = after.customers }
  pub fate : (key : String) → Fate db key (customer_by_id key after)

pub Swept-refl : (db : Database) → Swept db db
Swept-refl db = record { others = refl; fate = λ key. kept refl }

pub bounce_rate-customers :
    (key : String) (t : ℕ) (db after : Database)
    → after ≡ record db { customers = after.customers }
    → bounce_rate key t after ≡ bounce_rate key t db
unfolding bounce_rate
bounce_rate-customers key t db after e = ap (bounce_rate key t) e

Fate-trans :
    (key : String) (db mid after : Database)
    → mid ≡ record db { customers = mid.customers }
    → Fate db key (customer_by_id key mid)
    → Fate mid key (customer_by_id key after)
    → Fate db key (customer_by_id key after)
Fate-trans key db mid after e f (kept same) = subst (Fate db key) (sym same) f
Fate-trans key db mid after e (kept same) (limited c t found watched rate now) =
    limited c t (sym same ∙ found) watched
      (ap (rate_above threshold_pct) (sym (bounce_rate-customers key t db mid e)) ∙ rate) now
Fate-trans key db mid after e (limited c t found watched rate now)
      (limited c' t' found' watched' _ _) =
    let again : limited_form c ≡ c' = cc (now, found') in
    cc (ap (λ (x : Customer). is_watched x.sending_state) again, watched')

pub Swept-trans : (db mid after : Database) → Swept db mid → Swept mid after → Swept db after
Swept-trans db mid after s r = record {
  others = r.others ∙ ap (λ (x : Database). record x { customers = after.customers }) s.others;
  fate = λ key. Fate-trans key db mid after s.others (s.fate key) (r.fate key);
}

abbrev named : String → Customer → Bool
named key c = str_eq c.id key

pub customer_by_id-limited :
    (key : String) (c : Customer) (db : Database)
    → customer_by_id key db ≡ some c
    → customer_by_id key (set_sending_state key SendingState.limited db) ≡ some (limited_form c)
unfolding customer_by_id set_sending_state
customer_by_id-limited key c db h =
    find?-update_self (named key) (named key) limited_form (λ x. refl) db.customers h

customer_by_id-other :
    (key k : String) (db : Database)
    → key ≢ k
    → customer_by_id k (set_sending_state key SendingState.limited db) ≡ customer_by_id k db
unfolding customer_by_id set_sending_state
customer_by_id-other key k db ne =
    find?-update_other (named key) (named k) limited_form (λ x. refl)
      (λ x h. ground (arith, eq_iff x.id key, eq_iff x.id k)) db.customers

set_sending_state-Swept :
    (key : String) (c : Customer) (t : ℕ) (db : Database)
    → customer_by_id key db ≡ some c
    → is_watched c.sending_state ≡ true
    → rate_above threshold_pct (bounce_rate key t db) ≡ true
    → Swept db (set_sending_state key SendingState.limited db)
set_sending_state-Swept key c t db found watched rate = record {
  others = unfold set_sending_state in refl;
  fate = λ k. elim (Bool-cases (str_eq key k)) [
    | inl e ↦
        subst (λ x. Fate db x (customer_by_id x (set_sending_state key SendingState.limited db)))
          ((eq_iff key k).0 e)
          (limited c t found watched rate (customer_by_id-limited key c db found))
    | inr n ↦ kept (customer_by_id-other key k db (λ e. cc ((eq_iff key k).1 e, n)))
  ];
}

module _ {R : Type 0} (env : Env) where
  abbrev Sweeps : Action R Unit → World R → Type 0
  Sweeps m w = Swept w.db (m w).1.db

  pub note_limited-db : (r : Result Unit) (w : World R) → (note_limited (acts env) r w).1.db ≡ w.db
  unfolding count
  note_limited-db (ok done) w = refl
  note_limited-db (err e) w = refl

  exec-db :
      (f : ℕ → Database → Database) (w : World R)
      → ((exec env f w).1.db ≡ w.db) ⊎ ((exec env f w).1.db ≡ f (env.clock w.tick) w.db)
  unfolding exec
  exec-db f w = elim (Bool-cases (takes_effect (env.answer w.tick))) [
    | inl t ↦ inr (rw t refl)
    | inr n ↦ inl (rw n refl)
  ]

  limit_customer-Swept :
      (key : String) (c : Customer) (t : ℕ) (w : World R)
      → customer_by_id key w.db ≡ some c
      → is_watched c.sending_state ≡ true
      → rate_above threshold_pct (bounce_rate key t w.db) ≡ true
      → Sweeps (limit_customer (acts env) key) w
  unfolding ◌>>=◌ caught
  limit_customer-Swept key c t w found watched rate =
      let out = exec env (λ _. set_sending_state key SendingState.limited) w in
      subst (Swept w.db) (sym (note_limited-db out.0 out.1))
        (elim (exec-db (λ _. set_sending_state key SendingState.limited) w) [
          | inl same ↦ subst (Swept w.db) (sym same) (Swept-refl w.db)
          | inr set ↦
              subst (Swept w.db) (sym set) (set_sending_state-Swept key c t w.db found watched rate)
        ])

  judge_rate-Swept :
      (key : String) (c : Customer) (t : ℕ) (r : Result BounceRate) (w : World R)
      → customer_by_id key w.db ≡ some c
      → is_watched c.sending_state ≡ true
      → ((rate : BounceRate) → r ≡ ok rate → rate ≡ bounce_rate key t w.db)
      → Sweeps (judge_rate (acts env) key r) w
  judge_rate-Swept key c t (err e) w found watched read = Swept-refl w.db
  judge_rate-Swept key c t (ok rate) w found watched read =
      elim (Bool-cases (rate_above threshold_pct rate)) [
        | inl h ↦ rw h (
            limit_customer-Swept key c t w found watched
              (ap (rate_above threshold_pct) (sym (read rate refl)) ∙ h))
        | inr n ↦ rw n (Swept-refl w.db)
      ]

  -- What a SELECT whose error is a value has read.
  caught-read :
      {A : Type 0} (f : ℕ → Database → A) (w : World R) (a : A)
      → (query env f w).0 ≡ ok a
      → a ≡ f (env.clock w.tick) w.db
  unfolding query
  caught-read f w a h = elim (Bool-cases (fails (env.answer w.tick))) [
    | inl t ↦ cc (rw t at h)
    | inr n ↦ let e : ok (f (env.clock w.tick) w.db) ≡ ok a = rw n at h in cc
  ]

  pub query-db : {A : Type 0} (f : ℕ → Database → A) (w : World R) → (query env f w).1.db ≡ w.db
  unfolding query
  query-db f w = refl

  judge_customer-Swept :
      (key : String) (r : Result (Option Customer)) (w : World R)
      → ((o : Option Customer) → r ≡ ok o → o ≡ customer_by_id key w.db)
      → Sweeps (judge_customer (acts env) key r) w
  unfolding ◌>>=◌ caught
  judge_customer-Swept key (err e) w read = Swept-refl w.db
  judge_customer-Swept key (ok none) w read = Swept-refl w.db
  judge_customer-Swept key (ok (some c)) w read = elim (Bool-cases (is_watched c.sending_state)) [
    | inr n ↦ rw n (Swept-refl w.db)
    | inl h ↦
        let out = query env (bounce_rate key) w in
        rw h (
          subst (λ db. Swept db (judge_rate (acts env) key out.0 out.1).1.db)
            (query-db (bounce_rate key) w)
            (judge_rate-Swept key c (env.clock w.tick) out.0 out.1
              (ap (customer_by_id key) (query-db (bounce_rate key) w) ∙ sym (read (some c) refl)) h
              (λ rate e.
                caught-read (bounce_rate key) w rate e
                ∙ ap (bounce_rate key (env.clock w.tick)) (sym (query-db (bounce_rate key) w)))))
  ]

  pub sweep_customer-Swept : (key : String) (w : World R) → Sweeps (sweep_customer (acts env) key) w
  unfolding sweep_customer ◌>>=◌ caught
  sweep_customer-Swept key w =
      let out = query env (λ _. customer_by_id key) w in
      subst (λ db. Swept db (judge_customer (acts env) key out.0 out.1).1.db)
        (query-db (λ _. customer_by_id key) w)
        (judge_customer-Swept key out.0 out.1 (λ o e.
          caught-read (λ _. customer_by_id key) w o e
          ∙ ap (customer_by_id key) (sym (query-db (λ _. customer_by_id key) w))))

  continue-Swept :
      (r : Result Unit) (m : Action R Unit) (db : Database) (w : World R)
      → Swept db w.db
      → Swept w.db (m w).1.db
      → Swept db (continue r (λ _. m) w).1.db
  continue-Swept (ok done) m db w first rest = Swept-trans db w.db (m w).1.db first rest
  continue-Swept (err e) m db w first rest = first

  pub sweep_customers-Swept :
      (keys : List String) (w : World R) → Sweeps (sweep_customers (acts env) keys) w
  unfolding sweep_customers ◌>>=◌
  sweep_customers-Swept [] w = Swept-refl w.db
  sweep_customers-Swept (key ∷ keys) w =
      let out = sweep_customer (acts env) key w in
      continue-Swept out.0 (sweep_customers (acts env) keys) w.db out.1 (sweep_customer-Swept key w)
        (sweep_customers-Swept keys out.1)

  sweep_listed-Swept :
      (r : Result (List String)) (w : World R) → Sweeps (sweep_listed (acts env) r) w
  sweep_listed-Swept (err e) w = Swept-refl w.db
  sweep_listed-Swept (ok keys) w = sweep_customers-Swept keys w

  -- Whatever fails, a sweep changes nothing but customers, and each customer that it changes was
  -- trusted or new, had a bounce rate above the threshold at some time, and is now limited and
  -- otherwise as it was.
  pub run_abuse_sweep-Swept : (w : World R) → Swept w.db (run_abuse_sweep (acts env) w).1.db
  unfolding run_abuse_sweep ◌>>=◌ caught
  run_abuse_sweep-Swept w =
      let out = query env (λ _. customer_ids) w in
      subst (λ db. Swept db (sweep_listed (acts env) out.0 out.1).1.db)
        (query-db (λ _. customer_ids) w) (sweep_listed-Swept out.0 out.1)
