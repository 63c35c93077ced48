-- ===== src/Worker/Sweep/Reach.antt =====
-- That `RunAbuseSweep` of internal/worker/worker.go reaches every customer of a high bounce rate.
use email_delivery_engine.Runtime.Interface.{acts}
use mathlib.Core.List.{Memᴰ}
use email_delivery_engine.Prelude.{
  ℕ, suc, String, ◌≡◌, refl, ap, subst, ◌∙◌, ◌⊎◌, inl, inr, true, Option, none, some, List, [], ◌∷◌,
  Bool-cases, eq_iff,
}
use email_delivery_engine.Prelude.Members.{find?-some, mem-map}
use email_delivery_engine.Store.{Customer, Database}
use email_delivery_engine.Store.Query.{customer_by_id, BounceRate, bounce_rate, rate_above}
use email_delivery_engine.Runtime.{
  Answer, Env, World, Result, ok, err, continue, ◌>>=◌, caught, count, query, exec, step,
}
use email_delivery_engine.Worker.Sweep.{
  threshold_pct, customer_ids, is_watched, note_limited, limit_customer, judge_rate, judge_customer,
  sweep_customer, sweep_customers, run_abuse_sweep,
}
use email_delivery_engine.Worker.Sweep.Limits.{
  limited_form, Fate, kept, limited, Swept, Swept-refl, Swept-trans, bounce_rate-customers,
  customer_by_id-limited, note_limited-db, sweep_customer-Swept, sweep_customers-Swept,
}

module _ {R : Type 0} (env : Env) where
  -- No step of the sweep returns an error.
  note_limited-ok : (r : Result Unit) (w : World R) → (note_limited (acts env) r w).0 ≡ ok tt
  unfolding count
  note_limited-ok (ok done) w = refl
  note_limited-ok (err e) w = refl

  judge_rate-ok :
      (key : String) (r : Result BounceRate) (w : World R)
      → (judge_rate (acts env) key r w).0 ≡ ok tt
  unfolding ◌>>=◌ caught
  judge_rate-ok key (err e) w = refl
  judge_rate-ok key (ok rate) w = elim (Bool-cases (rate_above threshold_pct rate)) [
    | inl h ↦ rw h (note_limited-ok _ _)
    | inr n ↦ rw n refl
  ]

  judge_customer-ok :
      (key : String) (r : Result (Option Customer)) (w : World R)
      → (judge_customer (acts env) key r w).0 ≡ ok tt
  unfolding ◌>>=◌ caught
  judge_customer-ok key (err e) w = refl
  judge_customer-ok key (ok none) w = refl
  judge_customer-ok key (ok (some c)) w = elim (Bool-cases (is_watched c.sending_state)) [
    | inl h ↦ rw h (judge_rate-ok key _ _)
    | inr n ↦ rw n refl
  ]

  sweep_customer-ok : (key : String) (w : World R) → (sweep_customer (acts env) key w).0 ≡ ok tt
  unfolding sweep_customer ◌>>=◌ caught
  sweep_customer-ok key w = judge_customer-ok key _ _

  sweep_customers-next :
      (key : String) (keys : List String) (w : World R)
      → sweep_customers (acts env) (key ∷ keys) w
        ≡ sweep_customers (acts env) keys (sweep_customer (acts env) key w).1
  unfolding sweep_customers ◌>>=◌
  sweep_customers-next key keys w =
      ap
        (λ r. continue r (λ _. sweep_customers (acts env) keys) (sweep_customer (acts env) key w).1)
        (sweep_customer-ok key w)

abbrev IsHigh : Env → String → Database → Type 0
IsHigh env key db = (i : ℕ) → rate_above threshold_pct (bounce_rate key (env.clock i) db) ≡ true

-- A customer that an earlier part of a sweep has limited stays limited.
stays_limited :
    (key : String) (c : Customer) (db after : Database)
    → is_watched c.sending_state ≡ true
    → customer_by_id key db ≡ some (limited_form c)
    → Swept db after
    → customer_by_id key after ≡ some (limited_form c)
stays_limited key c db after watched found s = elim (s.fate key) [
  | kept same ↦ same ∙ found
  | limited x t here open_state rate now ↦
      let e : limited_form c ≡ x = cc (found, here) in
      cc (ap (λ (y : Customer). is_watched y.sending_state) e, open_state)
]

listed :
    (key : String) (c : Customer) (db : Database)
    → customer_by_id key db ≡ some c
    → Memᴰ key (customer_ids db)
unfolding customer_by_id
listed key c db found =
    let (there, t) = find?-some _ db.customers found in
    subst (λ k. Memᴰ k (customer_ids db)) ((eq_iff c.id key).0 t)
      (mem-map (λ (y : Customer). y.id) db.customers there)

module _ {R : Type 0} (env : Env) (calm : (t : ℕ) → env.answer t ≡ Answer.works) (key : String)
    (c : Customer) (watched : is_watched c.sending_state ≡ true) where
  limit_customer-limits :
      (w : World R)
      → customer_by_id key w.db ≡ some c
      → customer_by_id key (limit_customer (acts env) key w).1.db ≡ some (limited_form c)
  unfolding ◌>>=◌ caught exec
  limit_customer-limits w found = rw calm (
      ap (customer_by_id key) (note_limited-db env (ok tt) _)
      ∙ customer_by_id-limited key c w.db found)

  sweep_customer-limits :
      (w : World R)
      → customer_by_id key w.db ≡ some c
      → IsHigh env key w.db
      → customer_by_id key (sweep_customer (acts env) key w).1.db ≡ some (limited_form c)
  unfolding sweep_customer ◌>>=◌ caught query
  sweep_customer-limits w found high =
      rw (calm, found, watched, calm, high (suc w.tick))
        (limit_customer-limits (step env (step env w)) found)

  -- Part of a sweep, begun on `db`, has come to the database of `w`: the customer is untouched yet or
  -- limited.
  sweep_customers-limits :
      (keys : List String) (db : Database) (w : World R)
      → customer_by_id key db ≡ some c
      → IsHigh env key db
      → Swept db w.db
      → (Memᴰ key keys) ⊎ (customer_by_id key w.db ≡ some (limited_form c))
      → customer_by_id key (sweep_customers (acts env) keys w).1.db ≡ some (limited_form c)
  sweep_customers-limits keys db w found high s (inr over) =
      stays_limited key c w.db _ watched over (sweep_customers-Swept env keys w)
  sweep_customers-limits [] db w found high s (inl m) = elim m [ ]
  sweep_customers-limits (k ∷ keys) db w found high s (inl m) =
      rw (sweep_customers-next env k keys w) (
        sweep_customers-limits keys db (sweep_customer (acts env) k w).1 found high
          (Swept-trans db w.db _ s (sweep_customer-Swept env k w))
          (elim m [
            | Memᴰ.tail there ↦ inl there
            | Memᴰ.head e ↦ inr (now_or_before e (s.fate key))
          ]))
    where
      now_or_before :
          key ≡ k
          → Fate db key (customer_by_id key w.db)
          → customer_by_id key (sweep_customer (acts env) k w).1.db ≡ some (limited_form c)
      now_or_before e (kept same) =
          subst
            (λ x. customer_by_id key (sweep_customer (acts env) x w).1.db ≡ some (limited_form c)) e
            (sweep_customer-limits w (same ∙ found) (λ i.
              ap (rate_above threshold_pct)
                (bounce_rate-customers key (env.clock i) db w.db s.others)
              ∙ high i))
      now_or_before e (limited x t here open_state rate now) =
          let same : x ≡ c = cc (here, found) in
          stays_limited key c w.db _ watched (now ∙ ap (λ y. some (limited_form y)) same)
            (sweep_customer-Swept env k w)

  -- When no statement fails, a sweep limits every customer that is trusted or new and whose bounce
  -- rate is above the threshold whenever the clock is read.
  pub run_abuse_sweep-limits :
      (w : World R)
      → customer_by_id key w.db ≡ some c
      → ((i : ℕ) → rate_above threshold_pct (bounce_rate key (env.clock i) w.db) ≡ true)
      → customer_by_id key (run_abuse_sweep (acts env) w).1.db ≡ some (limited_form c)
  unfolding run_abuse_sweep ◌>>=◌ caught query
  run_abuse_sweep-limits w found high = rw calm (
      sweep_customers-limits (customer_ids w.db) w.db (step env w) found high (Swept-refl w.db)
        (inl (listed key c w.db found)))
