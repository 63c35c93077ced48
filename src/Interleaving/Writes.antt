-- ===== src/Interleaving/Writes.antt =====
-- Which writes of a call of `Process` among others keep what: from that, what the whole call keeps.
use email_delivery_engine.Prelude.{
  ℕ, String, ◌≡◌, refl, sym, subst, Bool, true, false, if◌then◌else◌,
}
use email_delivery_engine.Prelude.Int.{ℤ}
use email_delivery_engine.Store.{Status, Message, Database}
use email_delivery_engine.Store.Statement.{
  Progress, Note, Trial, set_progress, insert_event, insert_attempt, insert_suppression,
}
use email_delivery_engine.Runtime.{
  Env, Redis, World, Result, ok, err, Answer, works, refused, lost, locked, fails, takes_effect,
  count, query, exec, now, random, step, sql_error, wrap_result,
}
use email_delivery_engine.Runtime.Thread.{Thread, atomic, thread_ops, thread_commands}
use email_delivery_engine.Throttle.{incr, expire}
use email_delivery_engine.Worker.Guarantees.Settles.{Settled}
use email_delivery_engine.Interleaving.Safe.{
  Safe, Safe-bind, Safe-weaken, Safe-wrapping, Safe-caught,
}
use email_delivery_engine.Interleaving.Course.{
  Stage, before, tried, listed, decided, is_bounced, Course,
}

-- What a write may change, from what is known of the tables before it to what is known after it.
abbrev pub Writes :
    (Database → Database → Type 0)
    → (Database → Type 0)
    → (Database → Type 0)
    → (ℕ → Database → Database)
    → Type 0
Writes Guar Pre Post f = (t : ℕ) (db : Database) → Pre db → Guar db (f t db) × Post (f t db)

-- `Rely` and `Guar` as in `Safe`, on the tables; `Holds` is what is known of them at a stage, and
-- `Failed` what is left of it when the call has failed.
pub record Keeps (max_attempts : ℤ) (msg : Message) (Rely Guar : Database → Database → Type 0)
    (Holds : Stage → Database → Type 0) (Failed : Database → Type 0) : Type 0 where
  pub nothing : (db : Database) → Guar db db
  pub stable : (s : Stage) (v w : Database) → Rely v w → Holds s v → Holds s w
  pub failed : (s : Stage) (db : Database) → Holds s db → Failed db
  pub keeps_note : (s : Stage) (n : Note) → Writes Guar (Holds s) (Holds s) (insert_event msg.id n)
  pub keeps_mark :
      (p : Progress)
      → p.status ≡ Status.sending
      → Writes Guar (Holds before) (Holds before) (set_progress msg.id p)
  pub keeps_attempt :
      (a : Trial) → Writes Guar (Holds before) (Holds tried) (insert_attempt msg.id a)
  pub keeps_listed :
      Writes Guar
        (Holds tried)
        (Holds listed)
        (λ _. insert_suppression msg.customer_id msg.to_email "hard_bounce")
  pub keeps_decided :
      (s : Stage) (p : Progress)
      → Settled max_attempts msg.attempt_count p
      → is_bounced p.status ≡ false
      → Writes Guar (Holds s) (Holds decided) (set_progress msg.id p)
  pub keeps_bounced :
      (p : Progress)
      → Settled max_attempts msg.attempt_count p
      → Writes Guar (Holds listed) (Holds decided) (set_progress msg.id p)

-- What holds at the end, by whether the call has failed.
abbrev pub Ends :
    {R A : Type 0} → (Database → Type 0) → (Database → Type 0) → Result A → World R → Type 0
Ends Good Bad (ok a) w = Good w.db
Ends Good Bad (err e) w = Bad w.db

module _ {R : Type 0} (redis : Redis R) (env : Env) (max : ℤ) (msg : Message)
    (Rely Guar : Database → Database → Type 0) (Holds : Stage → Database → Type 0)
    (Failed : Database → Type 0) (k : Keeps max msg Rely Guar Holds Failed) where
  abbrev Others : World R → World R → Type 0
  Others v w = Rely v.db w.db

  abbrev Own : World R → World R → Type 0
  Own v w = Guar v.db w.db

  abbrev Kept : {A : Type 0} → (Result A → World R → Type 0) → Thread R A → World R → Type 0
  Kept = Safe Others Own

  abbrev Passes : (A : Type 0) → Thread R A → Type 0
  Passes A t = (s : Stage) (w : World R) → Holds s w.db → Kept (λ r v. Holds s v.db) t w

  abbrev Goes : Stage → Stage → (A : Type 0) → Thread R A → Type 0
  Goes s s' A t = (w : World R) → Holds s w.db → Kept (Ends (Holds s') Failed) t w

  same_tables :
      {A : Type 0} (m : World R → Result A × World R)
      → ((w : World R) → (m w).1.db ≡ w.db)
      → Passes A (atomic m)
  unfolding Safe
  same_tables m same s w h = λ v r.
      let there = k.stable s w.db v.db r h in
      (
        subst (λ db. Guar v.db db) (sym (same v)) (k.nothing v.db),
        subst (Holds s) (sym (same v)) there,
      )

  -- An answer of the database to a write.
  answered :
      (Pre Post Bad : Database → Type 0) (f : ℕ → Database → Database) (a : Answer) (t : ℕ)
      (v : World R)
      → Writes Guar Pre Post f
      → ((db : Database) → Pre db → Bad db)
      → ((db : Database) → Post db → Bad db)
      → Pre v.db
      → Guar v.db (if takes_effect a then record (step env v) { db = f t v.db } else step env v).db
        × Ends {A = Unit} Post Bad
            (if fails a then err sql_error else ok tt)
            (if takes_effect a then record (step env v) { db = f t v.db } else step env v)
  answered Pre Post Bad f works t v writes early late h = writes t v.db h
  answered Pre Post Bad f refused t v writes early late h = (k.nothing v.db, early v.db h)
  answered Pre Post Bad f lost t v writes early late h =
      let (does, there) = writes t v.db h in (does, late _ there)
  answered Pre Post Bad f locked t v writes early late h = writes t v.db h

  written :
      (s : Stage) (Post Bad : Database → Type 0) (f : ℕ → Database → Database)
      → Writes Guar (Holds s) Post f
      → ((db : Database) → Holds s db → Bad db)
      → ((db : Database) → Post db → Bad db)
      → (w : World R) → Holds s w.db
      → Kept (Ends Post Bad) (atomic (exec env f)) w
  unfolding Safe exec
  written s Post Bad f writes early late w h = λ v r.
      answered (Holds s) Post Bad f (env.answer v.tick) (env.clock v.tick) v writes early late
        (k.stable s w.db v.db r h)

  goes_write :
      (s s' : Stage) (f : ℕ → Database → Database)
      → Writes Guar (Holds s) (Holds s') f
      → Goes s s' Unit (atomic (exec env f))
  goes_write s s' f writes = written s (Holds s') Failed f writes (k.failed s) (k.failed s')

  Ends-same :
      {A : Type 0} (P : Database → Type 0) (r : Result A) (w : World R) → Ends P P r w → P w.db
  Ends-same P (ok a) w h = h
  Ends-same P (err e) w h = h

  Ends-wrap :
      {A : Type 0} (what : String) (P Q : Database → Type 0) (r : Result A) (w : World R)
      → Ends P Q r w
      → Ends P Q (wrap_result what r) w
  Ends-wrap what P Q (ok a) w h = h
  Ends-wrap what P Q (err e) w h = h

  Ends-pass :
      {A : Type 0} (s : Stage) (r : Result A) (w : World R)
      → Holds s w.db
      → Ends (Holds s) Failed r w
  Ends-pass s (ok a) w h = h
  Ends-pass s (err e) w h = k.failed s w.db h

  Passes-if :
      {A : Type 0} (b : Bool) (m n : Thread R A)
      → Passes A m
      → Passes A n
      → Passes A (if b then m else n)
  Passes-if true m n g h = g
  Passes-if false m n g h = h

  Goes-if :
      {A : Type 0} (s t : Stage) (b : Bool) (m n : Thread R A)
      → Goes s t A m
      → Goes s t A n
      → Goes s t A (if b then m else n)
  Goes-if s t true m n g h = g
  Goes-if s t false m n g h = h

  -- What holds from write to write holds through a call.
  pub Keeps-Course : Course (thread_commands redis) (thread_ops env) max msg Passes Goes
  unfolding Safe count query now random incr expire
  Keeps-Course = record {
    passes_return = λ a s w h. h;
    passes_fail = λ e s w h. h;
    passes_bind = λ m f g h s w p.
        Safe-bind Others Own (λ _ v. Holds s v.db) _ m f w (g s w p) (λ a v q. h a s v q)
          (λ v e q. q);
    passes_if = Passes-if;
    passes_wrapping =
        λ what m g s w p. Safe-wrapping Others Own what _ _ m w (λ r v q. q) (g s w p);
    passes_caught = λ m g s w p. Safe-caught Others Own _ _ m w (λ r v q. q) (g s w p);
    passes_count = λ name. same_tables (count name) (λ w. refl);
    passes_query = λ f. same_tables (query env f) (λ w. refl);
    passes_now = same_tables (now env) (λ w. refl);
    passes_random = same_tables (random env) (λ w. refl);
    passes_incr = λ key. same_tables (incr redis key) (λ w. refl);
    passes_expire = λ key n. same_tables (expire redis key n) (λ w. refl);
    passes_note = λ n s w h.
        Safe-weaken Others Own _ _ (atomic (exec env (insert_event msg.id n))) w
          (Ends-same (Holds s))
          (written s (Holds s) (Holds s) (insert_event msg.id n) (k.keeps_note s n) (λ db q. q)
            (λ db q. q) w h);
    goes_on = λ s m g w h. Safe-weaken Others Own _ _ m w (Ends-pass s) (g s w h);
    goes_past = λ s t m f g h w p.
        Safe-bind Others Own (λ _ v. Holds s v.db) _ m f w (g s w p) (λ a v q. h a v q)
          (λ v e q. k.failed s v.db q);
    goes_bind = λ s t u m f g h w p.
        Safe-bind Others Own (Ends (Holds t) Failed) _ m f w (g w p) (λ a v q. h a v q)
          (λ v e q. q);
    goes_if = Goes-if;
    goes_wrapping = λ s t what m g w p.
        Safe-wrapping Others Own what _ _ m w (Ends-wrap what (Holds t) Failed) (g w p);
    goes_mark = λ p e. goes_write before before _ (k.keeps_mark p e);
    goes_attempt = λ a. goes_write before tried _ (k.keeps_attempt a);
    goes_listed = goes_write tried listed _ k.keeps_listed;
    goes_decided = λ s p settled other. goes_write s decided _ (k.keeps_decided s p settled other);
    goes_bounced = λ p settled. goes_write listed decided _ (k.keeps_bounced p settled);
  }
