-- ===== src/Worker/Refinement/Outcome.antt =====
-- The outcome of a run of the pipeline of internal/worker/worker.go, and rules for its steps.
use email_delivery_engine.Prelude.{
  ℕ, suc, String, ◌≡◌, refl, sym, ap, subst, ◌∙◌, Bool, true, false, List, if◌then◌else◌,
}
use email_delivery_engine.Prelude.Int.{ℤ}
use email_delivery_engine.Store.{Message, Database}
use email_delivery_engine.Runtime.{
  Env, Redis, World, Result, ok, err, Action, continue, ◌>>=◌, ◌>>◌, wrapping, count, query, now,
}
use email_delivery_engine.Runtime.Rules.{
  is_ok, KeepsDb, KeepsDb-query, KeepsDb-count, KeepsDb-wrapping, load-ok,
}
use email_delivery_engine.Worker.Plan.{Write, Log, replay, Follows}
use email_delivery_engine.Worker.Refinement.Rules.{Writes}
use email_delivery_engine.Worker.Refinement.Readings.{Reached}
use email_delivery_engine.Worker.Refinement.Decision.{Plan}

-- The outcome of a run that began in `start`: an error before the first write, or the writes of a
-- plan.
pub data Refines {R : Type 0} (redis : Redis R) (env : Env) (max_attempts : ℤ) (msg : Message)
    (start : World R) (out : Result Unit × World R) : Type 0 where
  untouched :
      is_ok out.0 ≡ false → out.1.db ≡ start.db → Refines redis env max_attempts msg start out
  planned :
      (plan : List Write) (log : Log)
      → Plan redis env max_attempts msg start plan
      → Follows plan log (is_ok out.0)
      → out.1.db ≡ replay msg log start.db
      → Refines redis env max_attempts msg start out

module _ {R : Type 0} (redis : Redis R) (env : Env) (max_attempts : ℤ) (msg : Message)
    (start : World R) where
  abbrev Refining : Result Unit × World R → Type 0
  Refining = Refines redis env max_attempts msg start

  pub from_Writes :
      (plan : List Write) (m : Action R Unit) (w : World R)
      → w.db ≡ start.db
      → Plan redis env max_attempts msg start plan
      → Writes msg plan m w
      → Refining (m w)
  from_Writes plan m w same p writes =
      planned plan writes.log p writes.follows (writes.written ∙ ap (replay msg writes.log) same)

  pub after_silent :
      {A : Type 0} (r : Result A) (f : A → Action R Unit) (w : World R)
      → w.db ≡ start.db
      → ((a : A) → r ≡ ok a → Refining (f a w))
      → Refining (continue r f w)
  after_silent (ok a) f w same rest = rest a refl
  after_silent (err e) f w same rest = untouched refl same

  -- An action that leaves the database as it is, and then the rest.
  pub Refines-silent :
      {A : Type 0} (m : Action R A) (f : A → Action R Unit) (w : World R)
      → KeepsDb m
      → w.db ≡ start.db
      → ((a : A) → (m w).0 ≡ ok a → Refining (f a (m w).1))
      → Refining ((m >>= f) w)
  unfolding ◌>>=◌
  Refines-silent m f w keeps same rest = after_silent (m w).0 f (m w).1 (keeps.at w ∙ same) rest

  -- A SELECT at the point `n`, and then the rest, which is given what stood in the tables then.
  pub Refines-load :
      {A : Type 0} (what : String) (g : ℕ → Database → A) (f : A → Action R Unit) (n : ℕ)
      (w : World R)
      → Reached start n w
      → ((v : World R) → Reached start (suc n) v → Refining (f (g (env.clock n) start.db) v))
      → Refining ((wrapping what (query env g) >>= f) w)
  unfolding wrapping query
  Refines-load what g f n w here rest =
      Refines-silent (wrapping what (query env g)) f w keeps here.same_db λ a e.
        subst (λ x. Refining (f x (wrapping what (query env g) w).1))
          (sym (
            load-ok env what g w e
            ∙ ap (g (env.clock w.tick)) here.same_db
            ∙ ap (λ k. g (env.clock k) start.db) here.at_tick))
          (rest (wrapping what (query env g) w).1 (record {
            same_db = here.same_db;
            same_redis = here.same_redis;
            at_tick = ap suc here.at_tick;
          }))
    where
      keeps : KeepsDb {R = R} (wrapping what (query env g))
      keeps = KeepsDb-wrapping what (query env g) (KeepsDb-query env g)

  -- A reading of the clock at the point `n`, and then the rest.
  pub Refines-now :
      (f : ℕ → Action R Unit) (n : ℕ) (w : World R)
      → Reached start n w
      → ((v : World R) → Reached start (suc n) v → Refining (f (env.clock n) v))
      → Refining ((now env >>= f) w)
  unfolding ◌>>=◌ now
  Refines-now f n w here rest =
      subst (λ k. Refining (f (env.clock k) (now env w).1)) (sym here.at_tick)
        (rest (now env w).1 (record {
          same_db = here.same_db;
          same_redis = here.same_redis;
          at_tick = ap suc here.at_tick;
        }))

  pub Refines-if :
      (b : Bool) (m n : Action R Unit) (w : World R)
      → (b ≡ true → Refining (m w))
      → (b ≡ false → Refining (n w))
      → Refining ((if b then m else n) w)
  Refines-if true m n w hm hn = hm refl
  Refines-if false m n w hm hn = hn refl

  -- A counted ending of the message.
  pub Refines-count :
      (name : String) (plan : List Write) (m : Action R Unit) (w : World R)
      → w.db ≡ start.db
      → Plan redis env max_attempts msg start plan
      → ((v : World R) → Writes msg plan m v)
      → Refining ((count name >> m) w)
  Refines-count name plan m w same p writes =
      Refines-silent (count name) (λ _. m) w keeps same
        λ _ e. from_Writes plan m (count name w).1 (keeps.at w ∙ same) p (writes (count name w).1)
    where
      keeps : KeepsDb {R = R} (count name)
      keeps = KeepsDb-count name
