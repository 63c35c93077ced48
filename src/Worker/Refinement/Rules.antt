-- ===== src/Worker/Refinement/Rules.antt =====
-- Rules by which an action of internal/worker/worker.go follows a plan of writes.
use email_delivery_engine.Prelude.{
  ℕ, String, ◌≡◌, refl, sym, ap, subst, ◌∙◌, ◌⊎◌, false, inl, inr, List, [], ◌∷◌,
}
use email_delivery_engine.Store.{Message}
use email_delivery_engine.Runtime.{
  Env, World, Result, ok, err, Action, pure, continue, ◌>>=◌, ◌>>◌, wrapping, wrap_result, exec,
  Answer, works, refused, lost, locked,
}
use email_delivery_engine.Runtime.Rules.{is_ok, KeepsDb}
use email_delivery_engine.Worker.Plan.{Write, perform, Log, replay, Follows}

-- From `w`, the action writes the plan for `msg` up to where it fails, and all of it if it returns
-- no error.
pub record Writes {R A : Type 0} (msg : Message) (plan : List Write) (m : Action R A) (w : World R)
    : Type 0 where
  pub log : Log
  pub follows : Follows plan log (is_ok (m w).0)
  pub written : (m w).1.db ≡ replay msg log w.db

-- From `w`, the action makes one write, or none if it returns an error.
abbrev pub One : {R : Type 0} → Message → Write → Action R Unit → World R → Type 0
One msg x m w =
    ((is_ok (m w).0 ≡ false) × ((m w).1.db ≡ w.db))
    ⊎ ((t : ℕ) × ((m w).1.db ≡ perform msg x t w.db))

pub is_ok-wrap_result :
    {A : Type 0} (what : String) (r : Result A) → is_ok (wrap_result what r) ≡ is_ok r
is_ok-wrap_result what (ok a) = refl
is_ok-wrap_result what (err e) = refl

module _ {R : Type 0} (msg : Message) where
  pub One-exec : (env : Env) (x : Write) (w : World R) → One msg x (exec env (perform msg x)) w
  unfolding exec
  One-exec env x w = at_answer (env.answer w.tick) refl
    where
      at_answer : (a : Answer) → env.answer w.tick ≡ a → One msg x (exec env (perform msg x)) w
      at_answer works e = inr (env.clock w.tick, rw e)
      at_answer refused e = inl (rw e, rw e)
      at_answer lost e = inr (env.clock w.tick, rw e)
      at_answer locked e = inr (env.clock w.tick, rw e)

  pub One-wrapping :
      (what : String) (x : Write) (m : Action R Unit) (w : World R)
      → One msg x m w
      → One msg x (wrapping what m) w
  unfolding wrapping
  One-wrapping what x m w (inl (failed, same)) = inl (is_ok-wrap_result what (m w).0 ∙ failed, same)
  One-wrapping what x m w (inr done) = inr done

  pub Writes-pure : (w : World R) → Writes msg [] (pure tt) w
  Writes-pure w = record { log = []; follows = λ e. refl; written = refl }

  after_one :
      (r : Result Unit) (x : Write) (plan : List Write) (k : Action R Unit) (before w : World R)
      → ((is_ok r ≡ false) × (w.db ≡ before.db)) ⊎ ((t : ℕ) × (w.db ≡ perform msg x t before.db))
      → Writes msg plan k w
      → (log : Log) × Follows (x ∷ plan) log (is_ok (continue r (λ _. k) w).0)
        × ((continue r (λ _. k) w).1.db ≡ replay msg log before.db)
  after_one (ok tt) x plan k before w (inl (failed, same)) rest = cc
  after_one (ok tt) x plan k before w (inr (t, done)) rest =
      ((t, x) ∷ rest.log, (refl, rest.follows), rest.written ∙ ap (replay msg rest.log) done)
  after_one (err e) x plan k before w (inl (failed, same)) rest = ([], λ e. cc, same)
  after_one (err e) x plan k before w (inr (t, done)) rest = ((t, x) ∷ [], (refl, λ e. cc), done)

  -- A write, and then the rest of the plan.
  pub Writes-single :
      (x : Write) (plan : List Write) (m k : Action R Unit) (w : World R)
      → One msg x m w
      → Writes msg plan k (m w).1
      → Writes msg (x ∷ plan) (m >> k) w
  unfolding ◌>>=◌
  Writes-single x plan m k w one rest =
      let (log, follows, written) = after_one (m w).0 x plan k w (m w).1 one rest in
      record { log = log; follows = follows; written = written }

  -- A plan of one write that is not followed by anything.
  pub Writes-last :
      (x : Write) (m : Action R Unit) (w : World R) → One msg x m w → Writes msg (x ∷ []) m w
  Writes-last x m w (inl (failed, same)) = record { log = []; follows = λ e. cc; written = same }
  Writes-last x m w (inr (t, done)) = record {
    log = (t, x) ∷ [];
    follows = (refl, λ e. refl);
    written = done;
  }

  after_silent :
      {A : Type 0} (r : Result A) (plan : List Write) (f : A → Action R Unit) (before w : World R)
      → w.db ≡ before.db
      → ((a : A) → r ≡ ok a → Writes msg plan (f a) w)
      → (log : Log) × Follows plan log (is_ok (continue r f w).0)
        × ((continue r f w).1.db ≡ replay msg log before.db)
  after_silent (ok a) plan f before w same rest =
      let k = rest a refl in (k.log, k.follows, k.written ∙ ap (replay msg k.log) same)
  after_silent (err e) plan f before w same rest = ([], λ e. cc, same)

  -- An action that leaves the database as it is, and then the plan.
  pub Writes-silent :
      {A : Type 0} (plan : List Write) (m : Action R A) (f : A → Action R Unit) (w : World R)
      → KeepsDb m
      → ((a : A) → (m w).0 ≡ ok a → Writes msg plan (f a) (m w).1)
      → Writes msg plan (m >>= f) w
  unfolding ◌>>=◌
  Writes-silent plan m f w keeps rest =
      let (log, follows, written) = after_silent (m w).0 plan f w (m w).1 (keeps.at w) rest in
      record { log = log; follows = follows; written = written }

  -- An action that leaves the database as it is and has one value if it returns no error.
  pub Writes-valued :
      {A : Type 0} (plan : List Write) (m : Action R A) (f : A → Action R Unit) (a : A)
      (w : World R)
      → KeepsDb m
      → ((b : A) → (m w).0 ≡ ok b → b ≡ a)
      → Writes msg plan (f a) (m w).1
      → Writes msg plan (m >>= f) w
  Writes-valued plan m f a w keeps valued rest =
      Writes-silent plan m f w keeps
        λ b e. subst (λ c. Writes msg plan (f c) (m w).1) (sym (valued b e)) rest
