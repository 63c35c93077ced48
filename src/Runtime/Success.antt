-- ===== src/Runtime/Success.antt =====
-- Rules for actions that return no error: where no statement fails and Redis replies, only `raise`
-- does.
use email_delivery_engine.Prelude.{ℕ, String, ◌≡◌, refl, Bool, true, false, some, if◌then◌else◌}
use email_delivery_engine.Store.{Database}
use email_delivery_engine.Runtime.{
  Env, Redis, World, Result, ok, err, Action, pure, continue, ◌>>=◌, wrapping, wrap_result, caught,
  count, query, exec, now, random, fails,
}
use email_delivery_engine.Runtime.Rules.{is_ok}

-- No statement fails.
abbrev pub Calm : Env → Type 0
Calm env = (t : ℕ) → fails (env.answer t) ≡ false

-- Redis replies to every INCR and EXPIRE.
pub record Responsive {R : Type 0} (redis : Redis R) : Type 0 where
  pub incr_replies : (key : String) (s : R) → (n : ℕ) × ((redis.incr key s).0 ≡ some n)
  pub expire_replies : (key : String) (n : ℕ) (s : R) → (redis.expire key n s).0 ≡ true

pub record Succeeds {R A : Type 0} (m : Action R A) : Type 0 where
  pub at : (w : World R) → is_ok (m w).0 ≡ true

wrap_result-ok_if :
    {A : Type 0} (what : String) (r : Result A) → is_ok r ≡ true → is_ok (wrap_result what r) ≡ true
wrap_result-ok_if what (ok a) h = refl
wrap_result-ok_if what (err e) h = cc

module _ {R : Type 0} where
  continue-ok_if :
      {A B : Type 0} (r : Result A) (f : A → Action R B) (w : World R)
      → is_ok r ≡ true
      → ((a : A) → Succeeds (f a))
      → is_ok (continue r f w).0 ≡ true
  continue-ok_if (ok a) f w h k = (k a).at w
  continue-ok_if (err e) f w h k = cc

  pub Succeeds-pure : {A : Type 0} (a : A) → Succeeds {R = R} (pure a)
  Succeeds-pure a = record { at = λ w. refl }

  pub Succeeds-bind :
      {A B : Type 0} (m : Action R A) (f : A → Action R B)
      → Succeeds m
      → ((a : A) → Succeeds (f a))
      → Succeeds (m >>= f)
  unfolding ◌>>=◌
  Succeeds-bind m f km kf = record { at = λ w. continue-ok_if (m w).0 f (m w).1 (km.at w) kf }

  pub Succeeds-wrapping :
      {A : Type 0} (what : String) (m : Action R A) → Succeeds m → Succeeds (wrapping what m)
  unfolding wrapping
  Succeeds-wrapping what m k = record { at = λ w. wrap_result-ok_if what (m w).0 (k.at w) }

  pub Succeeds-caught : {A : Type 0} (m : Action R A) → Succeeds (caught m)
  unfolding caught
  Succeeds-caught m = record { at = λ w. refl }

  pub Succeeds-count : (name : String) → Succeeds {R = R} (count name)
  unfolding count
  Succeeds-count name = record { at = λ w. refl }

  pub Succeeds-if :
      {A : Type 0} (b : Bool) (m n : Action R A)
      → Succeeds m
      → Succeeds n
      → Succeeds (if b then m else n)
  Succeeds-if true m n km kn = km
  Succeeds-if false m n km kn = kn

module _ {R : Type 0} (env : Env) (calm : Calm env) where
  pub Succeeds-query : {A : Type 0} (f : ℕ → Database → A) → Succeeds {R = R} (query env f)
  unfolding query
  Succeeds-query f = record { at = λ w. rw calm refl }

  pub Succeeds-exec : (f : ℕ → Database → Database) → Succeeds {R = R} (exec env f)
  unfolding exec
  Succeeds-exec f = record { at = λ w. rw calm refl }

module _ {R : Type 0} (env : Env) where
  pub Succeeds-now : Succeeds {R = R} (now env)
  unfolding now
  Succeeds-now = record { at = λ w. refl }

  pub Succeeds-random : Succeeds {R = R} (random env)
  unfolding random
  Succeeds-random = record { at = λ w. refl }
