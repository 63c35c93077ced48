-- ===== src/Runtime/Rules.antt =====
-- Rules for actions that leave the database as it is: reads, clocks, draws, counters, Redis.
use email_delivery_engine.Prelude.{
  ℕ, String, ◌≡◌, refl, ◌∙◌, ◌⊎◌, Bool, true, false, inl, inr, if◌then◌else◌,
}
use email_delivery_engine.Store.{Database}
use email_delivery_engine.Runtime.{
  Env, World, Result, ok, err, Error, Action, pure, raise, continue, ◌>>=◌, wrapping, wrap_result,
  caught, count, query, now, random, fails, sql_error,
}

abbrev pub is_ok : {A : Type 0} → Result A → Bool
is_ok (ok a) = true
is_ok (err e) = false

pub Result-cases :
    {A : Type 0} (r : Result A) → ((a : A) × (r ≡ ok a)) ⊎ ((e : Error) × (r ≡ err e))
Result-cases (ok a) = inl (a, refl)
Result-cases (err e) = inr (e, refl)

pub record KeepsDb {R A : Type 0} (m : Action R A) : Type 0 where
  pub at : (w : World R) → (m w).1.db ≡ w.db

module _ {R : Type 0} where
  continue-db :
      {A B : Type 0} (r : Result A) (f : A → Action R B) (w : World R)
      → ((a : A) → KeepsDb (f a))
      → (continue r f w).1.db ≡ w.db
  continue-db (ok a) f w h = (h a).at w
  continue-db (err e) f w h = refl

  pub KeepsDb-pure : {A : Type 0} (a : A) → KeepsDb {R = R} (pure a)
  KeepsDb-pure a = record { at = λ w. refl }

  pub KeepsDb-raise : {A : Type 0} (e : Error) → KeepsDb {R = R} {A = A} (raise e)
  KeepsDb-raise e = record { at = λ w. refl }

  pub KeepsDb-bind :
      {A B : Type 0} (m : Action R A) (f : A → Action R B)
      → KeepsDb m
      → ((a : A) → KeepsDb (f a))
      → KeepsDb (m >>= f)
  unfolding ◌>>=◌
  KeepsDb-bind m f km kf = record { at = λ w. continue-db (m w).0 f (m w).1 kf ∙ km.at w }

  pub KeepsDb-wrapping :
      {A : Type 0} (what : String) (m : Action R A) → KeepsDb m → KeepsDb (wrapping what m)
  unfolding wrapping
  KeepsDb-wrapping what m k = record { at = λ w. k.at w }

  pub KeepsDb-caught : {A : Type 0} (m : Action R A) → KeepsDb m → KeepsDb (caught m)
  unfolding caught
  KeepsDb-caught m k = record { at = λ w. k.at w }

  pub KeepsDb-count : (name : String) → KeepsDb {R = R} (count name)
  unfolding count
  KeepsDb-count name = record { at = λ w. refl }

  pub KeepsDb-if :
      {A : Type 0} (b : Bool) (m n : Action R A)
      → KeepsDb m
      → KeepsDb n
      → KeepsDb (if b then m else n)
  KeepsDb-if true m n km kn = km
  KeepsDb-if false m n km kn = kn

module _ {R : Type 0} (env : Env) where
  pub KeepsDb-query : {A : Type 0} (f : ℕ → Database → A) → KeepsDb {R = R} (query env f)
  unfolding query
  KeepsDb-query f = record { at = λ w. refl }

  pub KeepsDb-now : KeepsDb {R = R} (now env)
  unfolding now
  KeepsDb-now = record { at = λ w. refl }

  pub KeepsDb-random : KeepsDb {R = R} (random env)
  unfolding random
  KeepsDb-random = record { at = λ w. refl }

module _ {R : Type 0} where
  continue-ok :
      {A B : Type 0} (r : Result A) (f : A → Action R B) (w : World R) {b : B}
      → (continue r f w).0 ≡ ok b
      → (a : A) × (r ≡ ok a) × ((f a w).0 ≡ ok b)
  continue-ok (ok a) f w h = (a, refl, h)
  continue-ok (err e) f w h = cc

  -- A bind that returns has a first part that returns.
  pub >>=-ok :
      {A B : Type 0} (m : Action R A) (f : A → Action R B) (w : World R) {b : B}
      → ((m >>= f) w).0 ≡ ok b
      → (a : A) × ((m w).0 ≡ ok a) × ((f a (m w).1).0 ≡ ok b)
  unfolding ◌>>=◌
  >>=-ok m f w h = continue-ok (m w).0 f (m w).1 h

  -- What a SELECT that returns has read.
  pub load-ok :
      (env : Env) {A : Type 0} (what : String) (f : ℕ → Database → A) (w : World R) {a : A}
      → (wrapping what (query env f) w).0 ≡ ok a
      → a ≡ f (env.clock w.tick) w.db
  unfolding wrapping query
  load-ok env what f w {a} h = from (fails (env.answer w.tick)) h
    where
      from :
          (b : Bool)
          → wrap_result what (if b then err sql_error else ok (f (env.clock w.tick) w.db)) ≡ ok a
          → a ≡ f (env.clock w.tick) w.db
      from true e = cc
      from false e = cc

  pub load-db :
      (env : Env) {A : Type 0} (what : String) (f : ℕ → Database → A) (w : World R)
      → (wrapping what (query env f) w).1.db ≡ w.db
  unfolding wrapping query
  load-db env what f w = refl

pub ruleset keeps_rules = (
  KeepsDb-pure, KeepsDb-raise, KeepsDb-bind, KeepsDb-wrapping, KeepsDb-caught, KeepsDb-count,
  KeepsDb-if, KeepsDb-query, KeepsDb-now, KeepsDb-random,
)
