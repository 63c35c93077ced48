-- ===== src/Runtime.antt =====
-- The state that a worker process acts on, and its actions. An action is a Go method that returns an
-- error: it may end with an error at any statement, and what it has written stays written.
--
-- One counter, `tick`, numbers the points where the outside is asked: each statement, reading of the
-- clock and draw of the random source. `Env` gives the answers, so a theorem for every `Env` holds
-- for every sequence of failures, every clock and every sequence of draws. Redis enters as two
-- functions on a state `R` of its own (throttle.Limiter's commands).
pub mod Interface
pub mod Thread
pub mod Rules
pub mod Success
pub mod Preserve
pub mod Closed
pub mod Growth
use email_delivery_engine.Prelude.{
  ℕ, suc, String, Bool, true, false, Option, none, some, List, ◌≡◌, if◌then◌else◌,
}
use email_delivery_engine.Store.{Database}
use email_delivery_engine.Metrics
use email_delivery_engine.Metrics.{Registry}

-- What becomes of a statement: it works; it is refused; it takes effect but its reply is lost; or it
-- meets a row that another transaction has locked, which only a SKIP LOCKED read does not wait for.
pub data Answer : Type 0 where
  works refused lost locked : Answer

-- The method returns an error.
abbrev pub fails : Answer → Bool
fails refused = true
fails lost = true
fails _ = false

-- A write takes effect.
abbrev pub takes_effect : Answer → Bool
takes_effect refused = false
takes_effect _ = true

abbrev pub skips : Answer → Bool
skips locked = true
skips _ = false

pub record Env : Type 0 where
  pub answer : ℕ → Answer
  pub clock : ℕ → ℕ
  pub draw : ℕ → ℕ

-- The Redis commands INCR and EXPIRE, on keys; `none` and `false` are errors. Redis is no part of the
-- repository, so nothing is assumed here of what they do.
pub record Redis (R : Type 0) : Type 0 where
  pub incr : String → R → Option ℕ × R
  pub expire : String → ℕ → R → Bool × R

pub record World (R : Type 0) : Type 0 where
  pub db : Database
  pub metrics : Registry
  pub redis : R
  pub tick : ℕ

pub data Error : Type 0 where
  sql_error redis_error : Error
  no_enabled_route no_pool_route : String → Error
  wrap : String → Error → Error

pub data Result (A : Type 0) : Type 0 where
  ok : A → Result A
  err : Error → Result A

abbrev pub Action : Type 0 → Type 0 → Type 0
Action R A = World R → Result A × World R

abbrev pub wrap_result : {A : Type 0} → String → Result A → Result A
wrap_result what (ok a) = ok a
wrap_result what (err e) = err (wrap what e)

module _ {R : Type 0} where
  abbrev pub pure : {A : Type 0} → A → Action R A
  pure a w = (ok a, w)

  abbrev pub raise : {A : Type 0} → Error → Action R A
  raise e w = (err e, w)

  abbrev pub continue : {A B : Type 0} → Result A → (A → Action R B) → Action R B
  continue (ok a) f w = f a w
  continue (err e) f w = (err e, w)

  infixl 5 ◌>>=◌ ◌>>◌
  unfoldable pub ◌>>=◌ : {A B : Type 0} → Action R A → (A → Action R B) → Action R B
  ◌>>=◌ m f w = let (r, w') = m w in continue r f w'

  abbrev pub ◌>>◌ : {A B : Type 0} → Action R A → Action R B → Action R B
  m >> k = m >>= λ _. k

  -- `fmt.Errorf("what: %w", err)` on the error of an action.
  unfoldable pub wrapping : {A : Type 0} → String → Action R A → Action R A
  wrapping what m w = let (r, w') = m w in (wrap_result what r, w')

  -- The error of an action as a value, for a caller that does not return it.
  unfoldable pub caught : {A : Type 0} → Action R A → Action R (Result A)
  caught m w = let (r, w') = m w in (ok r, w')

  -- metrics.Inc
  unfoldable pub count : String → Action R Unit
  count name w = (ok tt, record w { metrics = Metrics.inc name w.metrics })

  -- metrics.SetGauge
  abbrev pub gauge : String → ℕ → Action R Unit
  gauge name n w = (ok tt, record w { metrics = Metrics.set_gauge name n w.metrics })

module _ {R : Type 0} (env : Env) where
  abbrev pub step : World R → World R
  step w = record w { tick = suc w.tick }

  -- A SELECT: a function of the tables and of the database's clock.
  unfoldable pub query : {A : Type 0} → (ℕ → Database → A) → Action R A
  query f w =
      (if fails (env.answer w.tick) then err sql_error else ok (f (env.clock w.tick) w.db), step w)

  -- An INSERT or an UPDATE.
  unfoldable pub exec : (ℕ → Database → Database) → Action R Unit
  exec f w = (
    if fails (env.answer w.tick) then err sql_error else ok tt,
    if takes_effect (env.answer w.tick)
        then record (step w) { db = f (env.clock w.tick) w.db }
        else step w,
  )

  -- time.Now()
  unfoldable pub now : Action R ℕ
  now w = (ok (env.clock w.tick), step w)

  -- A raw draw of the random source.
  unfoldable pub random : Action R ℕ
  random w = (ok (env.draw w.tick), step w)
