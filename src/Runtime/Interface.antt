-- ===== src/Runtime/Interface.antt =====
-- What the operations of the program ask of the outside, and how they are composed: an interface that
-- a call on its own (`acts`) and a call whose statements other workers come between both fill.
use email_delivery_engine.Prelude.{ℕ, String, Option, none, if◌then◌else◌}
use email_delivery_engine.Store.{Database}
use email_delivery_engine.Runtime.{
  Env, Result, Error, Action, pure, raise, ◌>>=◌, wrapping, caught, count, gauge, query, exec, now,
  random, skips,
}

-- The store, the clock, the random source and the counters. `fetch_unlocked` is a SELECT … FOR UPDATE
-- SKIP LOCKED: it finds no row that another transaction has locked.
pub record Ops (M : Type 0 → Type 0) : Type 1 where
  pub return : {A : Type 0} → A → M A
  pub fail : {A : Type 0} → Error → M A
  pub bind : {A B : Type 0} → M A → (A → M B) → M B
  pub wrapping : {A : Type 0} → String → M A → M A
  pub caught : {A : Type 0} → M A → M (Result A)
  pub count : String → M Unit
  pub gauge : String → ℕ → M Unit
  pub query : {A : Type 0} → (ℕ → Database → A) → M A
  pub fetch_unlocked : {A : Type 0} → (Database → Option A) → M (Option A)
  pub exec : (ℕ → Database → Database) → M Unit
  pub now : M ℕ
  pub random : M ℕ

-- The commands of the limiter on Redis.
pub record Limiter (M : Type 0 → Type 0) : Type 1 where
  pub incr : String → M ℕ
  pub expire : String → ℕ → M Unit

module _ {R : Type 0} (env : Env) where
  abbrev pub unlocked : {A : Type 0} → (Database → Option A) → Action R (Option A)
  unlocked find w =
      query env (λ _ (db : Database). if skips (env.answer w.tick) then none else find db) w

  -- A call on its own.
  abbrev pub acts : Ops (Action R)
  acts = record {
    return = pure;
    fail = raise;
    bind = ◌>>=◌;
    wrapping = wrapping;
    caught = caught;
    count = count;
    gauge = gauge;
    query = query env;
    fetch_unlocked = unlocked;
    exec = exec env;
    now = now env;
    random = random env;
  }
