-- ===== src/Runtime/Preserve.antt =====
-- Rules for actions that keep an invariant of the database.
use email_delivery_engine.Prelude.{
  ℕ, sym, subst, inl, inr, Bool, true, false, if◌then◌else◌, Bool-cases,
}
use email_delivery_engine.Store.{Database}
use email_delivery_engine.Runtime.{
  Env, World, Result, ok, err, Action, continue, ◌>>=◌, caught, exec, takes_effect,
}
use email_delivery_engine.Runtime.Rules.{KeepsDb}

-- An action that keeps an invariant of the database, whether it returns an error or not.
pub record Preserves {R A : Type 0} (I : Database → Type 0) (m : Action R A) : Type 0 where
  pub at : (w : World R) → I w.db → I (m w).1.db

module _ {R : Type 0} (I : Database → Type 0) where
  pub from_KeepsDb : {A : Type 0} (m : Action R A) → KeepsDb m → Preserves I m
  from_KeepsDb m k = record { at = λ w h. subst I (sym (k.at w)) h }

  continue-Preserves :
      {A B : Type 0} (r : Result A) (f : A → Action R B) (w : World R)
      → ((a : A) → Preserves I (f a))
      → I w.db
      → I (continue r f w).1.db
  continue-Preserves (ok a) f w k h = (k a).at w h
  continue-Preserves (err e) f w k h = h

  pub Preserves-bind :
      {A B : Type 0} (m : Action R A) (f : A → Action R B)
      → Preserves I m
      → ((a : A) → Preserves I (f a))
      → Preserves I (m >>= f)
  unfolding ◌>>=◌
  Preserves-bind m f km kf = record {
    at = λ w h. continue-Preserves (m w).0 f (m w).1 kf (km.at w h);
  }

  pub Preserves-caught : {A : Type 0} (m : Action R A) → Preserves I m → Preserves I (caught m)
  unfolding caught
  Preserves-caught m k = record { at = λ w h. k.at w h }

  pub Preserves-if :
      {A : Type 0} (b : Bool) (m n : Action R A)
      → Preserves I m
      → Preserves I n
      → Preserves I (if b then m else n)
  Preserves-if true m n km kn = km
  Preserves-if false m n km kn = kn

  pub Preserves-exec :
      (env : Env) (f : ℕ → Database → Database)
      → ((t : ℕ) (db : Database) → I db → I (f t db))
      → Preserves I (exec {R = R} env f)
  unfolding exec
  Preserves-exec env f keeps = record {
    at = λ w h. elim (Bool-cases (takes_effect (env.answer w.tick))) [
      | inl t ↦ rw t (keeps (env.clock w.tick) w.db h)
      | inr n ↦ rw n h
    ];
  }
