-- ===== src/Runtime/Closed.antt =====
-- Statements that compare an operation on two interfaces, and hold of a composed one if they hold of
-- its parts: one pass through an operation then proves any of them. A statement on one interface
-- compares it with itself.
use email_delivery_engine.Prelude.{ℕ, String, Bool, Option, if◌then◌else◌}
use email_delivery_engine.Store.{Database}
use email_delivery_engine.Runtime.Interface.{Ops, Limiter}

pub record Closed {M N : Type 0 → Type 0} (la : Limiter M) (oa : Ops M) (lb : Limiter N)
    (ob : Ops N) (Q : (A : Type 0) → M A → N A → Type 0) : Type 1 where
  pub on_return : {A : Type 0} (a : A) → Q _ (oa.return a) (ob.return a)
  pub on_bind :
      {A B : Type 0} (m : M A) (n : N A) (f : A → M B) (g : A → N B)
      → Q _ m n
      → ((a : A) → Q _ (f a) (g a))
      → Q _ (oa.bind m f) (ob.bind n g)
  pub on_if :
      {A : Type 0} (b : Bool) (m m' : M A) (n n' : N A)
      → Q _ m n
      → Q _ m' n'
      → Q _ (if b then m else m') (if b then n else n')
  pub on_wrapping :
      {A : Type 0} (what : String) (m : M A) (n : N A)
      → Q _ m n
      → Q _ (oa.wrapping what m) (ob.wrapping what n)
  pub on_count : (name : String) → Q _ (oa.count name) (ob.count name)
  pub on_query : {A : Type 0} (f : ℕ → Database → A) → Q _ (oa.query f) (ob.query f)
  pub on_fetch :
      {A : Type 0} (f : Database → Option A) → Q _ (oa.fetch_unlocked f) (ob.fetch_unlocked f)
  pub on_exec : (f : ℕ → Database → Database) → Q _ (oa.exec f) (ob.exec f)
  pub on_now : Q _ oa.now ob.now
  pub on_random : Q _ oa.random ob.random
  pub on_incr : (key : String) → Q _ (la.incr key) (lb.incr key)
  pub on_expire : (key : String) (n : ℕ) → Q _ (la.expire key n) (lb.expire key n)
