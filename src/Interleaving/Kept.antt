-- ===== src/Interleaving/Kept.antt =====
-- Parts of a round whose statements keep a relation, among others that keep it, where something holds
-- from the start on.
use email_delivery_engine.Prelude.{
  ℕ, String, ◌≡◌, sym, subst, inl, inr, Bool, true, false, Bool-cases, if◌then◌else◌,
}
use email_delivery_engine.Store.{Database}
use email_delivery_engine.Runtime.{Env, World, Result, exec, takes_effect}
use email_delivery_engine.Runtime.Thread.{
  Thread, ended, statement, atomic, thread_bind, thread_wrapping, thread_caught,
}
use email_delivery_engine.Interleaving.Safe.{Safe, Safe-bind, Safe-wrapping, Safe-caught}

module _ {R : Type 0} (env : Env) (Kept : Database → Database → Type 0)
    (Start : Database → Type 0) where
  abbrev pub Moves : World R → World R → Type 0
  Moves v w = Kept v.db w.db

  abbrev pub Keeping : (A : Type 0) → Thread R A → Type 0
  Keeping A t = (w : World R) → Start w.db → Safe Moves Moves (λ r v. Start v.db) t w

  module _ (nothing : (db : Database) → Kept db db)
      (stays : (v w : Database) → Kept v w → Start v → Start w) where
    pub Keeping-same :
        {A : Type 0} (m : World R → Result A × World R)
        → ((w : World R) → (m w).1.db ≡ w.db)
        → Keeping A (atomic m)
    unfolding Safe
    Keeping-same m same w h = λ v r. (
      subst (Kept v.db) (sym (same v)) (nothing v.db),
      subst Start (sym (same v)) (stays w.db v.db r h),
    )

    pub Keeping-exec :
        (f : ℕ → Database → Database)
        → ((t : ℕ) (db : Database) → Kept db (f t db))
        → Keeping Unit (atomic (exec env f))
    unfolding Safe exec
    Keeping-exec f writes w h = λ v r.
        let there = stays w.db v.db r h in
        elim (Bool-cases (takes_effect (env.answer v.tick))) [
          | inl done ↦
              let does = writes (env.clock v.tick) v.db in
              rw done (does, stays v.db (f (env.clock v.tick) v.db) does there)
          | inr refused ↦ rw refused (nothing v.db, there)
        ]

    pub Keeping-bind :
        {A B : Type 0} (m : Thread R A) (f : A → Thread R B)
        → Keeping A m
        → ((a : A) → Keeping B (f a))
        → Keeping B (thread_bind m f)
    Keeping-bind m f h next w start =
        Safe-bind Moves Moves (λ r v. Start v.db) (λ r v. Start v.db) m f w (h w start)
          (λ a v there. next a v there) (λ v e there. there)

    pub Keeping-wrapping :
        {A : Type 0} (what : String) (m : Thread R A)
        → Keeping A m
        → Keeping A (thread_wrapping what m)
    Keeping-wrapping what m h w start =
        Safe-wrapping Moves Moves what (λ r v. Start v.db) (λ r v. Start v.db) m w
          (λ r v there. there) (h w start)

    pub Keeping-caught :
        {A : Type 0} (m : Thread R A) → Keeping A m → Keeping (Result A) (thread_caught m)
    Keeping-caught m h w start =
        Safe-caught Moves Moves (λ r v. Start v.db) (λ r v. Start v.db) m w (λ r v there. there)
          (h w start)

    pub Keeping-if :
        {A : Type 0} (b : Bool) (m n : Thread R A)
        → Keeping A m
        → Keeping A n
        → Keeping A (if b then m else n)
    Keeping-if true m n g h = g
    Keeping-if false m n g h = h

    -- What holds at the start holds at the end.
    pub from_Safe :
        {A : Type 0} (Post : Result A → World R → Type 0) (t : Thread R A) (w : World R)
        → Start w.db
        → Safe Moves Moves Post t w
        → Safe Moves Moves (λ r v. Start v.db) t w
    unfolding Safe
    from_Safe Post (ended r) w start h = start
    from_Safe Post (statement act next) w start h = λ v r.
        let (does, rest) = h v r in
        let there = stays v.db (act v).db does (stays w.db v.db r start) in
        (does, from_Safe Post (next v) (act v) there rest)
