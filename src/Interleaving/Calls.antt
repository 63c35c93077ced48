-- ===== src/Interleaving/Calls.antt =====
-- A whole call of `Process` among others, from the load of its message on.
use email_delivery_engine.Prelude.{
  ℕ, String, ◌≡◌, refl, ap, inl, inr, true, false, Option, none, some, Bool-cases, if◌then◌else◌,
}
use email_delivery_engine.Prelude.Int.{ℤ}
use email_delivery_engine.Store.{Message, Database}
use email_delivery_engine.Store.Query.{message_by_id}
use email_delivery_engine.Runtime.{
  Env, Redis, World, Result, ok, err, Error, Answer, works, refused, lost, locked, fails, skips,
  query, step, sql_error,
}
use email_delivery_engine.Runtime.Thread.{
  Thread, ended, thread_bind, thread_wrapping, thread_ops, thread_commands,
}
use email_delivery_engine.Worker.Pipeline.{is_terminal, message_step, load_message, process}
use email_delivery_engine.Interleaving.Safe.{Safe}

-- What a call has to do with the row that it may find.
pub record Serves {R : Type 0} (redis : Redis R) (env : Env) (max_attempts : ℤ) (key : String)
    (Rely Guar : Database → Database → Type 0) (Start : Database → Type 0)
    (Post : Result Unit → Database → Type 0) : Type 0 where
  pub nothing : (db : Database) → Guar db db
  pub stable : (v w : Database) → Rely v w → Start v → Start w
  pub failed : (db : Database) (e : Error) → Start db → Post (err e) db
  pub absent : (db : Database) → Start db → message_by_id key db ≡ none → Post (ok tt) db
  pub passed_over :
      (db : Database) (t : ℕ) → Start db → skips (env.answer t) ≡ true → Post (ok tt) db
  pub over :
      (db : Database) (msg : Message)
      → Start db
      → message_by_id key db ≡ some msg
      → is_terminal msg.status ≡ true
      → Post (ok tt) db
  pub live :
      (w : World R) (msg : Message)
      → Start w.db
      → message_by_id key w.db ≡ some msg
      → is_terminal msg.status ≡ false
      → Safe
          (λ (x y : World R). Rely x.db y.db)
          (λ (x y : World R). Guar x.db y.db)
          (λ r v. Post r v.db)
          (message_step (thread_commands redis) (thread_ops env) max_attempts (some msg))
          w

module _ {R : Type 0} (redis : Redis R) (env : Env) (max_attempts : ℤ) (key : String)
    (Rely Guar : Database → Database → Type 0) (Start : Database → Type 0)
    (Post : Result Unit → Database → Type 0)
    (serves : Serves redis env max_attempts key Rely Guar Start Post) where
  abbrev Kept : {A : Type 0} → (Result A → World R → Type 0) → Thread R A → World R → Type 0
  Kept = Safe (λ (x y : World R). Rely x.db y.db) (λ (x y : World R). Guar x.db y.db)

  found_row :
      (w : World R) (o : Option Message)
      → message_by_id key w.db ≡ o
      → Start w.db
      → Kept
          (λ r v. Post r v.db)
          (message_step (thread_commands redis) (thread_ops env) max_attempts o)
          w
  unfolding message_step Safe
  found_row w none e h = serves.absent w.db h e
  found_row w (some msg) e h = elim (Bool-cases (is_terminal msg.status)) [
    | inl over ↦ rw over (serves.over w.db msg h e over)
    | inr live ↦ serves.live w msg h e live
  ]

  loaded :
      (w : World R) (t : ℕ) (a : Answer)
      → env.answer t ≡ a
      → Start w.db
      → Kept
          (λ r v. Post r v.db)
          (thread_bind
            (thread_wrapping "load message" (
              ended (
                if fails a
                then err sql_error
                else ok (if skips a then none else message_by_id key w.db))))
            (message_step (thread_commands redis) (thread_ops env) max_attempts))
          w
  unfolding thread_bind thread_wrapping message_step Safe
  loaded w t works e h = found_row w (message_by_id key w.db) refl h
  loaded w t refused e h = serves.failed w.db _ h
  loaded w t lost e h = serves.failed w.db _ h
  loaded w t locked e h = serves.passed_over w.db t h (ap skips e)

  pub process-Safe :
      (w : World R)
      → Start w.db
      → Kept
          (λ r v. Post r v.db)
          (process (thread_commands redis) (thread_ops env) max_attempts key)
          w
  unfolding process load_message thread_bind thread_wrapping Safe query
  process-Safe w h = λ v r. (
    serves.nothing v.db,
    loaded (step env v) v.tick (env.answer v.tick) refl (serves.stable w.db v.db r h),
  )
