-- ===== src/Interleaving/Workers.antt =====
-- Rounds of the loops of data-plane/cmd/worker/main.go that run at the same time, in one worker and in
-- several.
use email_delivery_engine.Interleaving.Kept.{
  Moves, Keeping, Keeping-same, Keeping-exec, Keeping-bind, Keeping-caught, Keeping-if,
}
use email_delivery_engine.Queue.{Streams, enqueue, read, reclaim, ack, depth, command}
use email_delivery_engine.Consumer.{Work, consumes}
use email_delivery_engine.Consumer.Traversal.{ClosedRounds, on_work}
use email_delivery_engine.Runtime.Thread.{
  Thread, atomic, thread_ops, thread_commands, thread_stream,
}
use email_delivery_engine.Prelude.{String, ℕ, ◌≡◌, refl, List, [], ◌∷◌, All}
use email_delivery_engine.Prelude.Int.{ℤ}
use email_delivery_engine.Store.{SendingState, Database}
use email_delivery_engine.Store.Statement.{mark_queued_row, set_sending_state}
use email_delivery_engine.Worker.Pipeline.{process}
use email_delivery_engine.Runtime.{Env, Redis, World, Result, count, gauge, query, wrapping}
use email_delivery_engine.Interleaving.{runs, working}
use email_delivery_engine.Interleaving.Safe.{Safe}
use email_delivery_engine.Interleaving.Team.{Parts, Fits, Suits, Together, runs-Rely}

module _ {R : Type 0} (redis : Redis R) (streams : Streams R) (env : Env) (max_attempts : ℤ)
    (Kept : Database → Database → Type 0) (Start : Database → Type 0) where
  -- A relation that the statements of all rounds keep, where something holds from the start on.
  pub record KeepsRounds : Type 0 where
    pub nothing : (db : Database) → Kept db db
    pub composed : (a b c : Database) → Kept a b → Kept b c → Kept a c
    pub stays : (v w : Database) → Kept v w → Start v → Start w
    pub keeps_queued : (key : String) (t : ℕ) (db : Database) → Kept db (mark_queued_row key t db)
    pub keeps_limited :
        (key : String) (db : Database) → Kept db (set_sending_state key SendingState.limited db)
    pub keeps_process :
        (key : String) (w : World R)
        → Start w.db
        → Safe
            (Moves env Kept Start)
            (Moves env Kept Start)
            (λ r v. Start v.db)
            (process (thread_commands redis) (thread_ops env) max_attempts key)
            w

  module _ (k : KeepsRounds) where
    abbrev Persisting : (A : Type 0) → Thread R A → Thread R A → Type 0
    Persisting A t same = Keeping env Kept Start A t

    same :
        {A : Type 0} (m : World R → Result A × World R)
        → ((w : World R) → (m w).1.db ≡ w.db)
        → Keeping env Kept Start A (atomic m)
    same = Keeping-same env Kept Start k.nothing k.stays

    Kept-ClosedRounds :
        ClosedRounds
          (thread_ops env)
          (thread_commands redis)
          (thread_stream streams)
          (thread_ops env)
          (thread_commands redis)
          (thread_stream streams)
          max_attempts
          Persisting
    unfolding Safe count query enqueue read reclaim ack depth command wrapping
    Kept-ClosedRounds = record {
      on_return = λ a w h. h;
      on_bind = λ m n f g h next. Keeping-bind env Kept Start k.nothing k.stays m f h next;
      on_if = λ b m m' n n' g h. Keeping-if env Kept Start k.nothing k.stays b m m' g h;
      on_caught = λ m n h. Keeping-caught env Kept Start k.nothing k.stays m h;
      on_count = λ name. same (count name) (λ w. refl);
      on_depth_gauge = λ n. same (gauge "queue_depth" n) (λ w. refl);
      on_query = λ f. same (query env f) (λ w. refl);
      on_mark = λ key.
          Keeping-exec env Kept Start k.nothing k.stays (mark_queued_row key) (k.keeps_queued key);
      on_limit = λ key.
          Keeping-exec env Kept Start k.nothing k.stays
            (λ _. set_sending_state key SendingState.limited) (λ t. k.keeps_limited key);
      on_enqueue = λ key. same (enqueue streams key) (λ w. refl);
      on_read = λ n block. same (read streams n block) (λ w. refl);
      on_reclaim = λ idle n. same (reclaim streams idle n) (λ w. refl);
      on_ack = λ key. same (ack streams key) (λ w. refl);
      on_depth = same (depth streams) (λ w. refl);
      on_process = k.keeps_process;
    }

    abbrev kept_parts : Parts Work R
    kept_parts = record {
      Rely = λ j. Moves env Kept Start;
      Guar = λ j. Moves env Kept Start;
      Post = λ j r w. Start w.db;
      rely_refl = λ j w. k.nothing w.db;
      rely_trans = λ j u v w. k.composed u.db v.db w.db;
      stable = λ j r v w. k.stays v.db w.db;
    }

    working-Fits :
        (works : List Work) (w : World R)
        → Start w.db
        → Fits kept_parts works (working redis streams env max_attempts works w).threads w
    working-Fits [] w h = tt
    working-Fits (j ∷ works) w h = (
      on_work (thread_ops env) (thread_commands redis) (thread_stream streams) (thread_ops env)
          (thread_commands redis) (thread_stream streams) max_attempts Persisting Kept-ClosedRounds
          j w h,
      working-Fits works w h,
    )

    first-Suits : (j : Work) (works : List Work) → All (λ i. Suits kept_parts j i) works
    first-Suits j [] = tt
    first-Suits j (i ∷ works) = (λ v w p. p, first-Suits j works)

    others-Suits : (j : Work) (works : List Work) → All (λ i. Suits kept_parts i j) works
    others-Suits j [] = tt
    others-Suits j (i ∷ works) = (λ v w p. p, others-Suits j works)

    works-Together : (works : List Work) → Together kept_parts works
    works-Together [] = tt
    works-Together (j ∷ works) = (first-Suits j works, others-Suits j works, works-Together works)

    -- Rounds of the loops of any number of workers keep it, in any order of their statements.
    pub runs-Kept :
        (works : List Work) (schedule : List ℕ) (w : World R)
        → Start w.db
        → Kept w.db (runs schedule (working redis streams env max_attempts works w)).world.db
    runs-Kept works schedule w h =
        runs-Rely kept_parts consumes schedule works
          (working redis streams env max_attempts works w) (first-Suits consumes works)
          (works-Together works) (working-Fits works w h)
