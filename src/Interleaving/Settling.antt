-- ===== src/Interleaving/Settling.antt =====
-- Calls of `Process` of internal/worker/worker.go that run at the same time for different messages.
use email_delivery_engine.Prelude.{
  ℕ, ◌≡◌, ◌≢◌, refl, sym, ap, subst, ◌∙◌, false, some, List, [], ◌∷◌, map, All, arith,
}
use email_delivery_engine.Prelude.Int.{ℤ}
use email_delivery_engine.Store.{Message, Database}
use email_delivery_engine.Store.Query.{message_by_id}
use email_delivery_engine.Runtime.{Env, Redis, World, Result, ok, err, skips}
use email_delivery_engine.Runtime.Thread.{Thread, ended, statement, thread_ops, thread_commands}
use email_delivery_engine.Worker.Pipeline.{is_terminal, message_step}
use email_delivery_engine.Worker.Guarantees.Numbers.{tries}
use email_delivery_engine.Interleaving.{runs, started}
use email_delivery_engine.Interleaving.Safe.{Safe, Safe-weaken}
use email_delivery_engine.Interleaving.Course.{decided}
use email_delivery_engine.Interleaving.Walk.{on_message_step}
use email_delivery_engine.Interleaving.Writes.{Ends, Keeps-Course}
use email_delivery_engine.Interleaving.Calls.{Serves, process-Safe}
use email_delivery_engine.Interleaving.Team.{Parts, Fits, Suits, Together, runs-Fits}
use email_delivery_engine.Interleaving.Exclusive.{
  Same, Same-refl, Same-trans, Spares, Within, Decided, Known, own-Keeps, Within-same,
}

-- Each message is another one.
abbrev Distinct : List Message → Type 0
Distinct [] = Unit
Distinct (m ∷ ms) = All (λ (x : Message). m.id ≢ x.id) ms × Distinct ms

-- What a call leaves of its message, when it has ended.
abbrev Left : ℤ → Message → ℕ → Result Unit → Database → Type 0
Left max_attempts msg n (ok a) db = Decided max_attempts msg db × Within msg.id n db
Left max_attempts msg n (err e) db = Within msg.id n db

-- A call for each message; those that have ended have left it so.
abbrev pub Reports :
    {R : Type 0} → ℤ → Database → List Message → List (Thread R Unit) → Database → Type 0
Reports max_attempts old [] [] db = Unit
Reports max_attempts old [] (t ∷ ts) db = ⊥
Reports max_attempts old (m ∷ ms) [] db = ⊥
Reports max_attempts old (m ∷ ms) (ended r ∷ ts) db =
    Left max_attempts m (tries m.id old) r db × Reports max_attempts old ms ts db
Reports max_attempts old (m ∷ ms) (statement act next ∷ ts) db = Reports max_attempts old ms ts db

-- The message is stored, and it is live.
abbrev Live : Database → Message → Type 0
Live db m = (message_by_id m.id db ≡ some m) × (is_terminal m.status ≡ false)

module _ {R : Type 0} (redis : Redis R) (env : Env) (max_attempts : ℤ) (w0 : World R)
    (free : (t : ℕ) → skips (env.answer t) ≡ false) where
  abbrev Start : Message → Database → Type 0
  Start msg db = (message_by_id msg.id db ≡ some msg) × (tries msg.id db ≡ tries msg.id w0.db)

  Start-Within :
      (msg : Message) (db : Database) → Start msg db → Within msg.id (tries msg.id w0.db) db
  Start-Within msg db h = let e = h.1 in (omega arith, omega arith)

  Left-Same :
      (msg : Message) (n : ℕ) (r : Result Unit) (v w : Database)
      → Same msg.id v w
      → Left max_attempts msg n r v
      → Left max_attempts msg n r w
  Left-Same msg n (ok a) v w same ((row, found, settled), count) = (
    (row, same.same_row ∙ found, settled),
    Within-same max_attempts msg n v w same.same_tries count,
  )
  Left-Same msg n (err e) v w same count = Within-same max_attempts msg n v w same.same_tries count

  own-Serves :
      (msg : Message)
      → is_terminal msg.status ≡ false
      → Serves redis env max_attempts msg.id
          (Same msg.id)
          (Spares msg.id)
          (Start msg)
          (Left max_attempts msg (tries msg.id w0.db))
  own-Serves msg live = record {
    nothing = λ db k ne. Same-refl k db;
    stable = λ v w same h. (same.same_row ∙ h.0, same.same_tries ∙ h.1);
    failed = λ db e h. Start-Within msg db h;
    absent = λ db h missing. cc (h.0, missing);
    passed_over = λ db t h locked. cc (free t, locked);
    over = λ db m h found terminal.
        let e : m ≡ msg = cc (h.0, found) in
        cc (ap (λ (x : Message). is_terminal x.status) e, terminal, live);
    live = λ w m h found _.
        let e : msg ≡ m = cc (h.0, found) in
        subst
          (λ x.
            Safe (λ (x y : World R). Same msg.id x.db y.db)
              (λ (x y : World R). Spares msg.id x.db y.db)
              (λ r v. Left max_attempts msg (tries msg.id w0.db) r v.db)
              (message_step (thread_commands redis) (thread_ops env) max_attempts (some x)) w)
          e (own_step w h);
  }
    where
      ended_so :
          (r : Result Unit) (v : World R)
          → Ends
              (Known max_attempts msg (tries msg.id w0.db) decided)
              (Within msg.id (tries msg.id w0.db))
              r
              v
          → Left max_attempts msg (tries msg.id w0.db) r v.db
      ended_so (ok a) v h = h
      ended_so (err e) v h = h

      own_step :
          (w : World R)
          → Start msg w.db
          → Safe
              (λ (x y : World R). Same msg.id x.db y.db)
              (λ (x y : World R). Spares msg.id x.db y.db)
              (λ r v. Left max_attempts msg (tries msg.id w0.db) r v.db)
              (message_step (thread_commands redis) (thread_ops env) max_attempts (some msg))
              w
      own_step w h = Safe-weaken _ _ _ _ _ w ended_so (
          on_message_step _ _ max_attempts msg _ _
            (Keeps-Course redis env max_attempts msg (Same msg.id) (Spares msg.id)
              (Known max_attempts msg (tries msg.id w0.db)) (Within msg.id (tries msg.id w0.db))
              (own-Keeps max_attempts msg (tries msg.id w0.db)))
            live w ((msg, h.0), h.1))

  abbrev own_parts : Parts Message R
  own_parts = record {
    Rely = λ m v w. Same m.id v.db w.db;
    Guar = λ m v w. Spares m.id v.db w.db;
    Post = λ m r w. Left max_attempts m (tries m.id w0.db) r w.db;
    rely_refl = λ m w. Same-refl m.id w.db;
    rely_trans = λ m u v w. Same-trans m.id u.db v.db w.db;
    stable = λ m r v w. Left-Same m (tries m.id w0.db) r v.db w.db;
  }

  started-Fits :
      (msgs : List Message)
      → All (Live w0.db) msgs
      → Fits own_parts msgs
          (started redis env max_attempts (map (λ (m : Message). m.id) msgs) w0).threads
          w0
  started-Fits [] h = tt
  started-Fits (m ∷ ms) h = (
    process-Safe redis env max_attempts m.id (Same m.id) (Spares m.id) (Start m)
        (Left max_attempts m (tries m.id w0.db)) (own-Serves m h.0.1) w0 (h.0.0, refl),
    started-Fits ms h.1,
  )

  apart-Suits :
      (m : Message) (ms : List Message)
      → All (λ (x : Message). m.id ≢ x.id) ms
      → All (λ j. Suits own_parts m j) ms × All (λ j. Suits own_parts j m) ms
  apart-Suits m [] h = (tt, tt)
  apart-Suits m (x ∷ xs) h =
      let (from, to) = apart-Suits m xs h.1 in
      ((λ v w g. g m.id (λ e. h.0 (sym e)), from), (λ v w g. g x.id h.0, to))

  Distinct-Together : (msgs : List Message) → Distinct msgs → Together own_parts msgs
  Distinct-Together [] h = tt
  Distinct-Together (m ∷ ms) h =
      let (from, to) = apart-Suits m ms h.0 in (from, to, Distinct-Together ms h.1)

  Fits-Reports :
      (msgs : List Message) (ts : List (Thread R Unit)) (w : World R)
      → Fits own_parts msgs ts w
      → Reports max_attempts w0.db msgs ts w.db
  unfolding Safe
  Fits-Reports [] [] w h = tt
  Fits-Reports [] (t ∷ ts) w h = h
  Fits-Reports (m ∷ ms) [] w h = h
  Fits-Reports (m ∷ ms) (ended r ∷ ts) w h = (h.0, Fits-Reports ms ts w h.1)
  Fits-Reports (m ∷ ms) (statement act next ∷ ts) w h = Fits-Reports ms ts w h.1

  -- Calls run at the same time, for different messages that are stored and live, with their statements
  -- in any order and whatever fails, while no other transaction has their rows locked. A call that has
  -- returned no error has decided about its message: it is terminal, or it waits for a time that is
  -- set, and if it waits after an attempt it has one left. A call that has ended, with an error or
  -- without, has recorded at most one attempt.
  pub runs-settles :
      (msgs : List Message) (schedule : List ℕ)
      → Distinct msgs
      → All (Live w0.db) msgs
      → Reports max_attempts w0.db msgs
          (runs schedule
            (started redis env max_attempts (map (λ (m : Message). m.id) msgs) w0)).threads
          (runs schedule
            (started redis env max_attempts (map (λ (m : Message). m.id) msgs) w0)).world.db
  runs-settles msgs schedule apart live =
      Fits-Reports msgs _ _ (
        runs-Fits own_parts schedule msgs _ (Distinct-Together msgs apart) (started-Fits msgs live))
