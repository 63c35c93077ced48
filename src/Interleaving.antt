-- ===== src/Interleaving.antt =====
-- Workers of data-plane/cmd/worker that run at the same time: calls of `Process` and what else they
-- run, whose statements come in any order. A schedule names, move by move, whose statement is next.
mod Alone
pub mod Safe
pub mod Course
pub mod Reading
pub mod Walk
pub mod Writes
pub mod Calls
pub mod Bounced
pub mod Spared
pub mod Quiet
pub mod Barred
pub mod Workers
pub mod Kept
pub mod Exclusive
pub mod Settling
pub mod Team
pub mod Rows
pub mod Marks
use email_delivery_engine.Prelude.{ℕ, zero, suc, String, List, [], ◌∷◌, map}
use email_delivery_engine.Prelude.Int.{ℤ}
use email_delivery_engine.Runtime.{Env, Redis, World}
use email_delivery_engine.Runtime.Thread.{
  Thread, ended, statement, thread_ops, thread_commands, thread_stream,
}
use email_delivery_engine.Worker.Pipeline.{process}
use email_delivery_engine.Queue.{Streams}
use email_delivery_engine.Consumer.{Work, work}

-- The calls that are under way, and the world that they share.
pub record State (R : Type 0) : Type 0 where
  pub threads : List (Thread R Unit)
  pub world : World R

module _ {R : Type 0} where
  -- The next statement of a call; a call that has ended makes none.
  abbrev pub moved : Thread R Unit → World R → Thread R Unit × World R
  moved (ended r) w = (ended r, w)
  moved (statement act next) w = (next w, act w)

  -- The move of the call with this number.
  unfoldable pub move : ℕ → List (Thread R Unit) → World R → List (Thread R Unit) × World R
  move i [] w = ([], w)
  move zero (t ∷ ts) w = let (t', w') = moved t w in (t' ∷ ts, w')
  move (suc i) (t ∷ ts) w = let (ts', w') = move i ts w in (t ∷ ts', w')

  unfoldable pub runs : List ℕ → State R → State R
  unfolding move
  runs [] s = s
  runs (i ∷ is) s =
      let (ts, w) = move i s.threads s.world in runs is (record { threads = ts; world = w })

-- Workers that have each taken a message from the queue, before the first statement of any; two may
-- have taken the same one. Every statement has a tick of its own, so `env` answers each of them.
abbrev pub started : {R : Type 0} → Redis R → Env → ℤ → List String → World R → State R
started redis env max_attempts keys w = record {
  threads = map (λ key. process (thread_commands redis) (thread_ops env) max_attempts key) keys;
  world = w;
}

-- Rounds of the loops of any number of workers, before the first statement of any.
abbrev pub working : {R : Type 0} → Redis R → Streams R → Env → ℤ → List Work → World R → State R
working redis streams env max_attempts works w = record {
  threads =
      map (work (thread_ops env) (thread_commands redis) (thread_stream streams) max_attempts)
        works;
  world = w;
}
