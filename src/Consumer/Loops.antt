-- ===== src/Consumer/Loops.antt =====
-- The four loops of data-plane/cmd/worker/main.go with their cancellation: `runConsumer`,
-- `runDeferredPoller`, `runAbuseSweep` and `runMetricsUpdater`. The tests of the context and the
-- choices of `select` are answers from outside, by the number of the pass. A loop runs on fuel, a
-- pass each. Waiting has no effect on the state: the sleep after a failed read leaves no trace here.
pub mod Ends
use email_delivery_engine.Throttle.{commands}
use email_delivery_engine.Queue.{stream_commands}
use email_delivery_engine.Runtime.Interface.{acts}
use email_delivery_engine.Prelude.{
  ℕ, zero, suc, Bool, true, false, Option, none, some, List, [], ◌∷◌, if◌then◌else◌,
}
use email_delivery_engine.Prelude.Int.{ℤ}
use email_delivery_engine.Runtime.{Env, Redis, World, Result, ok, err}
use email_delivery_engine.Queue.{Streams, QueueEntry, read}
use email_delivery_engine.Consumer.{
  read_batch, read_block, reclaim_and_process, consume, poll_round, metrics_round,
}
use email_delivery_engine.Worker.Sweep.{run_abuse_sweep}

-- What a pass of `runConsumer` meets: whether the context is live at its head, and after a read that
-- failed; and the answers to what it does.
pub record Pass : Type 0 where
  pub live : Bool
  pub live_after : Bool
  pub env : Env

-- A failed read ends the loop if the context is cancelled by then.
abbrev pub goes_on : Bool → Result (List QueueEntry) → Bool
goes_on live_after (err why) = live_after
goes_on live_after (ok es) = true

module _ {R : Type 0} (redis : Redis R) (streams : Streams R) (max_attempts : ℤ) where
  -- The body of the loop: whether the loop goes on, and the state.
  unfoldable pub consumer_pass : Pass → World R → Bool × World R
  unfolding read
  consumer_pass p w =
      let (entries, w') = read streams read_batch read_block w in
      (
        goes_on p.live_after entries,
        (consume (acts p.env) (commands redis) (stream_commands streams) max_attempts entries w').1,
      )

  -- The loop from pass `j` on.
  unfoldable pub consumer_loop : (ℕ → Pass) → ℕ → ℕ → World R → Option (World R)
  unfolding consumer_pass
  consumer_loop passes zero j w = none
  consumer_loop passes (suc fuel) j w =
      let (more, w') = consumer_pass (passes j) w in
      let rest = consumer_loop passes fuel (suc j) w' in
      if (passes j).live then (if more then rest else some w') else some w

  unfoldable pub run_consumer : Env → (ℕ → Pass) → ℕ → World R → Option (World R)
  unfolding reclaim_and_process consumer_loop
  run_consumer env passes fuel w =
      consumer_loop passes fuel 0
        (reclaim_and_process (acts env) (commands redis) (stream_commands streams) max_attempts w).1

-- A loop of `select` over a ticker: a pass is the end of the context or a tick with its answers.
module _ {R : Type 0} (tick : Env → World R → World R) where
  unfoldable pub ticker_loop : (ℕ → Option Env) → ℕ → ℕ → World R → Option (World R)
  ticker_loop chosen zero j w = none
  ticker_loop chosen (suc fuel) j w = elim (chosen j) [
    | none ↦ some w
    | some env ↦ ticker_loop chosen fuel (suc j) (tick env w)
  ]

module _ {R : Type 0} (chosen : ℕ → Option Env) (fuel : ℕ) where
  unfoldable pub run_deferred_poller : Streams R → World R → Option (World R)
  unfolding ticker_loop poll_round
  run_deferred_poller streams =
      ticker_loop (λ env w. (poll_round (acts env) (stream_commands streams) w).1) chosen fuel 0

  unfoldable pub run_abuse_sweeps : World R → Option (World R)
  unfolding ticker_loop run_abuse_sweep
  run_abuse_sweeps = ticker_loop (λ env w. (run_abuse_sweep (acts env) w).1) chosen fuel 0

  unfoldable pub run_metrics_updater : Streams R → World R → Option (World R)
  unfolding ticker_loop metrics_round
  run_metrics_updater streams =
      ticker_loop (λ env w. (metrics_round (acts env) (stream_commands streams) w).1) chosen fuel 0
