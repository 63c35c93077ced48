-- ===== src/Consumer/Counters.antt =====
-- The counters of a worker never go down: `Process` of internal/worker/worker.go and the loops of
-- cmd/worker/main.go.
use email_delivery_engine.Consumer.Traversal.{ClosedRounds, on_work}
use email_delivery_engine.Queue.{stream_commands}
use email_delivery_engine.Runtime.Interface.{acts, unlocked}
use email_delivery_engine.Throttle.{commands}
use email_delivery_engine.Prelude.{ℕ, ◌≤◌, String, ◌≡◌, false, Option, List, [], ◌∷◌, arith, str_eq}
use email_delivery_engine.Prelude.Int.{ℤ}
use email_delivery_engine.Store.{Database}
use email_delivery_engine.Metrics.Counting.{value_at, registry-Readings}
use email_delivery_engine.Runtime.{Env, Redis, World, gauge}
use email_delivery_engine.Runtime.Closed.{Closed}
use email_delivery_engine.Runtime.Growth.{
  Grows, Grows-pure, Grows-bind, Grows-if, Grows-wrapping, Grows-caught, Grows-count, Grows-query,
  Grows-exec, Grows-now, Grows-random, Grows-incr, Grows-expire, Grows-raise, Grows-command,
}
use email_delivery_engine.Queue.{Streams, enqueue, read, reclaim, ack, depth}
use email_delivery_engine.Worker.Pipeline.{process}
use email_delivery_engine.Worker.Traversal.{on_process, on_select_route}
use email_delivery_engine.Worker.Sweep.{}
use email_delivery_engine.Consumer.{
  Work, consumes, reclaims, polls, sweeps, measures, work, Round, consuming, reclaiming, polling,
  sweeping, measuring, run_round, run_rounds,
}

module _ {R : Type 0} (redis : Redis R) (env : Env) where
  Grows-unlocked : {A : Type 0} (find : Database → Option A) → Grows {R = R} (unlocked env find)
  Grows-unlocked find = record { at = λ w. (Grows-query env _).at w }

  Grows-Closed : Closed (commands redis) (acts env) (commands redis) (acts env) (λ A m n. Grows m)
  Grows-Closed = record {
    on_return = Grows-pure;
    on_bind = λ m n f g h k. Grows-bind m f h k;
    on_if = λ b m m' n n' h k. Grows-if b m m' h k;
    on_wrapping = λ what m n h. Grows-wrapping what m h;
    on_count = Grows-count;
    on_query = Grows-query env;
    on_fetch = Grows-unlocked;
    on_exec = Grows-exec env;
    on_now = Grows-now env;
    on_random = Grows-random env;
    on_incr = Grows-incr redis;
    on_expire = Grows-expire redis;
  }

  Grows-process :
      (max_attempts : ℤ) (key : String)
      → Grows (process (commands redis) (acts env) max_attempts key)
  Grows-process =
      on_process (commands redis) (acts env) (commands redis) (acts env) (λ A m n. Grows m)
        Grows-Closed
        (λ msg customer. Grows-caught _ (
          on_select_route (commands redis) (acts env) (commands redis) (acts env) (λ A m n. Grows m)
            Grows-Closed Grows-raise msg customer))

module _ {R : Type 0} (redis : Redis R) (streams : Streams R) (env : Env) (max_attempts : ℤ) where
  Grows-depth_gauge : (n : ℕ) → Grows {R = R} (gauge "queue_depth" n)
  Grows-depth_gauge n = record {
    at = λ w k other.
        let seen = (registry-Readings w.metrics).gauged "queue_depth" k n in ground arith;
  }

  Grows-ClosedRounds :
      ClosedRounds
        (acts env)
        (commands redis)
        (stream_commands streams)
        (acts env)
        (commands redis)
        (stream_commands streams)
        max_attempts
        (λ A m n. Grows m)
  unfolding enqueue read reclaim ack depth
  Grows-ClosedRounds = record {
    on_return = Grows-pure;
    on_bind = λ m n f g h k. Grows-bind m f h k;
    on_if = λ b m m' n n' h k. Grows-if b m m' h k;
    on_caught = λ m n h. Grows-caught m h;
    on_count = Grows-count;
    on_depth_gauge = Grows-depth_gauge;
    on_query = Grows-query env;
    on_mark = λ key. Grows-exec env _;
    on_limit = λ key. Grows-exec env _;
    on_enqueue = λ key. Grows-command _ _;
    on_read = λ n block. Grows-command _ _;
    on_reclaim = λ idle n. Grows-wrapping _ _ (Grows-command _ _);
    on_ack = λ key. Grows-command _ _;
    on_depth = Grows-command _ _;
    on_process = Grows-process redis env max_attempts;
  }

  Grows-work :
      (k : Work) → Grows (work (acts env) (commands redis) (stream_commands streams) max_attempts k)
  Grows-work =
      on_work (acts env) (commands redis) (stream_commands streams) (acts env) (commands redis)
        (stream_commands streams) max_attempts (λ A m n. Grows m) Grows-ClosedRounds

module _ {R : Type 0} (redis : Redis R) (streams : Streams R) (max_attempts : ℤ) where
  Grows-run_round : (r : Round) → Grows (run_round redis streams max_attempts r)
  Grows-run_round (consuming env) = Grows-work redis streams env max_attempts consumes
  Grows-run_round (reclaiming env) = Grows-work redis streams env max_attempts reclaims
  Grows-run_round (polling env) = Grows-work redis streams env max_attempts polls
  Grows-run_round (sweeping env) = Grows-work redis streams env max_attempts sweeps
  Grows-run_round (measuring env) = Grows-work redis streams env max_attempts measures

  -- Whatever fails, rounds in any order lower no metric but the queue depth, which is a gauge.
  pub run_rounds-counters_grow :
      (rounds : List Round) (w : World R) (k : String)
      → str_eq "queue_depth" k ≡ false
      → value_at k w.metrics ≤ value_at k (run_rounds redis streams max_attempts rounds w).metrics
  run_rounds-counters_grow [] w k other = omega arith
  run_rounds-counters_grow (r ∷ rs) w k other =
      let first = (Grows-run_round r).at w k other in
      let later =
        run_rounds-counters_grow rs (run_round redis streams max_attempts r w).1 k other in
      omega arith
