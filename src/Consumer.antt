-- ===== src/Consumer.antt =====
-- data-plane/cmd/worker/main.go: the rounds of the four loops of a worker process. A round is one pass
-- of a loop's body, with the work that it leads to. Loops has the loops themselves, which end when the
-- process is told to stop.
pub mod Preserve
pub mod Traversal
pub mod Final
pub mod Attempts
pub mod Bounded
pub mod Counters
pub mod Requeue
pub mod Redelivery
pub mod Loops
use email_delivery_engine.Runtime.Interface.{Ops, Limiter, acts}
use email_delivery_engine.Throttle.{commands}
use email_delivery_engine.Prelude.{
  ℕ, ◌*◌, String, Bool, true, false, Option, none, some, List, [], ◌∷◌, str_eq, if◌then◌else◌,
}
use email_delivery_engine.Prelude.Int.{ℤ}
use email_delivery_engine.Backoff.{second, minute}
use email_delivery_engine.Store.{Database}
use email_delivery_engine.Store.Query.{deferred_ready}
use email_delivery_engine.Store.Statement.{mark_queued_row}
use email_delivery_engine.Metrics
use email_delivery_engine.Runtime.{Env, Redis, World, Result, ok, err, Action}
use email_delivery_engine.Queue.{Streams, Stream, stream_commands, QueueEntry}
use email_delivery_engine.Worker.Pipeline.{process}
use email_delivery_engine.Worker.Sweep.{run_abuse_sweep}

abbrev pub read_batch : ℕ
read_batch = 10

abbrev pub read_block : ℕ
read_block = 5 * second

abbrev pub reclaim_min_idle : ℕ
reclaim_min_idle = minute

abbrev pub deferred_batch : ℕ
deferred_batch = 100

module _ {M : Type 0 → Type 0} (ops : Ops M) where
  infixl 5 ◌>>=◌ ◌>>◌
  abbrev ◌>>=◌ : {A B : Type 0} → M A → (A → M B) → M B
  ◌>>=◌ = ops.bind

  abbrev ◌>>◌ : {A B : Type 0} → M A → M B → M B
  m >> k = ops.bind m (λ _. k)

  -- The error of an action is logged and dropped.
  abbrev pub ignoring : {A : Type 0} → M A → M Unit
  ignoring m = do outcome ← ops.caught m; ops.return tt

  module _ (limiter : Limiter M) (stream : Stream M) (max_attempts : ℤ) where
    abbrev pub after_process : QueueEntry → Result Unit → M Unit
    after_process e (err why) = ops.count "worker_process_errors_total"
    after_process e (ok done) = ignoring (stream.ack e.id)

    unfoldable pub process_entry : QueueEntry → M Unit
    process_entry e = if str_eq e.message_id "" then ignoring (stream.ack e.id) else (do
      outcome ← ops.caught (process limiter ops max_attempts e.message_id)
      after_process e outcome)

    unfoldable pub process_entries : List QueueEntry → M Unit
    process_entries [] = ops.return tt
    process_entries (e ∷ es) = process_entry e >> process_entries es

    abbrev pub process_read : Result (List QueueEntry) → M Unit
    process_read (err why) = ops.return tt
    process_read (ok es) = process_entries es

    unfoldable pub reclaim_and_process : M Unit
    reclaim_and_process = do
      entries ← ops.caught (stream.reclaim reclaim_min_idle read_batch)
      process_read entries

    abbrev pub consume : Result (List QueueEntry) → M Unit
    consume (err why) = ops.return tt
    consume (ok []) = reclaim_and_process
    consume (ok (e ∷ es)) = process_entries (e ∷ es)

    -- The body of the loop of `runConsumer`.
    unfoldable pub consume_round : M Unit
    consume_round = do entries ← ops.caught (stream.read read_batch read_block); consume entries

  module _ (stream : Stream M) where
    abbrev pub after_mark : String → Result Unit → M Unit
    after_mark key (err why) = ops.return tt
    after_mark key (ok done) = ignoring (stream.enqueue key)

    unfoldable pub requeue : String → M Unit
    requeue key = do marked ← ops.caught (ops.exec (mark_queued_row key)); after_mark key marked

    unfoldable pub requeue_all : List String → M Unit
    requeue_all [] = ops.return tt
    requeue_all (key ∷ keys) = requeue key >> requeue_all keys

    abbrev pub requeue_ready : Result (List String) → M Unit
    requeue_ready (err why) = ops.return tt
    requeue_ready (ok keys) = requeue_all keys

    -- One tick of `runDeferredPoller`.
    unfoldable pub poll_round : M Unit
    poll_round = do
      keys ← ops.caught (ops.query (deferred_ready deferred_batch))
      requeue_ready keys

  module _ (stream : Stream M) where
    abbrev pub note_depth : Result ℕ → M Unit
    note_depth (err why) = ops.return tt
    note_depth (ok n) = ops.gauge "queue_depth" n

    -- One tick of `runMetricsUpdater`.
    unfoldable pub metrics_round : M Unit
    metrics_round = do measured ← ops.caught stream.depth; note_depth measured

-- The rounds of the loops.
pub data Work : Type 0 where
  consumes reclaims polls sweeps measures : Work

abbrev pub work : {M : Type 0 → Type 0} → Ops M → Limiter M → Stream M → ℤ → Work → M Unit
work ops limiter stream max_attempts consumes = consume_round ops limiter stream max_attempts
work ops limiter stream max_attempts reclaims = reclaim_and_process ops limiter stream max_attempts
work ops limiter stream max_attempts polls = poll_round ops stream
work ops limiter stream max_attempts sweeps = run_abuse_sweep ops
work ops limiter stream max_attempts measures = metrics_round ops stream

-- One round of some loop, with the answers that it gets.
pub data Round : Type 0 where
  consuming reclaiming polling sweeping measuring : Env → Round

module _ {R : Type 0} (redis : Redis R) (streams : Streams R) (max_attempts : ℤ) where
  abbrev pub run_round : Round → Action R Unit
  run_round (consuming env) =
      consume_round (acts env) (commands redis) (stream_commands streams) max_attempts
  run_round (reclaiming env) =
      reclaim_and_process (acts env) (commands redis) (stream_commands streams) max_attempts
  run_round (polling env) = poll_round (acts env) (stream_commands streams)
  run_round (sweeping env) = run_abuse_sweep (acts env)
  run_round (measuring env) = metrics_round (acts env) (stream_commands streams)

  -- Rounds of the loops, one after another in any order.
  abbrev pub run_rounds : List Round → World R → World R
  run_rounds [] w = w
  run_rounds (r ∷ rs) w = run_rounds rs (run_round r w).1
