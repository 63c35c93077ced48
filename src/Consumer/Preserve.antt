-- ===== src/Consumer/Preserve.antt =====
-- Which invariants of the database the rounds of cmd/worker/main.go keep: those that each call of
-- `Process`, each requeueing and each sweep keeps.
use email_delivery_engine.Queue.{stream_commands}
use email_delivery_engine.Runtime.Interface.{acts}
use email_delivery_engine.Throttle.{commands}
use email_delivery_engine.Prelude.{ℕ, String, refl, List, [], ◌∷◌, All, str_eq}
use email_delivery_engine.Prelude.Int.{ℤ}
use email_delivery_engine.Store.{Database}
use email_delivery_engine.Store.Query.{deferred_ready}
use email_delivery_engine.Store.Statement.{mark_queued_row}
use email_delivery_engine.Runtime.{
  Env, Redis, World, Result, ok, err, Action, pure, caught, query, exec,
}
use email_delivery_engine.Runtime.Rules.{
  KeepsDb, KeepsDb-query, KeepsDb-pure, KeepsDb-wrapping, KeepsDb-caught, KeepsDb-count,
}
use email_delivery_engine.Runtime.Preserve.{
  Preserves, from_KeepsDb, Preserves-bind, Preserves-caught, Preserves-if, Preserves-exec,
}
use email_delivery_engine.Queue.{Streams, QueueEntry, command, enqueue, read, reclaim, ack, depth}
use email_delivery_engine.Worker.Pipeline.{process}
use email_delivery_engine.Worker.Sweep.Limits.{Swept, run_abuse_sweep-Swept}
use email_delivery_engine.Consumer.{
  ignoring, after_process, process_entry, process_entries, process_read, reclaim_and_process,
  consume, consume_round, after_mark, requeue, requeue_all, requeue_ready, poll_round, note_depth,
  metrics_round, Round, consuming, reclaiming, polling, sweeping, measuring, run_round, run_rounds,
}

-- The three kinds of write of a worker keep the invariant, in environments of some kind.
pub record IsKept {R : Type 0} (redis : Redis R) (max_attempts : ℤ) (E : Env → Type 0)
    (I : Database → Type 0) : Type 0 where
  pub by_process :
      (env : Env)
      → E env
      → (key : String) (w : World R) → I w.db
      → I (process (commands redis) (acts env) max_attempts key w).1.db
  pub by_requeue : (key : String) (t : ℕ) (db : Database) → I db → I (mark_queued_row key t db)
  pub by_sweep : (db after : Database) → Swept db after → I db → I after

abbrev pub env_of : Round → Env
env_of (consuming env) = env
env_of (reclaiming env) = env
env_of (polling env) = env
env_of (sweeping env) = env
env_of (measuring env) = env

module _ {R : Type 0} where
  command-db : {A B : Type 0} (run : R → A × R) (reply : A → Result B) → KeepsDb (command run reply)
  unfolding command
  command-db run reply = record { at = λ w. refl }

  Preserves-ignoring :
      (env : Env) (I : Database → Type 0) {A : Type 0} (m : Action R A)
      → Preserves I m
      → Preserves I (ignoring (acts env) m)
  Preserves-ignoring env I m k =
      Preserves-bind I (caught m) (λ _. pure tt) (Preserves-caught I m k)
        (λ _. from_KeepsDb I (pure tt) (KeepsDb-pure tt))

module _ {R : Type 0} (redis : Redis R) (streams : Streams R) (max_attempts : ℤ) (E : Env → Type 0)
    (I : Database → Type 0) (kept : IsKept redis max_attempts E I) where
  ack-row : (env : Env) (k : String) → Preserves I (ignoring (acts env) (ack streams k))
  unfolding ack
  ack-row env k = Preserves-ignoring env I _ (from_KeepsDb I _ (command-db _ _))

  process_entry-row :
      (env : Env) (fits : E env) (e : QueueEntry)
      → Preserves I
          (process_entry (acts env) (commands redis) (stream_commands streams) max_attempts e)
  unfolding process_entry
  process_entry-row env fits e = Preserves-if I (str_eq e.message_id "") _ _ (ack-row env e.id) (
      Preserves-bind I (caught (process (commands redis) (acts env) max_attempts e.message_id)) _
        (Preserves-caught I _ (record { at = kept.by_process env fits e.message_id })) after)
    where
      after :
          (r : Result Unit)
          → Preserves I
              (after_process (acts env) (commands redis) (stream_commands streams) max_attempts e r)
      after (err why) = from_KeepsDb I _ (KeepsDb-count _)
      after (ok done) = ack-row env e.id

  nothing-row : Preserves {R = R} I (pure tt)
  nothing-row = from_KeepsDb I (pure tt) (KeepsDb-pure tt)

  process_entries-row :
      (env : Env) (fits : E env) (es : List QueueEntry)
      → Preserves I
          (process_entries (acts env) (commands redis) (stream_commands streams) max_attempts es)
  unfolding process_entries
  process_entries-row env fits [] = nothing-row
  process_entries-row env fits (e ∷ es) =
      Preserves-bind I _ _ (process_entry-row env fits e) (λ _. process_entries-row env fits es)

  reclaim_and_process-row :
      (env : Env) (fits : E env)
      → Preserves I
          (reclaim_and_process (acts env) (commands redis) (stream_commands streams) max_attempts)
  unfolding reclaim_and_process reclaim
  reclaim_and_process-row env fits =
      Preserves-bind I (caught (reclaim streams _ _)) _
        (Preserves-caught I _ (from_KeepsDb I _ (KeepsDb-wrapping _ _ (command-db _ _)))) after
    where
      after :
          (r : Result (List QueueEntry))
          → Preserves I
              (process_read (acts env) (commands redis) (stream_commands streams) max_attempts r)
      after (err why) = nothing-row
      after (ok es) = process_entries-row env fits es

  consume_round-row :
      (env : Env) (fits : E env)
      → Preserves I
          (consume_round (acts env) (commands redis) (stream_commands streams) max_attempts)
  unfolding consume_round read
  consume_round-row env fits =
      Preserves-bind I (caught (read streams _ _)) _
        (Preserves-caught I _ (from_KeepsDb I _ (command-db _ _))) after
    where
      after :
          (r : Result (List QueueEntry))
          → Preserves I
              (consume (acts env) (commands redis) (stream_commands streams) max_attempts r)
      after (err why) = nothing-row
      after (ok []) = reclaim_and_process-row env fits
      after (ok (e ∷ es)) = process_entries-row env fits (e ∷ es)

  requeue-row :
      (env : Env) (k : String) → Preserves I (requeue (acts env) (stream_commands streams) k)
  unfolding requeue enqueue
  requeue-row env k =
      Preserves-bind I (caught (exec env (mark_queued_row k))) _
        (Preserves-caught I _ (Preserves-exec I env _ (λ t db. kept.by_requeue k t db))) after
    where
      after : (r : Result Unit) → Preserves I (after_mark (acts env) (stream_commands streams) k r)
      after (err why) = nothing-row
      after (ok done) = Preserves-ignoring env I _ (from_KeepsDb I _ (command-db _ _))

  requeue_all-row :
      (env : Env) (ks : List String)
      → Preserves I (requeue_all (acts env) (stream_commands streams) ks)
  unfolding requeue_all
  requeue_all-row env [] = nothing-row
  requeue_all-row env (k ∷ ks) =
      Preserves-bind I _ _ (requeue-row env k) (λ _. requeue_all-row env ks)

  poll_round-row : (env : Env) → Preserves I (poll_round (acts env) (stream_commands streams))
  unfolding poll_round
  poll_round-row env =
      Preserves-bind I (caught (query env (deferred_ready _))) _
        (from_KeepsDb I _ (KeepsDb-caught _ (KeepsDb-query env _))) after
    where
      after :
          (r : Result (List String))
          → Preserves I (requeue_ready (acts env) (stream_commands streams) r)
      after (err why) = nothing-row
      after (ok ks) = requeue_all-row env ks

  metrics_round-row : (env : Env) → Preserves I (metrics_round (acts env) (stream_commands streams))
  unfolding metrics_round depth
  metrics_round-row env =
      Preserves-bind I (caught (depth streams)) _
        (Preserves-caught I _ (from_KeepsDb I _ (command-db _ _))) after
    where
      after : (r : Result ℕ) → Preserves I (note_depth (acts env) (stream_commands streams) r)
      after (err why) = record { at = λ w h. h }
      after (ok n) = record { at = λ w h. h }

  run_round-row : (r : Round) → E (env_of r) → Preserves I (run_round redis streams max_attempts r)
  run_round-row (consuming env) fits = consume_round-row env fits
  run_round-row (reclaiming env) fits = reclaim_and_process-row env fits
  run_round-row (polling env) fits = poll_round-row env
  run_round-row (sweeping env) fits = record {
    at = λ w. kept.by_sweep w.db _ (run_abuse_sweep-Swept env w);
  }
  run_round-row (measuring env) fits = metrics_round-row env

  pub run_rounds-kept :
      (rounds : List Round) (w : World R)
      → All (λ r. E (env_of r)) rounds
      → I w.db
      → I (run_rounds redis streams max_attempts rounds w).db
  run_rounds-kept [] w fit h = h
  run_rounds-kept (r ∷ rs) w fit h =
      run_rounds-kept rs (run_round redis streams max_attempts r w).1 fit.1
        ((run_round-row r fit.0).at w h)
