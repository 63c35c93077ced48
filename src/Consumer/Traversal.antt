-- ===== src/Consumer/Traversal.antt =====
-- One pass through the rounds of the loops of data-plane/cmd/worker/main.go, for any statement that
-- compares them on two interfaces and holds of a composed part if it holds of its parts.
use email_delivery_engine.Prelude.{
  ℕ, String, Bool, Option, none, some, List, [], ◌∷◌, if◌then◌else◌, str_eq,
}
use email_delivery_engine.Prelude.Int.{ℤ}
use email_delivery_engine.Store.{Database, Customer, SendingState}
use email_delivery_engine.Store.Query.{BounceRate}
use email_delivery_engine.Store.Statement.{mark_queued_row, set_sending_state}
use email_delivery_engine.Runtime.{Result, ok, err}
use email_delivery_engine.Runtime.Interface.{Ops, Limiter}
use email_delivery_engine.Queue.{Stream, QueueEntry}
use email_delivery_engine.Worker.Pipeline.{process}
use email_delivery_engine.Worker.Sweep.{
  note_limited, judge_rate, judge_customer, sweep_customer, sweep_customers, sweep_listed,
  run_abuse_sweep,
}
use email_delivery_engine.Consumer.{
  ignoring, after_process, process_entry, process_entries, process_read, reclaim_and_process,
  consume, consume_round, after_mark, requeue, requeue_all, requeue_ready, poll_round, note_depth,
  metrics_round, Work, consumes, reclaims, polls, sweeps, measures, work,
}

-- The writes of the rounds are two, but for those of `process`.
pub record ClosedRounds {M N : Type 0 → Type 0} (oa : Ops M) (la : Limiter M) (sa : Stream M)
    (ob : Ops N) (lb : Limiter N) (sb : Stream N) (max_attempts : ℤ)
    (Q : (A : Type 0) → M A → N A → Type 0) : Type 1 where
  pub on_return : {A : Type 0} (a : A) → Q _ (oa.return a) (ob.return a)
  pub on_bind :
      {A B : Type 0} (m : M A) (n : N A) (f : A → M B) (g : A → N B)
      → Q _ m n
      → ((a : A) → Q _ (f a) (g a))
      → Q _ (oa.bind m f) (ob.bind n g)
  pub on_if :
      {A : Type 0} (b : Bool) (m m' : M A) (n n' : N A)
      → Q _ m n
      → Q _ m' n'
      → Q _ (if b then m else m') (if b then n else n')
  pub on_caught : {A : Type 0} (m : M A) (n : N A) → Q _ m n → Q _ (oa.caught m) (ob.caught n)
  pub on_count : (name : String) → Q _ (oa.count name) (ob.count name)
  pub on_depth_gauge : (n : ℕ) → Q _ (oa.gauge "queue_depth" n) (ob.gauge "queue_depth" n)
  pub on_query : {A : Type 0} (f : ℕ → Database → A) → Q _ (oa.query f) (ob.query f)
  pub on_mark : (key : String) → Q _ (oa.exec (mark_queued_row key)) (ob.exec (mark_queued_row key))
  pub on_limit :
      (key : String)
      → Q _
          (oa.exec (λ _. set_sending_state key SendingState.limited))
          (ob.exec (λ _. set_sending_state key SendingState.limited))
  pub on_enqueue : (key : String) → Q _ (sa.enqueue key) (sb.enqueue key)
  pub on_read : (n block : ℕ) → Q _ (sa.read n block) (sb.read n block)
  pub on_reclaim : (idle n : ℕ) → Q _ (sa.reclaim idle n) (sb.reclaim idle n)
  pub on_ack : (key : String) → Q _ (sa.ack key) (sb.ack key)
  pub on_depth : Q _ sa.depth sb.depth
  pub on_process :
      (key : String) → Q _ (process la oa max_attempts key) (process lb ob max_attempts key)

module _ {M N : Type 0 → Type 0} (oa : Ops M) (la : Limiter M) (sa : Stream M) (ob : Ops N)
    (lb : Limiter N) (sb : Stream N) (max : ℤ) (Q : (A : Type 0) → M A → N A → Type 0)
    (c : ClosedRounds oa la sa ob lb sb max Q) where
  on_ignoring : {A : Type 0} (m : M A) (n : N A) → Q _ m n → Q _ (ignoring oa m) (ignoring ob n)
  on_ignoring m n h = c.on_bind _ _ _ _ (c.on_caught _ _ h) (λ _. c.on_return tt)

  on_after_process :
      (e : QueueEntry) (r : Result Unit)
      → Q _ (after_process oa la sa max e r) (after_process ob lb sb max e r)
  on_after_process e (err why) = c.on_count _
  on_after_process e (ok done) = on_ignoring _ _ (c.on_ack e.id)

  on_process_entry :
      (e : QueueEntry) → Q _ (process_entry oa la sa max e) (process_entry ob lb sb max e)
  unfolding process_entry
  on_process_entry e =
      c.on_if (str_eq e.message_id "") _ _ _ _ (on_ignoring _ _ (c.on_ack e.id))
        (c.on_bind _ _ _ _ (c.on_caught _ _ (c.on_process e.message_id)) (on_after_process e))

  on_process_entries :
      (es : List QueueEntry)
      → Q _ (process_entries oa la sa max es) (process_entries ob lb sb max es)
  unfolding process_entries
  on_process_entries [] = c.on_return tt
  on_process_entries (e ∷ es) = c.on_bind _ _ _ _ (on_process_entry e) (λ _. on_process_entries es)

  on_process_read :
      (r : Result (List QueueEntry))
      → Q _ (process_read oa la sa max r) (process_read ob lb sb max r)
  on_process_read (err why) = c.on_return tt
  on_process_read (ok es) = on_process_entries es

  on_reclaim_and_process : Q _ (reclaim_and_process oa la sa max) (reclaim_and_process ob lb sb max)
  unfolding reclaim_and_process
  on_reclaim_and_process = c.on_bind _ _ _ _ (c.on_caught _ _ (c.on_reclaim _ _)) on_process_read

  on_consume :
      (r : Result (List QueueEntry)) → Q _ (consume oa la sa max r) (consume ob lb sb max r)
  on_consume (err why) = c.on_return tt
  on_consume (ok []) = on_reclaim_and_process
  on_consume (ok (e ∷ es)) = on_process_entries (e ∷ es)

  on_consume_round : Q _ (consume_round oa la sa max) (consume_round ob lb sb max)
  unfolding consume_round
  on_consume_round = c.on_bind _ _ _ _ (c.on_caught _ _ (c.on_read _ _)) on_consume

  on_after_mark :
      (key : String) (r : Result Unit) → Q _ (after_mark oa sa key r) (after_mark ob sb key r)
  on_after_mark key (err why) = c.on_return tt
  on_after_mark key (ok done) = on_ignoring _ _ (c.on_enqueue key)

  on_requeue_all : (keys : List String) → Q _ (requeue_all oa sa keys) (requeue_all ob sb keys)
  unfolding requeue_all requeue
  on_requeue_all [] = c.on_return tt
  on_requeue_all (key ∷ keys) =
      c.on_bind _ _ _ _ (c.on_bind _ _ _ _ (c.on_caught _ _ (c.on_mark key)) (on_after_mark key))
        (λ _. on_requeue_all keys)

  on_requeue_ready :
      (r : Result (List String)) → Q _ (requeue_ready oa sa r) (requeue_ready ob sb r)
  on_requeue_ready (err why) = c.on_return tt
  on_requeue_ready (ok keys) = on_requeue_all keys

  on_poll_round : Q _ (poll_round oa sa) (poll_round ob sb)
  unfolding poll_round
  on_poll_round = c.on_bind _ _ _ _ (c.on_caught _ _ (c.on_query _)) on_requeue_ready

  on_note_depth : (r : Result ℕ) → Q _ (note_depth oa sa r) (note_depth ob sb r)
  on_note_depth (err why) = c.on_return tt
  on_note_depth (ok n) = c.on_depth_gauge n

  on_metrics_round : Q _ (metrics_round oa sa) (metrics_round ob sb)
  unfolding metrics_round
  on_metrics_round = c.on_bind _ _ _ _ (c.on_caught _ _ c.on_depth) on_note_depth

  on_note_limited : (r : Result Unit) → Q _ (note_limited oa r) (note_limited ob r)
  on_note_limited (ok done) = c.on_count _
  on_note_limited (err e) = c.on_return tt

  on_judge_rate :
      (key : String) (r : Result BounceRate) → Q _ (judge_rate oa key r) (judge_rate ob key r)
  on_judge_rate key (err e) = c.on_return tt
  on_judge_rate key (ok rate) =
      c.on_if _ _ _ _ _ (c.on_bind _ _ _ _ (c.on_caught _ _ (c.on_limit key)) on_note_limited)
        (c.on_return tt)

  on_judge_customer :
      (key : String) (r : Result (Option Customer))
      → Q _ (judge_customer oa key r) (judge_customer ob key r)
  on_judge_customer key (err e) = c.on_return tt
  on_judge_customer key (ok none) = c.on_return tt
  on_judge_customer key (ok (some who)) =
      c.on_if _ _ _ _ _ (c.on_bind _ _ _ _ (c.on_caught _ _ (c.on_query _)) (on_judge_rate key))
        (c.on_return tt)

  on_sweep_customers :
      (keys : List String) → Q _ (sweep_customers oa keys) (sweep_customers ob keys)
  unfolding sweep_customers sweep_customer
  on_sweep_customers [] = c.on_return tt
  on_sweep_customers (key ∷ keys) =
      c.on_bind _ _ _ _ (c.on_bind _ _ _ _ (c.on_caught _ _ (c.on_query _)) (on_judge_customer key))
        (λ _. on_sweep_customers keys)

  on_sweep_listed : (r : Result (List String)) → Q _ (sweep_listed oa r) (sweep_listed ob r)
  on_sweep_listed (err e) = c.on_return tt
  on_sweep_listed (ok keys) = on_sweep_customers keys

  on_run_abuse_sweep : Q _ (run_abuse_sweep oa) (run_abuse_sweep ob)
  unfolding run_abuse_sweep
  on_run_abuse_sweep = c.on_bind _ _ _ _ (c.on_caught _ _ (c.on_query _)) on_sweep_listed

  -- A round does what a composed statement says of its parts.
  pub on_work : (k : Work) → Q _ (work oa la sa max k) (work ob lb sb max k)
  on_work consumes = on_consume_round
  on_work reclaims = on_reclaim_and_process
  on_work polls = on_poll_round
  on_work sweeps = on_run_abuse_sweep
  on_work measures = on_metrics_round
