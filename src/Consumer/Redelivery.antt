-- ===== src/Consumer/Redelivery.antt =====
-- A deferred message whose time has come, through a poll of `runDeferredPoller` of cmd/worker/main.go
-- and the call of `Process` that the entry of the poll leads to.
use email_delivery_engine.Queue.{stream_commands}
use mathlib.Core.List.{Memᴰ}
use email_delivery_engine.Runtime.Interface.{acts}
use email_delivery_engine.Throttle.{commands}
use email_delivery_engine.Prelude.{
  ℕ, String, ◌≡◌, refl, sym, ap, subst, ◌∙◌, inl, inr, true, false, ◌&&◌, some, List, [], ◌∷◌, ◌++◌,
  arith, if◌then◌else◌, eq_iff, Bool-cases,
}
use email_delivery_engine.Prelude.Int.{ℤ}
use email_delivery_engine.Prelude.Members.{find?-update}
use email_delivery_engine.Store.{Status, Message, Database}
use email_delivery_engine.Store.Query.{message_by_id, has_id, is_deferred, deferred_ready}
use email_delivery_engine.Store.Statement.{mark_queued_row}
use email_delivery_engine.Runtime.{
  Answer, Env, Redis, World, fails, skips, ok, ◌>>=◌, caught, query, exec, step,
}
use email_delivery_engine.Runtime.Success.{Responsive}
use email_delivery_engine.Queue.{Streams, command, enqueue}
use email_delivery_engine.Worker.Pipeline.{process}
use email_delivery_engine.Worker.Replay.{progress_of}
use email_delivery_engine.Worker.Guarantees.Settles.{Settled, message_by_id-id, process-settles}
use email_delivery_engine.Worker.Guarantees.Calm.{process-ok}
use email_delivery_engine.Consumer.{deferred_batch, requeue, requeue_all, poll_round}
use email_delivery_engine.Consumer.Requeue.{Appends, poll_round-adds}

-- The row that MarkQueued leaves of a message.
abbrev marked : String → ℕ → Message → Message
marked key t m =
    if has_id key m && is_deferred m.status
    then record m { status = Status.queued; updated_at = t }
    else m

mark_queued_row-row :
    (k key : String) (t : ℕ) (db : Database) (m : Message)
    → message_by_id key db ≡ some m
    → message_by_id key (mark_queued_row k t db) ≡ some (marked k t m)
unfolding message_by_id mark_queued_row
mark_queued_row-row k key t db m h =
    find?-update (λ (x : Message). has_id k x && is_deferred x.status) (has_id key)
      (λ (x : Message). record x { status = Status.queued; updated_at = t }) (λ x. refl) db.messages
      h

marked-same :
    (k : String) (t : ℕ) (m : Message)
    → (has_id k m && is_deferred m.status) ≡ false
    → marked k t m ≡ m
marked-same k t m h = rw h refl

-- The row is that of the message, marked as queued at some time.
abbrev Queued : String → Message → Database → Type 0
Queued key m db =
    (t : ℕ) × (message_by_id key db ≡ some (record m { status = Status.queued; updated_at = t }))

module _ {R : Type 0} (streams : Streams R) (env : Env)
    (calm : (t : ℕ) → env.answer t ≡ Answer.works) where
  requeue-marks :
      (key : String) (w : World R)
      → ((requeue (acts env) (stream_commands streams) key w).0 ≡ ok tt)
        × ((requeue (acts env) (stream_commands streams) key w).1.db
            ≡ mark_queued_row key (env.clock w.tick) w.db)
  unfolding requeue ◌>>=◌ caught exec enqueue command
  requeue-marks key w = rw calm (refl, refl)

  requeue-row :
      (k key : String) (m : Message) (w : World R)
      → message_by_id key w.db ≡ some m
      → message_by_id key (requeue (acts env) (stream_commands streams) k w).1.db
        ≡ some (marked k (env.clock w.tick) m)
  requeue-row k key m w h =
      ap (message_by_id key) (requeue-marks k w).1
      ∙ mark_queued_row-row k key (env.clock w.tick) w.db m h

  requeue_all-keeps :
      (keys : List String) (key : String) (m : Message) (w : World R)
      → is_deferred m.status ≡ false
      → message_by_id key w.db ≡ some m
      → message_by_id key (requeue_all (acts env) (stream_commands streams) keys w).1.db ≡ some m
  unfolding requeue_all ◌>>=◌
  requeue_all-keeps [] key m w held h = h
  requeue_all-keeps (k ∷ keys) key m w held h = rw (requeue-marks k w).0 (
      requeue_all-keeps keys key m (requeue (acts env) (stream_commands streams) k w).1 held
        (requeue-row k key m w h ∙ ap some (marked-same k (env.clock w.tick) m (ground arith))))

  requeue_all-Queued :
      (keys : List String) (key : String) (m : Message) (w : World R)
      → Memᴰ key keys
      → is_deferred m.status ≡ true
      → m.id ≡ key
      → message_by_id key w.db ≡ some m
      → Queued key m (requeue_all (acts env) (stream_commands streams) keys w).1.db
  unfolding requeue_all ◌>>=◌
  requeue_all-Queued [] key m w there waits own h = elim there [ ]
  requeue_all-Queued (k ∷ keys) key m w there waits own h = elim (Bool-cases (has_id k m)) [
    | inl t ↦ rw (requeue-marks k w).0 (
      env.clock w.tick,
      requeue_all-keeps keys key _ (requeue (acts env) (stream_commands streams) k w).1 refl
          (requeue-row k key m w h ∙ ap some (rw (t, waits) refl)),
    )
    | inr f ↦ rw (requeue-marks k w).0 (
        requeue_all-Queued keys key m (requeue (acts env) (stream_commands streams) k w).1
          (elim there [
            | Memᴰ.head e ↦ cc ((eq_iff m.id k).1 (own ∙ e), f)
            | Memᴰ.tail later ↦ later
          ])
          waits own
          (requeue-row k key m w h ∙ ap some (marked-same k (env.clock w.tick) m (ground arith))))
  ]

  poll_round-Queued :
      (key : String) (m : Message) (w : World R)
      → message_by_id key w.db ≡ some m
      → m.status ≡ Status.deferred
      → Memᴰ key (deferred_ready deferred_batch (env.clock w.tick) w.db)
      → Queued key m (poll_round (acts env) (stream_commands streams) w).1.db
  unfolding poll_round ◌>>=◌ caught query
  poll_round-Queued key m w stored waits ready = rw calm (
      requeue_all-Queued (deferred_ready deferred_batch (env.clock w.tick) w.db) key m (step env w)
        ready (ap is_deferred waits) (message_by_id-id key w.db m stored) stored)

mem-behind : {A : Type 0} {a : A} (xs ys : List A) → Memᴰ a ys → Memᴰ a (xs ++ ys)
mem-behind [] ys h = h
mem-behind (x ∷ xs) ys h = Memᴰ.tail (mem-behind xs ys h)

-- A message that a poll hands to a consumer: it is on the stream, its row waits as queued and is else
-- as it was, and the call for it decides about it.
pub record Redelivered {R : Type 0} (added : R → List String) (max_attempts : ℤ) (key : String)
    (m : Message) (polled processed : World R) : Type 0 where
  pub on_stream : Memᴰ key (added polled.redis)
  pub queued : Queued key m polled.db
  pub decided :
      (row : Message) × (message_by_id key processed.db ≡ some row)
      × Settled max_attempts m.attempt_count (progress_of row)

module _ {R : Type 0} (redis : Redis R) (answers : Responsive redis) (streams : Streams R)
    (added : R → List String) (appends : Appends streams added) (env : Env)
    (calm : (t : ℕ) → env.answer t ≡ Answer.works) (max_attempts : ℤ) where
  -- When no statement fails, Redis appends what is added and replies to the limiter, a deferred message
  -- that is in a poll's batch is put on the stream and marked as queued, and the call of `process` for
  -- it then decides about it: it is terminal, or it waits for a time that is set, with no attempt used
  -- up or with one that leaves another. At most one attempt is used up.
  pub poll_round-Redelivered :
      (key : String) (m : Message) (w : World R)
      → message_by_id key w.db ≡ some m
      → m.status ≡ Status.deferred
      → Memᴰ key (deferred_ready deferred_batch (env.clock w.tick) w.db)
      → Redelivered added max_attempts key m
          (poll_round (acts env) (stream_commands streams) w).1
          (process
            (commands redis)
            (acts env)
            max_attempts
            key
            (poll_round (acts env) (stream_commands streams) w).1).1
  poll_round-Redelivered key m w stored waits ready =
      let polled = (poll_round (acts env) (stream_commands streams) w).1 in
      let (t, found) = poll_round-Queued streams env calm key m w stored waits ready in
      record {
        on_stream =
            subst (Memᴰ key) (sym (poll_round-adds streams added appends env calm w))
              (mem-behind (added w.redis) _ ready);
        queued = (t, found);
        decided =
            process-settles redis env max_attempts key polled
              (record m { status = Status.queued; updated_at = t }) found refl
              (ap skips (calm polled.tick))
              (process-ok redis answers env (λ i. ap fails (calm i)) max_attempts key polled);
      }
