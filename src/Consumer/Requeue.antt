-- ===== src/Consumer/Requeue.antt =====
-- What a poll of `runDeferredPoller` in cmd/worker/main.go puts on the stream.
use email_delivery_engine.Queue.{stream_commands}
use email_delivery_engine.Runtime.Interface.{acts}
use mathlib.Core.List.{append-nil, append_assoc}
use email_delivery_engine.Prelude.{ℕ, String, ◌≡◌, refl, sym, ap, ◌∙◌, true, List, [], ◌∷◌, ◌++◌}
use email_delivery_engine.Store.Query.{deferred_ready}
use email_delivery_engine.Runtime.{Answer, Env, World, ok, ◌>>=◌, caught, query, exec, step}
use email_delivery_engine.Queue.{Streams, command, enqueue}
use email_delivery_engine.Consumer.{deferred_batch, requeue, requeue_all, poll_round}

-- The documented behaviour of XADD: it replies, and the entry stands at the end of the stream, whose
-- messages `added` lists.
pub record Appends {R : Type 0} (streams : Streams R) (added : R → List String) : Type 0 where
  pub xadd_reply : (key : String) (s : R) → (streams.xadd key s).0 ≡ true
  pub xadd_added : (key : String) (s : R) → added (streams.xadd key s).1 ≡ added s ++ (key ∷ [])

module _ {R : Type 0} (streams : Streams R) (added : R → List String)
    (appends : Appends streams added) (env : Env)
    (calm : (t : ℕ) → env.answer t ≡ Answer.works) where
  requeue-adds :
      (key : String) (w : World R)
      → ((requeue (acts env) (stream_commands streams) key w).0 ≡ ok tt)
        × (added (requeue (acts env) (stream_commands streams) key w).1.redis
            ≡ added w.redis ++ (key ∷ []))
  unfolding requeue ◌>>=◌ caught exec enqueue command
  requeue-adds key w = rw calm (refl, appends.xadd_added key w.redis)

  requeue_all-adds :
      (keys : List String) (w : World R)
      → added (requeue_all (acts env) (stream_commands streams) keys w).1.redis
        ≡ added w.redis ++ keys
  unfolding requeue_all ◌>>=◌
  requeue_all-adds [] w = sym (append-nil (added w.redis))
  requeue_all-adds (key ∷ keys) w =
      let one = requeue-adds key w in
      rw one.0 (
        requeue_all-adds keys (requeue (acts env) (stream_commands streams) key w).1
        ∙ ap (λ xs. xs ++ keys) one.1
        ∙ append_assoc (added w.redis) (key ∷ []) keys)

  -- When no statement fails and Redis appends what is added, a poll puts on the stream exactly the
  -- identities that `deferred_ready` gives for its time, in their order.
  pub poll_round-adds :
      (w : World R)
      → added (poll_round (acts env) (stream_commands streams) w).1.redis
        ≡ added w.redis ++ deferred_ready deferred_batch (env.clock w.tick) w.db
  unfolding poll_round ◌>>=◌ caught query
  poll_round-adds w =
      rw calm
        (requeue_all-adds (deferred_ready deferred_batch (env.clock w.tick) w.db) (step env w))
