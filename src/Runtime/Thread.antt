-- ===== src/Runtime/Thread.antt =====
-- A call as a tree of its statements, so that statements of other workers can come between them: the
-- second implementation of the interface.
use email_delivery_engine.Prelude.{String}
use email_delivery_engine.Runtime.{
  Env, Redis, World, Result, ok, err, Action, wrap_result, count, gauge, query, exec, now, random,
}
use email_delivery_engine.Runtime.Interface.{Ops, Limiter, unlocked}
use email_delivery_engine.Throttle.{incr, expire}
use email_delivery_engine.Queue.{Streams, Stream, enqueue, read, reclaim, ack, depth}

-- A call that has ended, or one statement: what it does to the world, and how the call goes on by the
-- world that it has met.
pub data Thread (R A : Type 0) : Type 0 where
  ended : Result A → Thread R A
  statement : (World R → World R) → (World R → Thread R A) → Thread R A

module _ {R : Type 0} where
  -- An action without a point where others can come between.
  abbrev pub atomic : {A : Type 0} → Action R A → Thread R A
  atomic m = statement (λ w. (m w).1) (λ w. ended (m w).0)

  unfoldable pub thread_bind : {A B : Type 0} → Thread R A → (A → Thread R B) → Thread R B
  thread_bind (ended (ok a)) f = f a
  thread_bind (ended (err e)) f = ended (err e)
  thread_bind (statement act next) f = statement act (λ w. thread_bind (next w) f)

  unfoldable pub thread_wrapping : {A : Type 0} → String → Thread R A → Thread R A
  thread_wrapping what (ended r) = ended (wrap_result what r)
  thread_wrapping what (statement act next) = statement act (λ w. thread_wrapping what (next w))

  unfoldable pub thread_caught : {A : Type 0} → Thread R A → Thread R (Result A)
  thread_caught (ended r) = ended (ok r)
  thread_caught (statement act next) = statement act (λ w. thread_caught (next w))

  -- The statements one after another, with nothing between.
  unfoldable pub alone : {A : Type 0} → Thread R A → Action R A
  alone (ended r) w = (r, w)
  alone (statement act next) w = alone (next w) (act w)

  abbrev pub thread_ops : Env → Ops (Thread R)
  thread_ops env = record {
    return = λ a. ended (ok a);
    fail = λ e. ended (err e);
    bind = thread_bind;
    wrapping = thread_wrapping;
    caught = thread_caught;
    count = λ name. atomic (count name);
    gauge = λ name n. atomic (gauge name n);
    query = λ f. atomic (query env f);
    fetch_unlocked = λ f. atomic (unlocked env f);
    exec = λ f. atomic (exec env f);
    now = atomic (now env);
    random = atomic (random env);
  }

  abbrev pub thread_commands : Redis R → Limiter (Thread R)
  thread_commands redis = record {
    incr = λ key. atomic (incr redis key);
    expire = λ key seconds. atomic (expire redis key seconds);
  }

  abbrev pub thread_stream : Streams R → Stream (Thread R)
  thread_stream streams = record {
    enqueue = λ key. atomic (enqueue streams key);
    read = λ count block. atomic (read streams count block);
    reclaim = λ min_idle count. atomic (reclaim streams min_idle count);
    ack = λ key. atomic (ack streams key);
    depth = atomic (depth streams);
  }
