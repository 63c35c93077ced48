-- ===== src/Interleaving/Alone.antt =====
-- A round of a loop of data-plane/cmd/worker/main.go, or a call of `Process`, whose statements nothing
-- comes between.
use email_delivery_engine.Queue.{Streams, stream_commands}
use email_delivery_engine.Consumer.{Work, work}
use email_delivery_engine.Consumer.Traversal.{ClosedRounds, on_work}
use email_delivery_engine.Prelude.{String, ◌≡◌, refl, ap, ◌∙◌, Bool, true, false, if◌then◌else◌}
use email_delivery_engine.Prelude.Int.{ℤ}
use email_delivery_engine.Runtime.{
  Env, Redis, World, Result, ok, err, Action, continue, ◌>>=◌, wrapping, wrap_result, caught,
}
use email_delivery_engine.Runtime.Interface.{acts}
use email_delivery_engine.Runtime.Closed.{Closed}
use email_delivery_engine.Runtime.Thread.{
  Thread, ended, statement, atomic, thread_bind, thread_wrapping, thread_caught, alone, thread_ops,
  thread_commands, thread_stream,
}
use email_delivery_engine.Throttle.{commands}
use email_delivery_engine.Worker.Pipeline.{process}
use email_delivery_engine.Worker.Traversal.{on_process, on_select_route}

record Alike {R A : Type 0} (t : Thread R A) (m : Action R A) : Type 0 where
  same : (w : World R) → alone t w ≡ m w

module _ {R : Type 0} where
  alone-bind :
      {A B : Type 0} (t : Thread R A) (f : A → Thread R B) (w : World R)
      → alone (thread_bind t f) w ≡ continue (alone t w).0 (λ a. alone (f a)) (alone t w).1
  unfolding alone thread_bind
  alone-bind (ended (ok a)) f w = refl
  alone-bind (ended (err e)) f w = refl
  alone-bind (statement act next) f w = alone-bind (next w) f (act w)

  alone-wrapping :
      {A : Type 0} (what : String) (t : Thread R A) (w : World R)
      → alone (thread_wrapping what t) w ≡ (wrap_result what (alone t w).0, (alone t w).1)
  unfolding alone thread_wrapping
  alone-wrapping what (ended r) w = refl
  alone-wrapping what (statement act next) w = alone-wrapping what (next w) (act w)

  alone-caught :
      {A : Type 0} (t : Thread R A) (w : World R)
      → alone (thread_caught t) w ≡ (ok (alone t w).0, (alone t w).1)
  unfolding alone thread_caught
  alone-caught (ended r) w = refl
  alone-caught (statement act next) w = alone-caught (next w) (act w)

  continue-Alike :
      {A B : Type 0} (r : Result A) (f : A → Thread R B) (g : A → Action R B) (w : World R)
      → ((a : A) → Alike (f a) (g a))
      → continue r (λ a. alone (f a)) w ≡ continue r g w
  continue-Alike (ok a) f g w h = (h a).same w
  continue-Alike (err e) f g w h = refl

  Alike-atomic : {A : Type 0} (m : Action R A) → Alike (atomic m) m
  Alike-atomic m = record { same = λ w. unfold alone in refl }

  Alike-bind :
      {A B : Type 0} (t : Thread R A) (m : Action R A) (f : A → Thread R B) (g : A → Action R B)
      → Alike t m
      → ((a : A) → Alike (f a) (g a))
      → Alike (thread_bind t f) (m >>= g)
  unfolding ◌>>=◌
  Alike-bind t m f g h k = record {
    same = λ w.
        alone-bind t f w
        ∙ ap (λ (x : Result _ × World R). continue x.0 (λ a. alone (f a)) x.1) (h.same w)
        ∙ continue-Alike (m w).0 f g (m w).1 k;
  }

  Alike-wrapping :
      {A : Type 0} (what : String) (t : Thread R A) (m : Action R A)
      → Alike t m
      → Alike (thread_wrapping what t) (wrapping what m)
  unfolding wrapping
  Alike-wrapping what t m h = record {
    same = λ w.
        alone-wrapping what t w
        ∙ ap (λ (x : Result _ × World R). (wrap_result what x.0, x.1)) (h.same w);
  }

  Alike-caught :
      {A : Type 0} (t : Thread R A) (m : Action R A)
      → Alike t m
      → Alike (thread_caught t) (caught m)
  unfolding caught
  Alike-caught t m h = record {
    same = λ w. alone-caught t w ∙ ap (λ (x : Result _ × World R). (ok x.0, x.1)) (h.same w);
  }

  Alike-if :
      {A : Type 0} (b : Bool) (t t' : Thread R A) (m m' : Action R A)
      → Alike t m
      → Alike t' m'
      → Alike (if b then t else t') (if b then m else m')
  Alike-if true t t' m m' h k = h
  Alike-if false t t' m m' h k = k

module _ {R : Type 0} (redis : Redis R) (env : Env) where
  Alike-Closed :
      Closed
        (thread_commands redis)
        (thread_ops env)
        (commands redis)
        (acts env)
        (λ A t m. Alike t m)
  Alike-Closed = record {
    on_return = λ a. record { same = λ w. unfold alone in refl };
    on_bind = Alike-bind;
    on_if = Alike-if;
    on_wrapping = Alike-wrapping;
    on_count = λ name. Alike-atomic _;
    on_query = λ f. Alike-atomic _;
    on_fetch = λ f. Alike-atomic _;
    on_exec = λ f. Alike-atomic _;
    on_now = Alike-atomic _;
    on_random = Alike-atomic _;
    on_incr = λ key. Alike-atomic _;
    on_expire = λ key n. Alike-atomic _;
  }

  -- The statements of a call one after another, with nothing between, are the call: the same result,
  -- and the same world.
  process-alone :
      (max_attempts : ℤ) (key : String) (w : World R)
      → alone (process (thread_commands redis) (thread_ops env) max_attempts key) w
        ≡ process (commands redis) (acts env) max_attempts key w
  process-alone max_attempts key w =
      (on_process (thread_commands redis) (thread_ops env) (commands redis) (acts env)
          (λ A t m. Alike t m) Alike-Closed
          (λ msg customer. Alike-caught _ _ (
            on_select_route (thread_commands redis) (thread_ops env) (commands redis) (acts env)
              (λ A t m. Alike t m) Alike-Closed (λ e. record { same = λ v. unfold alone in refl })
              msg customer))
          max_attempts key).same
        w

module _ {R : Type 0} (redis : Redis R) (streams : Streams R) (env : Env) (max_attempts : ℤ) where
  Alike-ClosedRounds :
      ClosedRounds
        (thread_ops env)
        (thread_commands redis)
        (thread_stream streams)
        (acts env)
        (commands redis)
        (stream_commands streams)
        max_attempts
        (λ A t m. Alike t m)
  Alike-ClosedRounds = record {
    on_return = λ a. record { same = λ w. unfold alone in refl };
    on_bind = Alike-bind;
    on_if = Alike-if;
    on_caught = Alike-caught;
    on_count = λ name. Alike-atomic _;
    on_depth_gauge = λ n. Alike-atomic _;
    on_query = λ f. Alike-atomic _;
    on_mark = λ key. Alike-atomic _;
    on_limit = λ key. Alike-atomic _;
    on_enqueue = λ key. Alike-atomic _;
    on_read = λ n block. Alike-atomic _;
    on_reclaim = λ idle n. Alike-atomic _;
    on_ack = λ key. Alike-atomic _;
    on_depth = Alike-atomic _;
    on_process = λ key. record { same = process-alone redis env max_attempts key };
  }

  -- The statements of a round of any of the loops one after another, with nothing between, are the
  -- round: the same result, and the same world.
  work-alone :
      (k : Work) (w : World R)
      → alone
          (work (thread_ops env) (thread_commands redis) (thread_stream streams) max_attempts k)
          w
        ≡ work (acts env) (commands redis) (stream_commands streams) max_attempts k w
  work-alone k w =
      (on_work (thread_ops env) (thread_commands redis) (thread_stream streams) (acts env)
          (commands redis) (stream_commands streams) max_attempts (λ A t m. Alike t m)
          Alike-ClosedRounds k).same
        w
