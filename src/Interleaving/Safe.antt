-- ===== src/Interleaving/Safe.antt =====
-- What a call does among others. `Rely` is what the others may do between its statements, `Guar` what
-- each of its own statements does.
use email_delivery_engine.Prelude.{String}
use email_delivery_engine.Runtime.{World, Result, ok, err, wrap_result}
use email_delivery_engine.Runtime.Thread.{
  Thread, ended, statement, thread_bind, thread_wrapping, thread_caught,
}

module _ {R : Type 0} (Rely Guar : World R → World R → Type 0) where
  -- From this world on, each statement does what is guaranteed, whatever the others have done before
  -- it, and the end is as it should be.
  unfoldable pub Safe : {A : Type 0} → (Result A → World R → Type 0) → Thread R A → World R → Type 0
  Safe Post (ended r) w = Post r w
  Safe Post (statement act next) w =
      (v : World R) → Rely w v → Guar v (act v) × Safe Post (next v) (act v)

  pub Safe-bind :
      {A B : Type 0} (Mid : Result A → World R → Type 0) (Post : Result B → World R → Type 0)
      (t : Thread R A) (f : A → Thread R B) (w : World R)
      → Safe Mid t w
      → ((a : A) (v : World R) → Mid (ok a) v → Safe Post (f a) v)
      → ((v : World R) (e : _) → Mid (err e) v → Post (err e) v)
      → Safe Post (thread_bind t f) w
  unfolding Safe thread_bind
  Safe-bind Mid Post (ended (ok a)) f w h more_after fails = more_after a w h
  Safe-bind Mid Post (ended (err e)) f w h more_after fails = fails w e h
  Safe-bind Mid Post (statement act next) f w h more_after fails = λ v r.
      let (does, rest) = h v r in
      (does, Safe-bind Mid Post (next v) f (act v) rest more_after fails)

  pub Safe-weaken :
      {A : Type 0} (Post More : Result A → World R → Type 0) (t : Thread R A) (w : World R)
      → ((r : Result A) (v : World R) → Post r v → More r v)
      → Safe Post t w
      → Safe More t w
  unfolding Safe
  Safe-weaken Post More (ended r) w more h = more r w h
  Safe-weaken Post More (statement act next) w more h =
      λ v r. let (does, rest) = h v r in (does, Safe-weaken Post More (next v) (act v) more rest)

  pub Safe-wrapping :
      {A : Type 0} (what : String) (Post More : Result A → World R → Type 0) (t : Thread R A)
      (w : World R)
      → ((r : Result A) (v : World R) → Post r v → More (wrap_result what r) v)
      → Safe Post t w
      → Safe More (thread_wrapping what t) w
  unfolding Safe thread_wrapping
  Safe-wrapping what Post More (ended r) w more h = more r w h
  Safe-wrapping what Post More (statement act next) w more h = λ v r.
      let (does, rest) = h v r in (does, Safe-wrapping what Post More (next v) (act v) more rest)

  pub Safe-caught :
      {A : Type 0} (Post : Result A → World R → Type 0)
      (More : Result (Result A) → World R → Type 0) (t : Thread R A) (w : World R)
      → ((r : Result A) (v : World R) → Post r v → More (ok r) v)
      → Safe Post t w
      → Safe More (thread_caught t) w
  unfolding Safe thread_caught
  Safe-caught Post More (ended r) w more h = more r w h
  Safe-caught Post More (statement act next) w more h =
      λ v r. let (does, rest) = h v r in (does, Safe-caught Post More (next v) (act v) more rest)

  module _ (trans : (u v w : World R) → Rely u v → Rely v w → Rely u w) where
    -- What the others do leaves a call safe.
    pub Safe-rely :
        {A : Type 0} (Post : Result A → World R → Type 0)
        → ((r : Result A) (v w : World R) → Rely v w → Post r v → Post r w)
        → (t : Thread R A) (v w : World R) → Rely v w
        → Safe Post t v
        → Safe Post t w
    unfolding Safe
    Safe-rely Post stable (ended r) v w moves h = stable r v w moves h
    Safe-rely Post stable (statement act next) v w moves h = λ x r. h x (trans v w x moves r)
