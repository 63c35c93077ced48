-- ===== src/Consumer/Loops/Ends.antt =====
-- The loops of cmd/worker/main.go end when the context is cancelled, and are rounds.
use email_delivery_engine.Prelude.{
  ℕ, zero, suc, ◌+◌, ◌≤◌, ◌<◌, ◌≡◌, refl, ap, ◌∙◌, inl, inr, false, Option, none, some, List, [],
  ◌∷◌, All, arith, length, Bool-cases, Option-cases,
}
use email_delivery_engine.Prelude.Int.{ℤ}
use email_delivery_engine.Runtime.{Env, Redis, World, caught, ◌>>=◌}
use email_delivery_engine.Queue.{Streams, read}
use email_delivery_engine.Consumer.{
  Round, consuming, reclaiming, polling, sweeping, measuring, run_round, run_rounds, read_batch,
  read_block, consume_round,
}
use email_delivery_engine.Consumer.Loops.{
  Pass, goes_on, consumer_pass, consumer_loop, run_consumer, ticker_loop, run_deferred_poller,
  run_abuse_sweeps, run_metrics_updater,
}

module _ {R : Type 0} (redis : Redis R) (streams : Streams R) (max_attempts : ℤ) where
  -- A run that ends with the state that these rounds leave.
  pub record Ends (most : ℕ) (P : Round → Type 0) (w : World R) (result : Option (World R))
      : Type 0 where
    pub rounds : List Round
    pub each : All P rounds
    pub bounded : length rounds ≤ most
    pub final : result ≡ some (run_rounds redis streams max_attempts rounds w)

  Ends-after :
      {most : ℕ} {P : Round → Type 0} {w : World R} {result : Option (World R)} (r : Round)
      → P r
      → Ends most P (run_round redis streams max_attempts r w).1 result
      → Ends (suc most) P w result
  Ends-after r p e =
      let short = e.bounded in
      record { rounds = r ∷ e.rounds; each = (p, e.each); bounded = omega arith; final = e.final }

  Ends-now : {most : ℕ} {P : Round → Type 0} (w : World R) → Ends most P w (some w)
  Ends-now w = record { rounds = []; each = tt; bounded = omega arith; final = refl }

-- What the loop of `runConsumer` may do.
abbrev pub IsConsuming : Round → Type 0
IsConsuming (consuming env) = Unit
IsConsuming (reclaiming env) = Unit
IsConsuming _ = ⊥

abbrev pub IsPolling : Round → Type 0
IsPolling (polling env) = Unit
IsPolling _ = ⊥

abbrev pub IsSweeping : Round → Type 0
IsSweeping (sweeping env) = Unit
IsSweeping _ = ⊥

abbrev pub IsMeasuring : Round → Type 0
IsMeasuring (measuring env) = Unit
IsMeasuring _ = ⊥

module _ {R : Type 0} (redis : Redis R) (streams : Streams R) (max_attempts : ℤ) where
  consumer_pass-round :
      (p : Pass) (w : World R)
      → (consumer_pass redis streams max_attempts p w).1
        ≡ (run_round redis streams max_attempts (consuming p.env) w).1
  unfolding consumer_pass consume_round caught ◌>>=◌
  consumer_pass-round p w = refl

  consumer_loop-Ends :
      (passes : ℕ → Pass) (fuel k j : ℕ) (w : World R)
      → (passes (k + j)).live ≡ false
      → k < fuel
      → Ends redis streams max_attempts k IsConsuming w
          (consumer_loop redis streams max_attempts passes fuel j w)
  unfolding consumer_loop
  consumer_loop-Ends passes zero k j w h enough = absurd (omega arith)
  consumer_loop-Ends passes (suc fuel) zero j w h enough =
      let stop : (passes j).live ≡ false = ap (λ i. (passes i).live) (omega arith) ∙ h in
      rw stop (Ends-now redis streams max_attempts w)
  consumer_loop-Ends passes (suc fuel) (suc k) j w h enough =
      let p = passes j in
      let w' = (run_round redis streams max_attempts (consuming p.env) w).1 in
      let rest =
        consumer_loop-Ends passes fuel k (suc j) w' (ap (λ i. (passes i).live) (omega arith) ∙ h)
          (omega arith) in
      elim (Bool-cases p.live) [
        | inr f ↦ rw f (Ends-now redis streams max_attempts w)
        | inl t ↦
            elim (Bool-cases (goes_on p.live_after (read streams read_batch read_block w).0)) [
              | inl more ↦
                  rw (t, more, consumer_pass-round p w)
                    (Ends-after redis streams max_attempts (consuming p.env) tt rest)
              | inr last ↦
                  rw (t, last, consumer_pass-round p w)
                    (Ends-after redis streams max_attempts (consuming p.env) tt
                      (Ends-now redis streams max_attempts w'))
            ]
      ]

  -- A consumer loop whose context is cancelled at some pass ends by then, on any fuel above the
  -- number of that pass, and what it has done is at most that many rounds.
  pub run_consumer-Ends :
      (env : Env) (passes : ℕ → Pass) (n fuel : ℕ) (w : World R)
      → (passes n).live ≡ false
      → n < fuel
      → Ends redis streams max_attempts
          (suc n)
          IsConsuming
          w
          (run_consumer redis streams max_attempts env passes fuel w)
  unfolding run_consumer
  run_consumer-Ends env passes n fuel w h enough =
      Ends-after redis streams max_attempts (reclaiming env) tt
        (consumer_loop-Ends passes fuel n 0 _ (ap (λ i. (passes i).live) (omega arith) ∙ h) enough)

  ticker_loop-Ends :
      (P : Round → Type 0) (round : Env → Round)
      → ((env : Env) → P (round env))
      → (chosen : ℕ → Option Env) (fuel k j : ℕ) (w : World R) → chosen (k + j) ≡ none
      → k < fuel
      → Ends redis streams max_attempts k P w (
          ticker_loop
            (λ env w. (run_round redis streams max_attempts (round env) w).1)
            chosen
            fuel
            j
            w)
  unfolding ticker_loop
  ticker_loop-Ends P round p chosen zero k j w h enough = absurd (omega arith)
  ticker_loop-Ends P round p chosen (suc fuel) zero j w h enough =
      let stop : chosen j ≡ none = ap chosen (omega arith) ∙ h in
      rw (stop, ticker_loop) (Ends-now redis streams max_attempts w)
  ticker_loop-Ends P round p chosen (suc fuel) (suc k) j w h enough =
      let rest = λ (env : Env).
        ticker_loop-Ends P round p chosen fuel k (suc j)
          (run_round redis streams max_attempts (round env) w).1 (ap chosen (omega arith) ∙ h)
          (omega arith) in
      elim (Option-cases (chosen j)) [
        | inl n ↦ rw (n, ticker_loop) (Ends-now redis streams max_attempts w)
        | inr (env, s) ↦
            rw (s, ticker_loop)
              (Ends-after redis streams max_attempts (round env) (p env) (rest env))
      ]

  -- A ticker loop that is told to stop at its n-th choice ends by then, on any fuel above n, and what
  -- it has done is at most n rounds of its own kind: for the deferred poller, for the abuse sweep and
  -- for the metrics updater.
  pub tickers-Ends :
      (chosen : ℕ → Option Env) (n fuel : ℕ) (w : World R)
      → chosen n ≡ none
      → n < fuel
      → Ends redis streams max_attempts n IsPolling w (run_deferred_poller chosen fuel streams w)
        × Ends redis streams max_attempts n IsSweeping w (run_abuse_sweeps chosen fuel w)
        × Ends redis streams max_attempts n IsMeasuring w
            (run_metrics_updater chosen fuel streams w)
  unfolding run_deferred_poller run_abuse_sweeps run_metrics_updater
  tickers-Ends chosen n fuel w h enough =
      let stop : chosen (n + 0) ≡ none = ap chosen (omega arith) ∙ h in
      (
        ticker_loop-Ends IsPolling polling (λ env. tt) chosen fuel n 0 w stop enough,
        ticker_loop-Ends IsSweeping sweeping (λ env. tt) chosen fuel n 0 w stop enough,
        ticker_loop-Ends IsMeasuring measuring (λ env. tt) chosen fuel n 0 w stop enough,
      )
