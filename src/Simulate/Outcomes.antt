-- ===== src/Simulate/Outcomes.antt =====
-- The outcomes of internal/simulate/simulate.go: hints, provider health, and the agreement of the
-- status code with the classification.
use email_delivery_engine.Prelude.{ℕ, String, ◌≡◌, refl, ◌⊎◌, inl, inr, arith}
use email_delivery_engine.Prelude.Int.{ℤ, pos, ◌≤ℤ◌, ◌<ℤ◌}
use email_delivery_engine.Classify.{Kind, delivered, hard_bounce, policy_rejection}
use email_delivery_engine.Classify.FirstMatch.{is_retryable}
use email_delivery_engine.Simulate.{
  Reputation, DeliveryResult, health_response, hint_response, raw_response, result_of, simulate,
}

-- The class of an SMTP status code that goes with a kind: 2xx for a delivery, 5xx for a permanent
-- refusal, 4xx for what is retried.
abbrev pub CodeFits : Kind → ℤ → Type 0
CodeFits delivered c = (pos 200 ≤ℤ c) × (c <ℤ pos 300)
CodeFits hard_bounce c = (pos 500 ≤ℤ c) × (c <ℤ pos 600)
CodeFits policy_rejection c = (pos 500 ≤ℤ c) × (c <ℤ pos 600)
CodeFits _ c = (pos 400 ≤ℤ c) × (c <ℤ pos 500)

abbrev pub IsSound : DeliveryResult → Type 0
IsSound r = (r.retryable ≡ is_retryable r.classification) × CodeFits r.classification r.smtp_code

-- The eight responses of the simulator.
abbrev IsResponse : String → Type 0
IsResponse s =
    ((s ≡ "550 5.1.1 user unknown") ⊎ (s ≡ "452 4.2.2 mailbox full"))
    ⊎ (((s ≡ "421 4.7.0 rate limited") ⊎ (s ≡ "451 4.7.1 try again later"))
        ⊎ (((s ≡ "554 5.7.1 message rejected as spam")
              ⊎ (s ≡ "451 4.3.0 temporary failure in processing"))
            ⊎ ((s ≡ "421 4.7.0 try again later") ⊎ (s ≡ "250 2.0.0 OK queued as delivered"))))

raw_response-IsResponse : (e : String) (r : Reputation) (d : ℕ) → IsResponse (raw_response e r d)
unfolding raw_response hint_response health_response
raw_response-IsResponse e r d = ground arith

IsResponse-IsSound : (s : String) → IsResponse s → IsSound (result_of s)
unfolding result_of
IsResponse-IsSound s (inl (inl e)) = rw e (refl, omega arith)
IsResponse-IsSound s (inl (inr e)) = rw e (refl, omega arith)
IsResponse-IsSound s (inr (inl (inl e))) = rw e (refl, omega arith)
IsResponse-IsSound s (inr (inl (inr e))) = rw e (refl, omega arith)
IsResponse-IsSound s (inr (inr (inl (inl e)))) = rw e (refl, omega arith)
IsResponse-IsSound s (inr (inr (inl (inr e)))) = rw e (refl, omega arith)
IsResponse-IsSound s (inr (inr (inr (inl e)))) = rw e (refl, omega arith)
IsResponse-IsSound s (inr (inr (inr (inr e)))) = rw e (refl, omega arith)

-- Whatever the recipient, the provider's state and the draw, the simulated result is coherent: its
-- retryable flag is that of its kind, and its status code is 2xx for a delivery, 5xx for a hard
-- bounce or a policy rejection and 4xx for every kind that is retried.
pub simulate-IsSound : (e : String) (r : Reputation) (d : ℕ) → IsSound (simulate e r d)
unfolding simulate
simulate-IsSound e r d = IsResponse-IsSound (raw_response e r d) (raw_response-IsResponse e r d)
