-- ===== src/Simulate/Hints.antt =====
-- The hints of internal/simulate/simulate.go: what the recipient's local part forces, and what is
-- left to the provider's health.
use email_delivery_engine.Prelude.{
  ℕ, String, ◌≡◌, ◌≢◌, refl, false, none, some, List, [], ◌∷◌, ◌++◌, All, arith, ap, ◌∙◌,
}
use email_delivery_engine.Prelude.Text.{codes, to_lower}
use email_delivery_engine.Classify.{hard_bounce}
use email_delivery_engine.Classify.Search.{Occurs, contains_iff}
use email_delivery_engine.Simulate.{
  Reputation, before_last_at, local_part, hint_response, raw_response, result_of, simulate,
}

abbrev pub NoAt : List ℕ → Type 0
NoAt = All (λ c. c ≢ b'@')

before_last_at-none : (s : List ℕ) → NoAt s → before_last_at s ≡ none
unfolding before_last_at
before_last_at-none [] h = refl
before_last_at-none (c ∷ cs) h = ground (arith, before_last_at-none cs h.1)

before_last_at-append :
    (name domain : List ℕ) → NoAt domain → before_last_at (name ++ b'@' ∷ domain) ≡ some name
unfolding before_last_at
before_last_at-append [] domain h = ground (arith, before_last_at-none domain h)
before_last_at-append (c ∷ cs) domain h = ground (arith, before_last_at-append cs domain h)

-- The local part is everything before the last `@`, and the whole text where there is none.
local_part-append :
    (name domain : List ℕ)
    → NoAt domain
    → (local_part (name ++ b'@' ∷ domain) ≡ name) × (local_part domain ≡ domain)
unfolding local_part
local_part-append name domain h =
    ground (arith, before_last_at-append name domain h, before_last_at-none domain h)

module _ (e : String) (name domain : List ℕ) (plain : NoAt domain)
    (address : codes e ≡ name ++ b'@' ∷ domain) where
  named : to_lower (local_part (codes e)) ≡ to_lower name
  named = ap to_lower (ap local_part address ∙ (local_part-append name domain plain).0)

  -- A recipient whose local part holds "bounce", in any letter case, hard-bounces without a retry,
  -- whatever the provider's state and the draw.
  pub simulate-bounce_hint :
      Occurs (codes "bounce") (to_lower name)
      → (r : Reputation) (d : ℕ)
      → ((simulate e r d).classification ≡ hard_bounce) × ((simulate e r d).retryable ≡ false)
  unfolding simulate raw_response hint_response
  simulate-bounce_hint hint r d =
      rw (named, (contains_iff (to_lower name) (codes "bounce")).1 hint)
        (unfold result_of in (refl, refl))
