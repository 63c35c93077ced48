-- ===== src/Simulate.antt =====
-- data-plane/internal/simulate/simulate.go: the simulated SMTP response of a delivery attempt.
-- Addresses are ASCII. `rng.Float64()` is the 53-bit fraction `draw % 2 ^ 53` of a raw draw, and the
-- constant 0.6 is the double next to it, 5404319552844595 / 2 ^ 53.
pub mod Outcomes
pub mod Hints
use email_delivery_engine.Prelude.{
  ℕ, ◌%◌, ◌^◌, String, Bool, ◌||◌, Option, none, some, List, [], ◌∷◌, ltb, ◌==◌, if◌then◌else◌,
}
use email_delivery_engine.Prelude.Int.{ℤ, pos}
use email_delivery_engine.Prelude.Text.{codes, contains, to_lower, first_field, atoi}
use email_delivery_engine.Classify.{Kind, Outcome, classify}

-- The enum provider_reputation_state of the schema.
pub data Reputation : Type 0 where
  healthy degraded down : Reputation

-- store.DeliveryResult.
pub record DeliveryResult : Type 0 where
  pub smtp_code : ℤ
  pub raw_response : String
  pub classification : Kind
  pub retryable : Bool
  pub reason : String

-- The text before the last `@`; `none` where there is no `@`.
unfoldable pub before_last_at : List ℕ → Option (List ℕ)
before_last_at [] = none
before_last_at (c ∷ cs) = elim (before_last_at cs) [
  | some rest ↦ some (c ∷ rest)
  | none ↦ if c == b'@' then some [] else none
]

unfoldable pub local_part : List ℕ → List ℕ
unfolding before_last_at
local_part email = elim (before_last_at email) [ some l ↦ l | none ↦ email ]

-- `roll(rng) < 0.6`.
unfoldable pub roll_below : ℕ → Bool
roll_below draw = ltb (draw % 2 ^ 53) 5404319552844595

-- The second `switch`, on the provider's health.
unfoldable pub health_response : Reputation → ℕ → String
unfolding roll_below
health_response down draw = "421 4.7.0 try again later"
health_response degraded draw =
    if roll_below draw then "421 4.7.0 rate limited" else "250 2.0.0 OK queued as delivered"
health_response healthy draw = "250 2.0.0 OK queued as delivered"

abbrev pub has : List ℕ → String → Bool
has s phrase = contains s (codes phrase)

-- The first `switch`, on the hints in the lower-cased local part.
unfoldable pub hint_response : List ℕ → Option String
unfolding contains
hint_response name =
    if has name "bounce" || has name "unknown"
    then some "550 5.1.1 user unknown"
    else if has name "full"
    then some "452 4.2.2 mailbox full"
    else if has name "ratelimit"
    then some "421 4.7.0 rate limited"
    else if has name "defer" || has name "greylist"
    then some "451 4.7.1 try again later"
    else if has name "spam"
    then some "554 5.7.1 message rejected as spam"
    else if has name "tempfail"
    then some "451 4.3.0 temporary failure in processing"
    else none

abbrev pub or_health : Option String → Reputation → ℕ → String
or_health (some raw) reputation draw = raw
or_health none reputation draw = health_response reputation draw

unfoldable pub raw_response : String → Reputation → ℕ → String
unfolding local_part hint_response health_response to_lower
raw_response to_email reputation draw =
    or_health (hint_response (to_lower (local_part (codes to_email)))) reputation draw

unfoldable pub parse_smtp_code : List ℕ → ℤ
unfolding first_field atoi
parse_smtp_code raw = elim (first_field raw) [
  | none ↦ pos 0
  | some field ↦ elim (atoi field) [ none ↦ pos 0 | some c ↦ c ]
]

-- What `Simulate` builds from a raw response.
unfoldable pub result_of : String → DeliveryResult
unfolding parse_smtp_code classify
result_of raw =
    let res = classify (codes raw) in
    record {
      smtp_code = parse_smtp_code (codes raw);
      raw_response = raw;
      classification = res.classification;
      retryable = res.retryable;
      reason = res.reason;
    }

unfoldable pub simulate : String → Reputation → ℕ → DeliveryResult
unfolding result_of raw_response
simulate to_email reputation draw = result_of (raw_response to_email reputation draw)
