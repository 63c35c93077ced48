-- ===== src/Classify.antt =====
-- data-plane/internal/classify/classify.go: the rule table and the first match over it.
-- The Go type Kind is a string type with the constants below; here it is a data type, and
-- `kind_name` gives the strings that reach the database. Phrases and responses are ASCII.
pub mod Search
pub mod FirstMatch
use email_delivery_engine.Prelude.{ℕ, String, Bool, true, false, List, [], ◌∷◌, if◌then◌else◌}
use email_delivery_engine.Prelude.Text.{codes, contains, to_lower}

pub data Kind : Type 0 where
  delivered hard_bounce soft_bounce provider_deferral rate_limited transient_failure
        policy_rejection :
      Kind

unfoldable pub kind_name : Kind → String
kind_name delivered = "delivered"
kind_name hard_bounce = "hard_bounce"
kind_name soft_bounce = "soft_bounce"
kind_name provider_deferral = "provider_deferral"
kind_name rate_limited = "rate_limited"
kind_name transient_failure = "transient_failure"
kind_name policy_rejection = "policy_rejection"

-- `Result` of the Go package.
pub record Outcome : Type 0 where
  pub classification : Kind
  pub retryable : Bool
  pub reason : String

pub record Rule : Type 0 where
  pub substr : String
  pub result : Outcome

abbrev rule : String → Kind → Bool → String → Rule
rule phrase k retry why = record {
  substr = phrase;
  result = record { classification = k; retryable = retry; reason = why };
}

unfoldable pub rules : List Rule
rules =
    rule "user unknown" hard_bounce false "Recipient address does not exist"
    ∷ rule "no such user" hard_bounce false "Recipient address does not exist"
    ∷ rule "mailbox unavailable" hard_bounce false "Recipient mailbox is unavailable"
    ∷ rule "does not exist" hard_bounce false "Recipient address does not exist"
    ∷ rule "mailbox full" soft_bounce true "Recipient mailbox is full — retry later"
    ∷ rule "over quota" soft_bounce true "Recipient over quota — retry later"
    ∷ rule "rate limited" rate_limited true "Provider rate-limited the sender"
    ∷ rule "too many" rate_limited true "Provider rate-limited the sender"
    ∷ rule "try again later" provider_deferral true "Provider asked sender to try again later"
    ∷ rule "greylist" provider_deferral true "Provider greylisted the message — retry later"
    ∷ rule "deferred" provider_deferral true "Provider deferred the message"
    ∷ rule "spam" policy_rejection false "Rejected by provider spam policy"
    ∷ rule "blocked" policy_rejection false "Rejected by provider policy"
    ∷ rule "policy" policy_rejection false "Rejected by provider policy"
    ∷ rule "temporary failure" transient_failure true "Temporary failure — retry"
    ∷ rule "temporarily" transient_failure true "Temporary failure — retry"
    ∷ []

abbrev pub accepted : Outcome
accepted = record {
  classification = delivered;
  retryable = false;
  reason = "Message accepted by provider";
}

-- The loop of `Classify` over the rules that are left.
unfoldable pub first_match : List ℕ → List Rule → Outcome
unfolding contains
first_match lower [] = accepted
first_match lower (r ∷ rs) =
    if contains lower (codes r.substr) then r.result else first_match lower rs

unfoldable pub classify : List ℕ → Outcome
unfolding first_match rules to_lower
classify raw = first_match (to_lower raw) rules
