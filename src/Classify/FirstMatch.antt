-- ===== src/Classify/FirstMatch.antt =====
-- What the classifier of internal/classify/classify.go decides, against a description that does not
-- run the loop.
use email_delivery_engine.Prelude.{
  ℕ, ◌≡◌, refl, sym, ap, ◌↔◌, inl, inr, Bool, true, false, List, [], ◌∷◌, All, arith, Bool-cases,
}
use email_delivery_engine.Prelude.Text.{codes, contains, to_lower}
use email_delivery_engine.Classify.{
  Kind, delivered, soft_bounce, provider_deferral, rate_limited, transient_failure, Outcome, Rule,
  rules, accepted, first_match, classify,
}
use email_delivery_engine.Classify.Search.{Occurs, contains_iff, to_lower_idem}

-- The outcome of the first rule whose phrase occurs in `s`, and acceptance where none does.
pub data Decides (s : List ℕ) : List Rule → Outcome → Type 0 where
  by_default : {o : Outcome} → o ≡ accepted → Decides s [] o
  by_rule :
      {o : Outcome} {r : Rule} {rs : List Rule}
      → Occurs (codes r.substr) s
      → o ≡ r.result
      → Decides s (r ∷ rs) o
  skip :
      {o : Outcome} {r : Rule} {rs : List Rule}
      → ¬ Occurs (codes r.substr) s
      → Decides s rs o
      → Decides s (r ∷ rs) o

absent : (s p : List ℕ) → contains s p ≡ false → ¬ Occurs p s
absent s p h o = cc ((contains_iff s p).1 o)

absent→false : (s p : List ℕ) → ¬ Occurs p s → contains s p ≡ false
absent→false s p h = elim (Bool-cases (contains s p)) [
  | inl t ↦ absurd (h ((contains_iff s p).0 t))
  | inr f ↦ f
]

first_match-Decides : (s : List ℕ) (rs : List Rule) → Decides s rs (first_match s rs)
unfolding first_match
first_match-Decides s [] = by_default refl
first_match-Decides s (r ∷ rs) = elim (Bool-cases (contains s (codes r.substr))) [
  | inl t ↦ rw t (by_rule ((contains_iff s (codes r.substr)).0 t) refl)
  | inr f ↦ rw f (skip (absent s (codes r.substr) f) (first_match-Decides s rs))
]

Decides-first_match :
    {s : List ℕ} {rs : List Rule} {o : Outcome} → Decides s rs o → first_match s rs ≡ o
unfolding first_match
Decides-first_match (by_default e) = sym e
Decides-first_match {s} (by_rule {r = r} occurs e) =
    rw ((contains_iff s (codes r.substr)).1 occurs) (sym e)
Decides-first_match {s} (skip {r = r} missing d) =
    rw (absent→false s (codes r.substr) missing) (Decides-first_match d)

-- The classifier returns an outcome exactly when that is the outcome of the first rule of the table
-- whose phrase occurs in the lower-cased response, or acceptance where no phrase occurs.
pub classify_iff_Decides :
    (raw : List ℕ) (o : Outcome) → (classify raw ≡ o) ↔ Decides (to_lower raw) rules o
unfolding classify
classify_iff_Decides raw o =
    (λ e. rw e at (first_match-Decides (to_lower raw) rules), λ d. Decides-first_match d)

-- The kinds that the pipeline retries.
abbrev pub is_retryable : Kind → Bool
is_retryable soft_bounce = true
is_retryable provider_deferral = true
is_retryable rate_limited = true
is_retryable transient_failure = true
is_retryable _ = false

IsConsistent : Rule → Type 0
IsConsistent r = r.result.retryable ≡ is_retryable r.result.classification

first_match-retryable :
    (s : List ℕ) (rs : List Rule)
    → All IsConsistent rs
    → (first_match s rs).retryable ≡ is_retryable (first_match s rs).classification
unfolding first_match IsConsistent
first_match-retryable s [] h = refl
first_match-retryable s (r ∷ rs) h = ground (arith, first_match-retryable s rs h.1)

rules-IsConsistent : All IsConsistent rules
unfolding rules IsConsistent
rules-IsConsistent = ground arith

-- Whatever the response, the retryable flag agrees with the kind: it is set exactly for soft
-- bounces, deferrals, rate limits and transient failures.
classify-retryable :
    (raw : List ℕ) → (classify raw).retryable ≡ is_retryable (classify raw).classification
unfolding classify
classify-retryable raw = first_match-retryable (to_lower raw) rules rules-IsConsistent

IsRefusal : Rule → Type 0
IsRefusal r = ¬ (r.result.classification ≡ delivered)

abbrev pub NoPhrase : List ℕ → List Rule → Type 0
NoPhrase s = All (λ r. ¬ Occurs (codes r.substr) s)

first_match-delivered :
    (s : List ℕ) (rs : List Rule)
    → All IsRefusal rs
    → (first_match s rs).classification ≡ delivered
    → NoPhrase s rs
unfolding first_match IsRefusal
first_match-delivered s [] h e = tt
first_match-delivered s (r ∷ rs) h e = elim (Bool-cases (contains s (codes r.substr))) [
  | inl t ↦ absurd (h.0 (rw t at e))
  | inr f ↦ (absent s (codes r.substr) f, first_match-delivered s rs h.1 (rw f at e))
]

NoPhrase-accepted : (s : List ℕ) (rs : List Rule) → NoPhrase s rs → first_match s rs ≡ accepted
unfolding first_match
NoPhrase-accepted s [] h = refl
NoPhrase-accepted s (r ∷ rs) h =
    rw (absent→false s (codes r.substr) h.0) (NoPhrase-accepted s rs h.1)

rules-IsRefusal : All IsRefusal rules
unfolding rules IsRefusal
rules-IsRefusal = ground arith

-- A response counts as delivered exactly when no phrase of the table occurs in its lower-cased
-- text: the status code is not looked at.
pub classify-delivered_iff :
    (raw : List ℕ) → ((classify raw).classification ≡ delivered) ↔ NoPhrase (to_lower raw) rules
unfolding classify
classify-delivered_iff raw = (
  first_match-delivered (to_lower raw) rules rules-IsRefusal,
  λ h. ap (λ o. o.classification) (NoPhrase-accepted (to_lower raw) rules h),
)

-- Letter case in a response does not matter.
classify-to_lower : (raw : List ℕ) → classify (to_lower raw) ≡ classify raw
unfolding classify
classify-to_lower raw = rw (to_lower_idem raw)
