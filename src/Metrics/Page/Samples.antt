-- ===== src/Metrics/Page/Samples.antt =====
-- The samples of the page of internal/metrics/metrics.go are the entries of the registry.
use email_delivery_engine.Prelude.{
  ℕ, String, ◌≡◌, ◌≢◌, refl, ap, ◌∙◌, inl, inr, false, none, some, List, [], ◌∷◌, ◌++◌, map, All,
  arith, ltb, leb, ◌==◌, str_eq, length, Bool-cases,
}
use email_delivery_engine.Prelude.Text.{codes}
use email_delivery_engine.Prelude.Decimal.{decimal, IsDigit, decimal-IsDigit}
use email_delivery_engine.Metrics.{MetricType, counter, gauge, Entry, Registry}
use email_delivery_engine.Metrics.Page.{
  strip_zeros, pointed, exponent, scientific, format_g, line, type_name, help_text, type_text,
  value_text, with_help, render,
}
use email_delivery_engine.Metrics.Page.Scrape.{lines, sample_of, with_sample, samples_of, samples}
use email_delivery_engine.Metrics.Page.RoundTrip.{
  Lacks, split_on-append, digits-Lacks, strip_zeros-IsDigit, read_g-format_g,
}

-- A name that can stand in a sample: it has no space and no newline, and begins with no #.
pub record IsMetricName (name : String) : Type 0 where
  pub first : ℕ
  pub others : List ℕ
  pub begins : codes name ≡ first ∷ others
  pub no_comment : first ≢ b'#'
  pub no_space : Lacks b' ' (codes name)
  pub no_newline : Lacks b'\n' (codes name)

-- Entries whose names can stand in samples, and whose help texts stand on one line.
abbrev pub IsPrintable : Registry → Type 0
IsPrintable = All (λ (m : String × Entry). IsMetricName m.0 × Lacks b'\n' (codes m.1.help))

Lacks-append : (c : ℕ) (xs ys : List ℕ) → Lacks c xs → Lacks c ys → Lacks c (xs ++ ys)
Lacks-append c [] ys h k = k
Lacks-append c (x ∷ xs) ys h k = (h.0, Lacks-append c xs ys h.1 k)

not_newline : (x : ℕ) → IsDigit x → x ≢ b'\n'
not_newline x h = λ e. absurd (omega arith)

pointed-one_line : (s : List ℕ) → All IsDigit s → Lacks b'\n' (pointed s)
pointed-one_line [] h = tt
pointed-one_line (d ∷ []) h = (not_newline d h.0, tt)
pointed-one_line (d ∷ e ∷ r) h =
    (not_newline d h.0, (λ x. absurd (omega arith), digits-Lacks b'\n' (e ∷ r) not_newline h.1))

decimal-one_line : (n : ℕ) → Lacks b'\n' (decimal n)
decimal-one_line n = digits-Lacks b'\n' (decimal n) not_newline (decimal-IsDigit n)

exponent-one_line : (e : ℕ) → Lacks b'\n' (exponent e)
exponent-one_line e = elim (Bool-cases (ltb e 10)) [
  | inl t ↦ rw t (λ x. absurd (omega arith), decimal-one_line e)
  | inr f ↦ rw f (decimal-one_line e)
]

format_g-one_line : (n : ℕ) → Lacks b'\n' (format_g n)
unfolding format_g scientific
format_g-one_line n = elim (Bool-cases (leb (length (decimal n)) 6)) [
  | inl t ↦ rw t (decimal-one_line n)
  | inr f ↦ rw f (
      Lacks-append b'\n' (pointed (strip_zeros (decimal n))) _
        (pointed-one_line (strip_zeros (decimal n))
          (strip_zeros-IsDigit (decimal n) (decimal-IsDigit n)))
        (λ x. absurd (omega arith), (λ x. absurd (omega arith), exponent-one_line _)))
]

lines-line : (l rest : List ℕ) → Lacks b'\n' l → lines (line l rest) ≡ l ∷ lines rest
unfolding lines
lines-line [] rest h = refl
lines-line (c ∷ cs) rest h = ground (arith, h.0, lines-line cs rest h.1)

samples-line :
    (l rest : List ℕ)
    → Lacks b'\n' l
    → samples (line l rest) ≡ with_sample (sample_of l) (samples rest)
unfolding samples samples_of
samples-line l rest h = rw (lines-line l rest h) refl

type_name-one_line : (t : MetricType) → Lacks b'\n' (codes (type_name t))
type_name-one_line counter = ground arith
type_name-one_line gauge = ground arith

sample_of-comment : (rest : List ℕ) → sample_of (b'#' ∷ rest) ≡ none
unfolding sample_of
sample_of-comment rest = refl

sample_of-pair :
    (s : List ℕ) (c v : ℕ) (cs : List ℕ)
    → s ≡ c ∷ cs
    → c ≢ b'#'
    → Lacks b' ' s
    → sample_of (s ++ (b' ' ∷ format_g v)) ≡ some (s, v)
unfolding sample_of
sample_of-pair [] c v cs e ne lacks = cc
sample_of-pair (x ∷ xs) c v cs e ne lacks =
    let same : x ≡ c = ground arith in
    let test : (x == b'#') ≡ false = ground (arith, λ (h : c ≡ b'#'). ne h) in
    rw (test, split_on-append b' ' (x ∷ xs) (format_g v) lacks, read_g-format_g v) refl

module _ (name : String) (good : IsMetricName name) where
  type_text-one_line : (t : MetricType) → Lacks b'\n' (type_text name t)
  type_text-one_line t = Lacks-append b'\n' (codes "# TYPE ") _ (ground arith) (
      Lacks-append b'\n' (codes name) _ good.no_newline
        (λ x. absurd (omega arith), type_name-one_line t))

  help_text-one_line :
      (help : String) → Lacks b'\n' (codes help) → Lacks b'\n' (help_text name help)
  help_text-one_line help h =
      Lacks-append b'\n' (codes "# HELP ") _ (ground arith)
        (Lacks-append b'\n' (codes name) _ good.no_newline (λ x. absurd (omega arith), h))

  value_text-one_line : (v : ℕ) → Lacks b'\n' (value_text name v)
  unfolding value_text
  value_text-one_line v =
      Lacks-append b'\n' (codes name) _ good.no_newline
        (λ x. absurd (omega arith), format_g-one_line v)

  sample_of-value : (v : ℕ) → sample_of (value_text name v) ≡ some (codes name, v)
  unfolding value_text
  sample_of-value v =
      sample_of-pair (codes name) good.first v good.others good.begins good.no_comment good.no_space

  samples-help :
      (help : String) (rest : List ℕ)
      → Lacks b'\n' (codes help)
      → samples (with_help name help rest) ≡ samples rest
  samples-help help rest h = elim (Bool-cases (str_eq help "")) [
    | inl t ↦ rw t refl
    | inr f ↦ rw f (
        samples-line (help_text name help) rest (help_text-one_line help h)
        ∙ ap (λ s. with_sample s (samples rest)) (sample_of-comment _))
  ]

-- Reading the lines of a registry that are no comments gives back each name with its value, in order.
pub samples-render :
    (r : Registry)
    → IsPrintable r
    → samples (render r) ≡ map (λ (m : String × Entry). (codes m.0, m.1.value)) r
unfolding render
samples-render [] h = unfold samples samples_of lines sample_of in refl
samples-render ((name, e) ∷ rest) ((good, help_line), more) =
    samples-help name good e.help _ help_line
    ∙ samples-line (type_text name e.typ) _ (type_text-one_line name good e.typ)
    ∙ ap (λ s. with_sample s (samples (line (value_text name e.value) (render rest))))
        (sample_of-comment _)
    ∙ samples-line (value_text name e.value) _ (value_text-one_line name good e.value)
    ∙ rw (sample_of-value name good e.value, samples-render rest more) refl
