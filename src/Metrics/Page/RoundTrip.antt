-- ===== src/Metrics/Page/RoundTrip.antt =====
-- Reading the page of internal/metrics/metrics.go gives the values of the registry.
use email_delivery_engine.Prelude.{
  ℕ, zero, suc, ◌+◌, ◌-◌, ◌≡◌, ◌≢◌, refl, sym, ap, ◌∙◌, inl, inr, none, some, List, [], ◌∷◌, ◌++◌,
  All, arith, ltb, leb, ◌==◌, length, Bool-cases,
}
use email_delivery_engine.Prelude.Text.{digits_value}
use email_delivery_engine.Prelude.Decimal.{decimal, IsDigit, decimal-IsDigit, digits_value-decimal}
use email_delivery_engine.Metrics.Page.{strip_zeros, pointed, exponent, scientific, format_g}
use email_delivery_engine.Metrics.Page.Scrape.{split_on, zeros, shifted, read_g}

abbrev pub Lacks : ℕ → List ℕ → Type 0
Lacks c = All (λ x. x ≢ c)

split_on-none : (c : ℕ) (s : List ℕ) → Lacks c s → split_on c s ≡ none
unfolding split_on
split_on-none c [] h = refl
split_on-none c (x ∷ xs) h = ground (arith, h.0, split_on-none c xs h.1)

pub split_on-append :
    (c : ℕ) (s rest : List ℕ) → Lacks c s → split_on c (s ++ (c ∷ rest)) ≡ some (s, rest)
unfolding split_on
split_on-append c [] rest h = ground arith
split_on-append c (x ∷ xs) rest h = ground (arith, h.0, split_on-append c xs rest h.1)

pub digits-Lacks : (c : ℕ) (s : List ℕ) → ((x : ℕ) → IsDigit x → x ≢ c) → All IsDigit s → Lacks c s
digits-Lacks c [] apart h = tt
digits-Lacks c (x ∷ xs) apart h = (apart x h.0, digits-Lacks c xs apart h.1)

not_e : (x : ℕ) → IsDigit x → x ≢ b'e'
not_e x h = λ e. absurd (omega arith)

not_point : (x : ℕ) → IsDigit x → x ≢ b'.'
not_point x h = λ e. absurd (omega arith)

-- The zeros that are taken off.
strip_zeros-rest :
    (ds : List ℕ)
    → (k : ℕ) × (strip_zeros ds ++ zeros k ≡ ds) × (length (strip_zeros ds) + k ≡ length ds)
unfolding strip_zeros
strip_zeros-rest [] = (0, refl, refl)
strip_zeros-rest (c ∷ cs) =
    let (k, same, count) = strip_zeros-rest cs in from (strip_zeros cs) refl k same count
  where
    from :
        (r : List ℕ)
        → strip_zeros cs ≡ r
        → (k : ℕ) → strip_zeros cs ++ zeros k ≡ cs
        → length (strip_zeros cs) + k ≡ length cs
        → (k : ℕ) × (strip_zeros (c ∷ cs) ++ zeros k ≡ c ∷ cs)
          × (length (strip_zeros (c ∷ cs)) + k ≡ suc (length cs))
    from [] e k same count = elim (Bool-cases (c == b'0')) [
      | inl t ↦
          let zero_first : c ≡ b'0' = ground arith in
          let behind : zeros k ≡ cs = rw e at same in
          let length_behind : 0 + k ≡ length cs = rw e at count in
          (suc k, rw (e, t) (cc), rw (e, t) (omega arith))
      | inr f ↦
          let behind : zeros k ≡ cs = rw e at same in
          let length_behind : 0 + k ≡ length cs = rw e at count in
          (k, rw (e, f) (cc), rw (e, f) (omega arith))
    ]
    from (d ∷ r) e k same count =
        let behind : (d ∷ r) ++ zeros k ≡ cs = rw e at same in
        let length_behind : length (d ∷ r) + k ≡ length cs = rw e at count in
        elim (Bool-cases (c == b'0')) [
          | inl t ↦ (k, rw (e, t) (ap (λ l. c ∷ l) behind), rw (e, t) (omega arith))
          | inr f ↦ (k, rw (e, f) (ap (λ l. c ∷ l) behind), rw (e, f) (omega arith))
        ]

pub strip_zeros-IsDigit : (ds : List ℕ) → All IsDigit ds → All IsDigit (strip_zeros ds)
unfolding strip_zeros
strip_zeros-IsDigit [] h = tt
strip_zeros-IsDigit (c ∷ cs) h = ground (arith, strip_zeros-IsDigit cs h.1)

digits_value-zeros : (k : ℕ) → digits_value 0 (zeros k) ≡ some 0
unfolding digits_value
digits_value-zeros zero = refl
digits_value-zeros (suc k) = ground (arith, digits_value-zeros k)

exponent-value : (e : ℕ) → digits_value 0 (exponent e) ≡ some e
exponent-value e = elim (Bool-cases (ltb e 10)) [
  | inl t ↦ rw t (unfold digits_value in digits_value-decimal e)
  | inr f ↦ rw f (digits_value-decimal e)
]

pointed-Lacks_e : (s : List ℕ) → All IsDigit s → Lacks b'e' (pointed s)
pointed-Lacks_e [] h = tt
pointed-Lacks_e (d ∷ []) h = (not_e d h.0, tt)
pointed-Lacks_e (d ∷ e ∷ r) h =
    (not_e d h.0, (λ x. absurd (omega arith), digits-Lacks b'e' (e ∷ r) not_e h.1))

-- Moving the point back over the digits that are left gives the digits with their zeros.
shifted-pointed :
    (s ds : List ℕ) (k : ℕ)
    → All IsDigit s
    → s ++ zeros k ≡ ds
    → length s + k ≡ length ds
    → shifted (split_on b'.' (pointed s)) (pointed s) (length ds - 1) ≡ digits_value 0 ds
shifted-pointed [] ds k h same count =
    rw (split_on-none b'.' [] tt)
      (digits_value-zeros (length ds - 1) ∙ sym (digits_value-zeros k) ∙ ap (digits_value 0) same)
shifted-pointed (d ∷ []) ds k h same count =
    let moved : length ds - 1 ≡ k = omega arith in
    rw (split_on-none b'.' (d ∷ []) (not_point d h.0, tt), moved) (ap (digits_value 0) same)
shifted-pointed (d ∷ e ∷ r) ds k h same count =
    let moved : length ds - 1 - suc (length r) ≡ k = omega arith in
    rw (split_on-append b'.' (d ∷ []) (e ∷ r) (not_point d h.0, tt), moved)
      (ap (digits_value 0) same)

read_g-scientific : (ds : List ℕ) → All IsDigit ds → read_g (scientific ds) ≡ digits_value 0 ds
unfolding read_g scientific
read_g-scientific ds h =
    let (k, same, count) = strip_zeros-rest ds in
    let stripped = strip_zeros-IsDigit ds h in
    rw
      (
        split_on-append b'e' (pointed (strip_zeros ds)) (b'+' ∷ exponent (length ds - 1))
            (pointed-Lacks_e (strip_zeros ds) stripped),
        exponent-value (length ds - 1),
      )
      (shifted-pointed (strip_zeros ds) ds k stripped same count)

-- A value that is printed with %g is read back, also where it has an exponent.
pub read_g-format_g : (n : ℕ) → read_g (format_g n) ≡ some n
unfolding format_g
read_g-format_g n = elim (Bool-cases (leb (length (decimal n)) 6)) [
  | inl t ↦ rw t (read_g-plain (decimal n) (decimal-IsDigit n) ∙ digits_value-decimal n)
  | inr f ↦ rw f (read_g-scientific (decimal n) (decimal-IsDigit n) ∙ digits_value-decimal n)
]
  where
    read_g-plain : (ds : List ℕ) → All IsDigit ds → read_g ds ≡ digits_value 0 ds
    read_g-plain ds h =
        unfold read_g in rw (split_on-none b'e' ds (digits-Lacks b'e' ds not_e h)) refl
