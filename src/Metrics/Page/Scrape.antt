-- ===== src/Metrics/Page/Scrape.antt =====
-- A reader of the page that `Handler` of internal/metrics/metrics.go writes: the samples of a text in
-- the exposition format, where lines that begin with # are comments.
use email_delivery_engine.Prelude.{
  ℕ, zero, suc, ◌-◌, Option, none, some, List, [], ◌∷◌, ◌++◌, ◌==◌, if◌then◌else◌, length,
}
use email_delivery_engine.Prelude.Text.{digits_value}

-- The text before the first code of a kind and the text behind it.
unfoldable pub split_on : ℕ → List ℕ → Option (List ℕ × List ℕ)
split_on c [] = none
split_on c (x ∷ xs) =
    if x == c
    then some ([], xs)
    else (elim (split_on c xs) [ none ↦ none | some (a, b) ↦ some (x ∷ a, b) ])

abbrev pub zeros : ℕ → List ℕ
zeros zero = []
zeros (suc n) = b'0' ∷ zeros n

-- Digits whose point is moved to the right.
abbrev pub shifted : Option (List ℕ × List ℕ) → List ℕ → ℕ → Option ℕ
shifted none digits e = digits_value 0 (digits ++ zeros e)
shifted (some (whole, fraction)) digits e =
    digits_value 0 (whole ++ (fraction ++ zeros (e - length fraction)))

-- "+digits"
abbrev pub read_exponent : List ℕ → Option ℕ
read_exponent [] = none
read_exponent (c ∷ cs) = if c == b'+' then digits_value 0 cs else none

abbrev pub read_shifted : List ℕ → Option ℕ → Option ℕ
read_shifted digits none = none
read_shifted digits (some e) = shifted (split_on b'.' digits) digits e

abbrev pub read_parts : Option (List ℕ × List ℕ) → List ℕ → Option ℕ
read_parts none s = digits_value 0 s
read_parts (some (digits, e)) s = read_shifted digits (read_exponent e)

-- A whole number, with an exponent or without.
unfoldable pub read_g : List ℕ → Option ℕ
unfolding split_on digits_value
read_g s = read_parts (split_on b'e' s) s

abbrev pub onto_first : ℕ → List (List ℕ) → List (List ℕ)
onto_first c [] = (c ∷ []) ∷ []
onto_first c (l ∷ ls) = (c ∷ l) ∷ ls

-- The lines of a text; behind the last newline stands one more.
unfoldable pub lines : List ℕ → List (List ℕ)
lines [] = [] ∷ []
lines (c ∷ cs) = if c == b'\n' then [] ∷ lines cs else onto_first c (lines cs)

abbrev pub named_value : List ℕ → Option ℕ → Option (List ℕ × ℕ)
named_value name none = none
named_value name (some v) = some (name, v)

abbrev pub sample_parts : Option (List ℕ × List ℕ) → Option (List ℕ × ℕ)
sample_parts none = none
sample_parts (some (name, value)) = named_value name (read_g value)

unfoldable pub sample_of : List ℕ → Option (List ℕ × ℕ)
unfolding read_g
sample_of [] = none
sample_of (c ∷ cs) = if c == b'#' then none else sample_parts (split_on b' ' (c ∷ cs))

abbrev pub with_sample : Option (List ℕ × ℕ) → List (List ℕ × ℕ) → List (List ℕ × ℕ)
with_sample none rest = rest
with_sample (some s) rest = s ∷ rest

unfoldable pub samples_of : List (List ℕ) → List (List ℕ × ℕ)
unfolding sample_of
samples_of [] = []
samples_of (l ∷ ls) = with_sample (sample_of l) (samples_of ls)

unfoldable pub samples : List ℕ → List (List ℕ × ℕ)
unfolding samples_of lines
samples text = samples_of (lines text)
