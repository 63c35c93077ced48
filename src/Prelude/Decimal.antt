-- ===== src/Prelude/Decimal.antt =====
-- Decimal digits as codes, and that reading them back gives the number.
use Prim.Native.Nat.{ℕ, zero, suc, ◌+◌, ◌-◌, ◌*◌, ◌/◌, ◌%◌, ◌≤◌, ◌<◌}
use mathlib.Core.Path.{◌≡◌, ap, ◌∙◌}
use mathlib.Core.Logic.{inl, inr}
use mathlib.Core.List.{List, [], ◌∷◌, ◌++◌}
use mathlib.Core.Option.{Option, none, some}
use native.Mathlib.Omega.{arith}
use email_delivery_engine.Prelude.Tests.{ltb, if◌then◌else◌, Bool-cases}
use email_delivery_engine.Prelude.Lists.{All}
use email_delivery_engine.Prelude.Text.{digits_value}

-- n / 10 is below n, so n + 1 rounds are enough for n.
unfoldable pub decimal_within : ℕ → ℕ → List ℕ
decimal_within zero n = []
decimal_within (suc fuel) n =
    let front = decimal_within fuel (n / 10) in
    if ltb n 10 then (b'0' + n) ∷ [] else front ++ ((b'0' + n % 10) ∷ [])

unfoldable pub decimal : ℕ → List ℕ
unfolding decimal_within
decimal n = decimal_within (suc n) n

abbrev pub IsDigit : ℕ → Type 0
IsDigit c = (b'0' ≤ c) × (c ≤ b'9')

All-snoc {ℓ κ} :
    {A : Type ℓ} (P : A → Type κ) (xs : List A) (x : A) → All P xs → P x → All P (xs ++ (x ∷ []))
All-snoc P [] x h p = (p, tt)
All-snoc P (y ∷ ys) x h p = (h.0, All-snoc P ys x h.1 p)

decimal_within-IsDigit : (fuel n : ℕ) → All IsDigit (decimal_within fuel n)
unfolding decimal_within
decimal_within-IsDigit zero n = tt
decimal_within-IsDigit (suc fuel) n = elim (Bool-cases (ltb n 10)) [
  | inl t ↦ rw t ((omega arith, ground arith), tt)
  | inr f ↦ rw f (
      All-snoc IsDigit (decimal_within fuel (n / 10)) (b'0' + n % 10)
        (decimal_within-IsDigit fuel (n / 10)) (omega arith, omega arith))
]

pub decimal-IsDigit : (n : ℕ) → All IsDigit (decimal n)
unfolding decimal
decimal-IsDigit n = decimal_within-IsDigit (suc n) n

-- One more digit behind.
abbrev then_digit : Option ℕ → ℕ → Option ℕ
then_digit none c = none
then_digit (some v) c = some (v * 10 + (c - b'0'))

digits_value-snoc :
    (acc : ℕ) (xs : List ℕ) (c : ℕ)
    → IsDigit c
    → digits_value acc (xs ++ (c ∷ [])) ≡ then_digit (digits_value acc xs) c
unfolding digits_value
digits_value-snoc acc [] c h = ground arith
digits_value-snoc acc (x ∷ xs) c h =
    ground (arith, digits_value-snoc (acc * 10 + (x - b'0')) xs c h)

decimal_within-value : (fuel n : ℕ) → n < fuel → digits_value 0 (decimal_within fuel n) ≡ some n
unfolding decimal_within
decimal_within-value zero n h = absurd (omega arith)
decimal_within-value (suc fuel) n h = elim (Bool-cases (ltb n 10)) [
  | inl t ↦ rw t (unfold digits_value in ground arith)
  | inr f ↦
      let front = decimal_within-value fuel (n / 10) (ground arith) in
      rw f (
        digits_value-snoc 0 (decimal_within fuel (n / 10)) (b'0' + n % 10)
          (omega arith, omega arith)
        ∙ ap (λ o. then_digit o (b'0' + n % 10)) front
        ∙ ap some (omega arith))
]

-- Reading the digits of a number gives the number.
pub digits_value-decimal : (n : ℕ) → digits_value 0 (decimal n) ≡ some n
unfolding decimal
digits_value-decimal n = decimal_within-value (suc n) n (omega arith)
