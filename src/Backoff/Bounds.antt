-- ===== src/Backoff/Bounds.antt =====
-- The range of the delays of internal/backoff/backoff.go, and their growth.
use email_delivery_engine.Prelude.{
  ℕ, zero, suc, ◌*◌, ◌/◌, ◌≤◌, ◌<◌, ◌≡◌, refl, ◌↔◌, true, arith, get_or,
}
use email_delivery_engine.Prelude.Int.{ℤ, pos, negsuc, ◌≤ℤ◌, ◌<ℤ◌, pos_part}
use email_delivery_engine.Backoff.{
  second, minute, base_delays, with_jitter, delay_index, next_delay,
}

pub with_jitter_bounds :
    (base draw : ℕ) → (base / 2 ≤ with_jitter base draw) × (with_jitter base draw ≤ base)
unfolding with_jitter
with_jitter_bounds base draw = (omega arith, omega arith)

-- The schedule of the package comment, by the number of attempts made.
abbrev pub scheduled : ℤ → ℕ
scheduled (pos zero) = 30 * second
scheduled (pos (suc zero)) = 30 * second
scheduled (pos (suc (suc zero))) = 2 * minute
scheduled (pos (suc (suc (suc n)))) = 10 * minute
scheduled (negsuc n) = 30 * second

scheduled-index : (a : ℤ) → get_or base_delays (pos_part (delay_index a)) 0 ≡ scheduled a
unfolding delay_index
scheduled-index (pos zero) = refl
scheduled-index (pos (suc zero)) = refl
scheduled-index (pos (suc (suc zero))) = refl
scheduled-index (pos (suc (suc (suc n)))) = ground arith
scheduled-index (negsuc n) = ground arith

-- The attempts are exhausted exactly when as many were made as are allowed.
next_delay-exhausted_iff : (a m : ℤ) (draw : ℕ) → ((next_delay a m draw).1 ≡ true) ↔ (m ≤ℤ a)
unfolding next_delay
next_delay-exhausted_iff a m draw = (λ h. ground arith, λ h. ground arith)

-- While attempts are left, the delay lies between half of the scheduled delay and all of it: 30s
-- after the first attempt (or none), 2m after the second, 10m after each later one.
pub next_delay_bounds :
    (a m : ℤ) (draw : ℕ)
    → a <ℤ m
    → (scheduled a / 2 ≤ (next_delay a m draw).0) × ((next_delay a m draw).0 ≤ scheduled a)
unfolding next_delay
next_delay_bounds a m draw h =
    ground (arith, scheduled-index a, with_jitter_bounds (scheduled a) draw)

-- Up to the third attempt every delay is longer than the one before it, whatever the jitter.
next_delay_grows :
    (k : ℕ) (m : ℤ) (d e : ℕ)
    → k < 2
    → pos (suc (suc k)) <ℤ m
    → (next_delay (pos (suc k)) m d).0 < (next_delay (pos (suc (suc k))) m e).0
next_delay_grows zero m d e h l =
    omega (arith, next_delay_bounds (pos 1) m d, next_delay_bounds (pos 2) m e)
next_delay_grows (suc zero) m d e h l =
    omega (arith, next_delay_bounds (pos 2) m d, next_delay_bounds (pos 3) m e)
next_delay_grows (suc (suc k)) m d e h l = absurd (omega arith)
