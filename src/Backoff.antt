-- ===== src/Backoff.antt =====
-- data-plane/internal/backoff/backoff.go: the delay before the next attempt. Durations are
-- nanoseconds. `rng.Int63n(n)` is `draw % n` of a raw draw, so it takes every value below n.
pub mod Bounds
use email_delivery_engine.Prelude.{
  ℕ, ◌+◌, ◌*◌, ◌/◌, ◌%◌, Bool, true, false, List, [], ◌∷◌, length, get_or, if◌then◌else◌,
}
use email_delivery_engine.Prelude.Int.{ℤ, pos, pos_part, ◌-ℤ◌, ltb_ℤ, leb_ℤ}

abbrev pub second : ℕ
second = 1000000000

abbrev pub minute : ℕ
minute = 60 * second

abbrev pub hour : ℕ
hour = 60 * minute

abbrev pub base_delays : List ℕ
base_delays = (30 * second) ∷ (2 * minute) ∷ (10 * minute) ∷ []

-- `[base/2, base]`, by the draw.
unfoldable pub with_jitter : ℕ → ℕ → ℕ
with_jitter base draw = let half = base / 2 in half + draw % (half + 1)

-- The index into `base_delays`, clamped at both ends.
unfoldable pub delay_index : ℤ → ℤ
delay_index attempts_made =
    let idx = attempts_made -ℤ pos 1 in
    let low = if ltb_ℤ idx (pos 0) then pos 0 else idx in
    if leb_ℤ (pos (length base_delays)) low then pos (length base_delays) -ℤ pos 1 else low

-- The delay, and whether the attempts are exhausted.
unfoldable pub next_delay : ℤ → ℤ → ℕ → ℕ × Bool
unfolding with_jitter delay_index
next_delay attempts_made max_attempts draw =
    if leb_ℤ max_attempts attempts_made
    then (0, true)
    else (with_jitter (get_or base_delays (pos_part (delay_index attempts_made)) 0) draw, false)
