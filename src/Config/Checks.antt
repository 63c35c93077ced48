-- ===== src/Config/Checks.antt =====
-- When `Load` of internal/config/config.go succeeds.
use email_delivery_engine.Prelude.{if◌then◌else◌}
use email_delivery_engine.Prelude.Int.{ℤ, pos, ltb_ℤ}
use email_delivery_engine.Config.{Config, Loaded, ready, refused, max_attempts_below_one}

abbrev of_number : Config → ℤ → Loaded
of_number c n = if ltb_ℤ n (pos 1) then refused (max_attempts_below_one n) else ready c
