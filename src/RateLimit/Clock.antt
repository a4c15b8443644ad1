-- ===== src/RateLimit/Clock.antt =====
-- Durations in whole seconds, as the limiters of master/src/ratelimit.rs report them.
use honey.Prelude.{ℕ, ◌+◌, ◌-◌, ◌/◌, ◌^◌, min}

abbrev pub second : ℕ
second = 1_000_000_000

-- `Duration::as_secs`, then `saturating_add(1)` on a u64
abbrev pub secs_up : ℕ → ℕ
secs_up d = min (d / second + 1) (2 ^ 64 - 1)
