-- ===== src/RateLimit/Subscription/Budget.antt =====
-- How many requests of one key pass in one window.
use mathlib.Core.Bool.{true}
use honey.Prelude.{
  ℕ, ◌⊎◌, ◌+◌, ◌-◌, ◌≤◌, ◌<◌, ◌^◌, String, ◌≡◌, none, some, List, [], ◌∷◌, length, arith, All, min,
  inl, inr,
}
use honey.Prelude.Keys.{string_eq, keep_if, get, IsUnique}
use honey.RateLimit.Subscription.{
  SubscriptionLimitConfig, SubscriptionEntry, SubscriptionLimiter, LimitDecision, allow, blocked,
  is_live, meter, check,
}
use honey.RateLimit.Subscription.Isolation.{
  found, verdict, check-verdict, get-check, check-IsUnique,
}

abbrev is_allow : LimitDecision → ℕ
is_allow allow = 1
is_allow (blocked _) = 0

-- How many of the requests of one key, at the given instants and wall-clock times, are allowed.
pub allowed : String → SubscriptionLimitConfig → List (ℕ × ℕ) → SubscriptionLimiter → ℕ
allowed key config [] s = 0
allowed key config ((now, unix) ∷ later) s =
    is_allow (check key config now unix s).0
    + allowed key config later (check key config now unix s).1

-- Where the meter of a window that opened at `t0` stands when `b` more requests may pass: only
-- allowed requests were counted, or the budget is spent.
abbrev Stands : SubscriptionLimitConfig → ℕ → ℕ → SubscriptionEntry → Type 0
Stands config t0 b e =
    ((b ≤ config.max_requests)
      × (e
          ≡ record { requests = config.max_requests - b; window_start = t0; blocked_until = none }))
    ⊎ ((b ≡ 0) × (config.max_requests < e.requests) × (e.window_start ≡ t0))

meter-Stands :
    (config : SubscriptionLimitConfig) (t0 b u : ℕ) (e : SubscriptionEntry)
    → config.max_requests < 2 ^ 32 - 1
    → u ≤ t0 + config.window
    → Stands config t0 b e
    → (is_allow (verdict (meter config u e).0 u) ≡ min b 1)
      × Stands config t0 (b - 1) (meter config u e).1
unfolding meter
meter-Stands config t0 b u e few h (inl (fits, same)) = ground arith
meter-Stands config t0 b u e few h (inr (none_left, over, same)) = ground arith

module _ (key : String) (config : SubscriptionLimitConfig) (t0 : ℕ) (on : config.enabled ≡ true)
    (few : config.max_requests < 2 ^ 32 - 1) where
  found_in_window :
      (b u : ℕ) (e : SubscriptionEntry) (s : SubscriptionLimiter)
      → get key s.entries ≡ some e
      → u ≤ t0 + config.window
      → Stands config t0 b e
      → found key config u s ≡ e
  found_in_window b u e s g h (inl (fits, same)) = ground arith
  found_in_window b u e s g h (inr (none_left, over, same)) = ground arith

  check-Stands :
      (b u x : ℕ) (s : SubscriptionLimiter)
      → IsUnique s.entries
      → u ≤ t0 + config.window
      → Stands config t0 b (found key config u s)
      → (is_allow (check key config u x s).0 ≡ min b 1)
        × (e : SubscriptionEntry) × (get key (check key config u x s).1.entries ≡ some e)
        × Stands config t0 (b - 1) e
  check-Stands b u x s uniq h st =
      let (passed, next) = meter-Stands config t0 b u (found key config u s) few h st in
      (
        ground (arith, check-verdict key config u x s on uniq, passed),
        (meter config u (found key config u s)).1,
        ground (arith, get-check key config u x s on uniq key, string_eq.beq_iff key key),
        next,
      )

  allowed-Stands :
      (b : ℕ) (later : List (ℕ × ℕ)) (e : SubscriptionEntry) (s : SubscriptionLimiter)
      → IsUnique s.entries
      → All (λ r. r.0 ≤ t0 + config.window) later
      → get key s.entries ≡ some e
      → Stands config t0 b e
      → allowed key config later s ≡ min b (length later)
  unfolding allowed
  allowed-Stands b [] e s uniq h g st = omega arith
  allowed-Stands b ((u, x) ∷ later) e s uniq (h, hs) g st =
      let st' : Stands config t0 b (found key config u s) =
        rw (found_in_window b u e s g h st) st in
      let (passed, e', g', next) = check-Stands b u x s uniq h st' in
      let rest =
        allowed-Stands (b - 1) later e' (check key config u x s).1
          (check-IsUnique key config u x s on uniq) hs g' next in
      omega (arith, passed, rest)

-- The guard is on, and the key has no live entry when a request comes at `t0`, the first of a
-- sequence of requests that all come before the window that opens at `t0` has elapsed. Then
-- `max_requests` of them pass, or all if there are fewer, whatever blocks end meanwhile.
pub budget_exact :
    (key : String) (config : SubscriptionLimitConfig) (t0 x : ℕ) (later : List (ℕ × ℕ))
    (s : SubscriptionLimiter)
    → config.enabled ≡ true
    → config.max_requests < 2 ^ 32 - 1
    → IsUnique s.entries
    → keep_if (is_live config t0) (get key s.entries) ≡ none
    → All (λ r. r.0 ≤ t0 + config.window) later
    → allowed key config ((t0, x) ∷ later) s ≡ min config.max_requests (1 + length later)
unfolding allowed
budget_exact key config t0 x later s on few uniq stale h =
    let st : Stands config t0 config.max_requests (found key config t0 s) =
      inl (omega arith, ground arith) in
    let (passed, e, g, next) =
      check-Stands key config t0 on few config.max_requests t0 x s uniq (omega arith) st in
    omega (
      arith,
      passed,
      allowed-Stands key config t0 on few (config.max_requests - 1) later e
          (check key config t0 x s).1 (check-IsUnique key config t0 x s on uniq) h g next,
    )
