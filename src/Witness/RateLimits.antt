-- ===== src/Witness/RateLimits.antt =====
-- The two limiters on a few requests.
use honey.Prelude.{
  ℕ, ◌+◌, ◌-◌, ◌&&◌, ◌≡◌, ◌≢◌, refl, String, true, none, some, List, [], ◌∷◌, arith, min, length,
  ltb, leb, if◌then◌else◌,
}
use text.Mathlib.TextEquality.{eq_iff}
use honey.Prelude.Keys.{string_eq, get, retain}
use honey.RateLimit.Clock.{secs_up}
use honey.RateLimit.Login.{lockout, locked_for}
use honey.RateLimit.Login.Lockout.{record_failures, last, lockout_exact}
use honey.RateLimit.Subscription.{
  SubscriptionLimitConfig, SubscriptionLimiter, blocked, check, meter, settle, count_request,
}
use honey.RateLimit.Subscription.Budget.{allowed, budget_exact}

a_not_b : ◌≢◌ {A = String} "a" "b"
a_not_b = ground (arith, eq_iff "a" "b")

abbrev four_more : List ℕ
four_more = 2 ∷ 3 ∷ 4 ∷ 5 ∷ []

lockout_exact_example : (locked_for "a" 7 8 9 (record_failures "a" (1 ∷ four_more) [])).0 ≡ (
    if leb 5 (1 + length four_more) && ltb 8 (last 1 four_more + lockout)
    then some (secs_up (last 1 four_more + lockout - 9))
    else none)
unfolding get
lockout_exact_example =
    lockout_exact "a" [] 1 four_more 7 8 9 tt refl
      (omega arith, (omega arith, (omega arith, (omega arith, tt)))) (omega arith) (omega arith)

abbrev two_a_minute : SubscriptionLimitConfig
two_a_minute = record {
  enabled = true;
  max_requests = 2;
  window = 60_000_000_000;
  block = 300_000_000_000;
}

abbrev idle : SubscriptionLimiter
idle = record { entries = []; allowed_total = 0; blocked_total = 0; last_blocked_at = 0 }

abbrev three_requests : List (ℕ × ℕ)
three_requests = (6, 1) ∷ (7, 1) ∷ (8, 1) ∷ []

budget_exact_example :
    allowed "a" two_a_minute ((5, 1) ∷ three_requests) idle ≡ min 2 (1 + length three_requests)
unfolding get
budget_exact_example =
    budget_exact "a" two_a_minute 5 1 three_requests idle refl (omega arith) tt refl
      (omega arith, (omega arith, (omega arith, tt)))

abbrev spent : SubscriptionLimiter
spent = record {
  entries = ("a", record { requests = 2; window_start = 5; blocked_until = none }) ∷ [];
  allowed_total = 2;
  blocked_total = 0;
  last_blocked_at = 0;
}

third_blocked : (check "a" two_a_minute 9 1 spent).0 ≡ blocked 301
unfolding check meter settle count_request get retain
third_blocked = refl
