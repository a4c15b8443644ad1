-- ===== src/RateLimit/Subscription/Isolation.antt =====
-- A check reads and writes the meter of its own key only.
use mathlib.Core.Bool.{true}
use honey.Prelude.{
  ℕ, ◌+◌, ◌-◌, ◌*◌, ◌≤◌, ◌<◌, ◌%◌, sym, ap, ◌∙◌, Option-cases, ◌^◌, String, ◌≡◌, ◌≢◌, refl, Option,
  none, some, arith, unwrap_or, if◌then◌else◌, inl, inr,
}
use honey.RateLimit.Clock.{second, secs_up}
use honey.Prelude.Keys.{
  string_eq, keep_if, get, get-insert, get-retain, retain, IsUnique, insert-IsUnique,
  retain-IsUnique,
}
use honey.RateLimit.Subscription.{
  SubscriptionLimitConfig, SubscriptionEntry, SubscriptionLimiter, LimitDecision, allow, blocked,
  is_live, fresh, retry_after, block_left, meter, check,
}

-- The meter of a key as a check at `now` finds it.
abbrev pub found : String → SubscriptionLimitConfig → ℕ → SubscriptionLimiter → SubscriptionEntry
found key config now s = unwrap_or (keep_if (is_live config now) (get key s.entries)) (fresh now)

abbrev pub verdict : Option ℕ → ℕ → LimitDecision
verdict none now = allow
verdict (some until) now = blocked (retry_after until now)

module _ (key : String) (config : SubscriptionLimitConfig) (now unix : ℕ) (s : SubscriptionLimiter)
    (on : config.enabled ≡ true) (u : IsUnique s.entries) where
  pub check-verdict :
      (check key config now unix s).0 ≡ verdict (meter config now (found key config now s)).0 now
  unfolding check
  check-verdict = ground (arith, get-retain (is_live config now) key s.entries u)

  pub get-check :
      (j : String)
      → get j (check key config now unix s).1.entries ≡ (
          if string_eq.beq key j
          then some (meter config now (found key config now s)).1
          else keep_if (is_live config now) (get j s.entries))
  unfolding check
  get-check j = ground (
    arith,
    get-retain (is_live config now) key s.entries u,
    get-retain (is_live config now) j s.entries u,
    get-insert key j (meter config now (found key config now s)).1
        (retain (is_live config now) s.entries),
  )

  pub check-IsUnique : IsUnique (check key config now unix s).1.entries
  unfolding check
  check-IsUnique = ground (
    arith,
    get-retain (is_live config now) key s.entries u,
    retain-IsUnique (is_live config now) s.entries u,
    insert-IsUnique key (meter config now (found key config now s)).1
        (retain (is_live config now) s.entries),
  )

meter-keep_if :
    (config : SubscriptionLimitConfig) (o : Option SubscriptionEntry) (p now : ℕ)
    → p ≤ now
    → (meter config now
        (unwrap_or (keep_if (is_live config now) (keep_if (is_live config p) o)) (fresh now))).0
      ≡ (meter config now (unwrap_or (keep_if (is_live config now) o) (fresh now))).0
unfolding meter
meter-keep_if config none p now h = refl
meter-keep_if config (some e) p now h = ground arith

-- A check of one key never changes what a later check of another key decides, under the same
-- configuration.
check_isolated :
    (key other : String) (config : SubscriptionLimitConfig) (p now unix unix' : ℕ)
    (s : SubscriptionLimiter)
    → config.enabled ≡ true
    → IsUnique s.entries
    → p ≤ now
    → key ≢ other
    → (check other config now unix' (check key config p unix s).1).0
      ≡ (check other config now unix' s).0
check_isolated key other config p now unix unix' s on u h ne = ground (
  arith,
  check-verdict other config now unix' s on u,
  check-verdict other config now unix' (check key config p unix s).1 on
      (check-IsUnique key config p unix s on u),
  get-check key config p unix s on u other,
  string_eq.beq_iff key other,
  meter-keep_if config (get other s.entries) p now h,
)

abbrev tally : LimitDecision → SubscriptionLimiter → ℕ × ℕ
tally allow s = ((s.allowed_total + 1) % 2 ^ 64, s.blocked_total)
tally (blocked _) s = (s.allowed_total, (s.blocked_total + 1) % 2 ^ 64)

-- Every check, with the guard on or off, is counted once: in `allowed_total` if it is allowed and in
-- `blocked_total` if it is blocked.
pub check_counts :
    (key : String) (config : SubscriptionLimitConfig) (now unix : ℕ) (s : SubscriptionLimiter)
    → ((check key config now unix s).1.allowed_total, (check key config now unix s).1.blocked_total)
      ≡ tally (check key config now unix s).0 s
unfolding check
check_counts key config now unix s = ground arith

meter-block_left :
    (config : SubscriptionLimitConfig) (now until : ℕ) (e : SubscriptionEntry)
    → (meter config now e).0 ≡ some until
    → (meter config now e).1.blocked_until ≡ some until
unfolding meter
meter-block_left config now until e h = ground arith

over_after :
    (until now secs : ℕ)
    → secs_up (until - now) ≡ secs
    → secs < 2 ^ 64 - 1
    → until ≤ now + secs * second
over_after until now secs h k = omega arith

block_over :
    (o : Option ℕ) (now secs : ℕ)
    → verdict o now ≡ blocked secs
    → secs < 2 ^ 64 - 1
    → block_left o (now + secs * second) ≡ none
block_over none now secs h k = cc
block_over (some until) now secs h k = ground (arith, over_after until now secs)

meter_over :
    (config : SubscriptionLimitConfig) (now secs : ℕ) (e : SubscriptionEntry)
    → verdict (meter config now e).0 now ≡ blocked secs
    → secs < 2 ^ 64 - 1
    → block_left (meter config now e).1.blocked_until (now + secs * second) ≡ none
meter_over config now secs e h k = elim (Option-cases (meter config now e).0) [
  | inl nothing ↦ absurd (cc (ap (λ o. verdict o now) nothing))
  | inr (until, e') ↦
      rw (meter-block_left config now until e e') (block_over (some until) now secs (rw e' at h) k)
]

-- A refused client that waits the `retry_after` seconds it was told finds an entry whose block is
-- over (the number of seconds being below the saturation point of the u64).
retry_after_sufficient :
    (key : String) (config : SubscriptionLimitConfig) (now unix secs : ℕ) (s : SubscriptionLimiter)
    → config.enabled ≡ true
    → IsUnique s.entries
    → secs < 2 ^ 64 - 1
    → (check key config now unix s).0 ≡ blocked secs
    → (e : SubscriptionEntry) × (get key (check key config now unix s).1.entries ≡ some e)
      × (block_left e.blocked_until (now + secs * second) ≡ none)
retry_after_sufficient key config now unix secs s on u k h =
    let e = found key config now s in
    (
      (meter config now e).1,
      ground (arith, get-check key config now unix s on u key, string_eq.beq_iff key key),
      meter_over config now secs e (sym (check-verdict key config now unix s on u) ∙ h) k,
    )
