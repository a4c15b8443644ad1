-- ===== src/RateLimit/Subscription.antt =====
-- `SubscriptionLimiter`: the request budget of the public subscription endpoints, keyed by a hash
-- of client and subject.
pub mod Budget
pub mod Isolation
use honey.Prelude.{
  ℕ, ◌+◌, ◌-◌, ◌%◌, ◌^◌, ◌≡◌, String, Bool, true, false, ◌&&◌, ◌||◌, Option, none, some, ltb, leb,
  min, length, if◌then◌else◌, is_some_and, unwrap_or,
}
use honey.RateLimit.Clock.{secs_up}
use honey.Prelude.Keys.{string_eq, Map, keep_if, get, insert, retain}

pub record SubscriptionLimitConfig : Type 0 where
  pub enabled : Bool
  pub max_requests : ℕ
  pub window : ℕ
  pub block : ℕ

pub data LimitDecision : Type 0 where
  allow : LimitDecision
  blocked : ℕ → LimitDecision

pub record SubscriptionEntry : Type 0 where
  pub requests : ℕ
  pub window_start : ℕ
  pub blocked_until : Option ℕ

-- `last_blocked_at` is a Unix time, 0 until the first block.
pub record SubscriptionLimiter : Type 0 where
  pub entries : Map String SubscriptionEntry
  pub allowed_total : ℕ
  pub blocked_total : ℕ
  pub last_blocked_at : ℕ

abbrev pub is_live : SubscriptionLimitConfig → ℕ → SubscriptionEntry → Bool
is_live config now entry =
    is_some_and entry.blocked_until (λ u. ltb now u) || leb (now - entry.window_start) config.window

abbrev pub fresh : ℕ → SubscriptionEntry
fresh now = record { requests = 0; window_start = now; blocked_until = none }

abbrev pub retry_after : ℕ → ℕ → ℕ
retry_after until now = secs_up (until - now)

-- The window is reset once it has elapsed; then the request is counted (`saturating_add` on a u32).
unfoldable pub count_request : SubscriptionLimitConfig → ℕ → SubscriptionEntry → SubscriptionEntry
count_request config now entry =
    let e = if ltb config.window (now - entry.window_start) then fresh now else entry in
    let requests = min (e.requests + 1) (2 ^ 32 - 1) in
    if ltb config.max_requests requests
    then record e { requests = requests; blocked_until = some (now + config.block) }
    else record e { requests = requests }

-- `entry.blocked_until.filter(|until| *until > now)`
abbrev pub block_left : Option ℕ → ℕ → Option ℕ
block_left none now = none
block_left (some until) now = if ltb now until then some until else none

-- What `check` does to the entry of its key, and the end of the block if it refuses.
unfoldable pub meter :
    SubscriptionLimitConfig → ℕ → SubscriptionEntry → Option ℕ × SubscriptionEntry
unfolding count_request
meter config now entry = elim (block_left entry.blocked_until now) [
  | some until ↦ (some until, entry)
  | none ↦
      let counted = count_request config now entry in
      if ltb config.max_requests counted.requests
      then (some (now + config.block), counted)
      else (none, counted)
]

-- `allow`, or `block` with its counters; both totals are u64 that wrap.
unfoldable pub settle : Option ℕ → ℕ → ℕ → SubscriptionLimiter → LimitDecision × SubscriptionLimiter
settle none now unix s = (allow, record s { allowed_total = (s.allowed_total + 1) % 2 ^ 64 })
settle (some until) now unix s = (
  blocked (retry_after until now),
  record s {
    blocked_total = (s.blocked_total + 1) % 2 ^ 64;
    last_blocked_at = min unix (2 ^ 63 - 1);
  },
)

-- `unix` is the wall clock in seconds since 1970, which only the statistics use.
unfoldable pub check :
    String
    → SubscriptionLimitConfig
    → ℕ
    → ℕ
    → SubscriptionLimiter
    → LimitDecision × SubscriptionLimiter
unfolding settle
check key config now unix s =
    if config.enabled
    then (let kept = retain (is_live config now) s.entries in
        let (until, entry) = meter config now (unwrap_or (get key kept) (fresh now)) in
        settle until now unix (record s { entries = insert key entry kept }))
    else (allow, record s { allowed_total = (s.allowed_total + 1) % 2 ^ 64 })

pub record SubscriptionLimitStats : Type 0 where
  pub allowed_total : ℕ
  pub blocked_total : ℕ
  pub active_buckets : ℕ
  pub last_blocked_at : Option ℕ

unfoldable pub stats : SubscriptionLimiter → SubscriptionLimitStats
stats s = record {
  allowed_total = s.allowed_total;
  blocked_total = s.blocked_total;
  active_buckets = length s.entries;
  last_blocked_at = if ltb 0 s.last_blocked_at then some s.last_blocked_at else none;
}
