-- ===== src/RateLimit/Login.antt =====
-- `LoginLimiter`: the brute-force guard of the login endpoint, keyed by client address.
pub mod Lockout
pub mod Pruning
use honey.Prelude.{
  ℕ, ◌+◌, ◌-◌, ◌%◌, ◌^◌, String, Bool, ◌&&◌, ◌||◌, Option, none, some, List, [], ◌∷◌, ltb, leb,
  if◌then◌else◌, is_some_and, is_none_or, unwrap_or,
}
use honey.RateLimit.Clock.{secs_up}
use honey.Prelude.Keys.{string_eq, Map, get, insert, remove, retain}

abbrev pub max_failures : ℕ
max_failures = 5

-- 5 minutes and 15 minutes, in nanoseconds
abbrev pub window : ℕ
window = 300_000_000_000

abbrev pub lockout : ℕ
lockout = 900_000_000_000

pub record Entry : Type 0 where
  pub failures : ℕ
  pub window_start : ℕ
  pub locked_until : Option ℕ

abbrev pub LoginLimiter : Type 0
LoginLimiter = Map String Entry

-- The test of `prune`: locked, or inside its failure window.
abbrev pub is_live : ℕ → Entry → Bool
is_live now entry =
    is_some_and entry.locked_until (λ u. ltb now u) || leb (now - entry.window_start) window

unfoldable pub prune : ℕ → LoginLimiter → LoginLimiter
prune now map = retain (is_live now) map

abbrev remaining : Option ℕ → ℕ → ℕ → Option ℕ
remaining none tested_at answered_at = none
remaining (some until) tested_at answered_at =
    if ltb tested_at until then some (secs_up (until - answered_at)) else none

abbrev lock_left : Option Entry → ℕ → ℕ → Option ℕ
lock_left none tested_at answered_at = none
lock_left (some entry) tested_at answered_at = remaining entry.locked_until tested_at answered_at

-- The code reads the clock three times: in `prune`, for the test and for the answer.
unfoldable pub locked_for : String → ℕ → ℕ → ℕ → LoginLimiter → Option ℕ × LoginLimiter
locked_for key pruned_at tested_at answered_at map =
    let map' = prune pruned_at map in (lock_left (get key map') tested_at answered_at, map')

abbrev pub fresh : ℕ → Entry
fresh now = record { failures = 0; window_start = now; locked_until = none }

-- The window is reset if it has elapsed and the key is not currently locked.
unfoldable pub reset_window : ℕ → Entry → Entry
reset_window now entry =
    if is_none_or entry.locked_until (λ u. leb u now) && ltb window (now - entry.window_start)
    then fresh now
    else entry

-- The counter is a u32, which wraps in a release build.
unfoldable pub count_failure : ℕ → Entry → Entry
unfolding reset_window
count_failure now entry =
    let e = reset_window now entry in
    let failures = (e.failures + 1) % 2 ^ 32 in
    if leb max_failures failures
    then record e { failures = failures; locked_until = some (now + lockout) }
    else record e { failures = failures }

unfoldable pub record_failure : String → ℕ → LoginLimiter → LoginLimiter
record_failure key now map =
    insert key (count_failure now (unwrap_or (get key map) (fresh now))) map

unfoldable pub record_success : String → LoginLimiter → LoginLimiter
record_success key map = remove key map
