-- ===== src/RateLimit/Login/Lockout.antt =====
-- When a key is locked out, and for how long.
use honey.Prelude.{
  ℕ, suc, ◌+◌, ◌-◌, ◌≤◌, ◌<◌, ◌^◌, String, ◌≡◌, refl, ap, ◌&&◌, Option, none, some, List, [], ◌∷◌,
  length, arith, ltb, leb, if◌then◌else◌, All, unwrap_or,
}
use native.Mathlib.Nat.{add-zero}
use honey.Prelude.Keys.{string_eq, keep_if, get, get-insert, get-retain, IsUnique, insert-IsUnique}
use honey.RateLimit.Clock.{secs_up}
use honey.RateLimit.Login.{
  Entry, LoginLimiter, max_failures, window, lockout, is_live, lock_left, prune, locked_for,
  count_failure, record_failure, fresh,
}

-- Failures of one key, in the order in which they are recorded.
pub record_failures : String → List ℕ → LoginLimiter → LoginLimiter
record_failures key [] map = map
record_failures key (now ∷ later) map = record_failures key later (record_failure key now map)

abbrev pub last : ℕ → List ℕ → ℕ
last t [] = t
last t (u ∷ later) = last u later

-- The entry of a key whose `n` failures began at `t0`, the last of them at `t`.
abbrev counted : ℕ → ℕ → ℕ → Entry
counted n t0 t = record {
  failures = n;
  window_start = t0;
  locked_until = if leb max_failures n then some (t + lockout) else none;
}

count_failure-counted :
    (n t0 t u : ℕ)
    → u ≤ t0 + window
    → n + 1 < 2 ^ 32
    → count_failure u (counted n t0 t) ≡ counted (n + 1) t0 u
unfolding count_failure
count_failure-counted n t0 t u h k = ground arith

pub get-record_failure :
    (key : String) (now : ℕ) (map : LoginLimiter)
    → get key (record_failure key now map)
      ≡ some (count_failure now (unwrap_or (get key map) (fresh now)))
unfolding record_failure
get-record_failure key now map = ground (
  arith,
  get-insert key key (count_failure now (unwrap_or (get key map) (fresh now))) map,
  string_eq.beq_iff key key,
)

record_failures-counted :
    (key : String) (n t0 t : ℕ) (later : List ℕ) (map : LoginLimiter)
    → get key map ≡ some (counted n t0 t)
    → All (λ u. u ≤ t0 + window) later
    → n + length later < 2 ^ 32
    → get key (record_failures key later map) ≡ some (counted (n + length later) t0 (last t later))
unfolding record_failures
record_failures-counted key n t0 t [] map h w k = rw (add-zero n) h
record_failures-counted key n t0 t (u ∷ later) map h w k =
    let shift : n + suc (length later) ≡ n + 1 + length later = omega arith in
    rw shift (
      record_failures-counted key (n + 1) t0 u later (record_failure key u map)
        (rw get-record_failure (rw h (ap some (count_failure-counted n t0 t u w.0 (omega arith)))))
        w.1 (omega arith))

count_failure-fresh : (t : ℕ) → count_failure t (fresh t) ≡ counted 1 t t
unfolding count_failure
count_failure-fresh t = ground arith

record_failures-IsUnique :
    (key : String) (times : List ℕ) (map : LoginLimiter)
    → IsUnique map
    → IsUnique (record_failures key times map)
unfolding record_failures record_failure
record_failures-IsUnique key [] map h = h
record_failures-IsUnique key (t ∷ times) map h =
    record_failures-IsUnique key times (record_failure key t map) (insert-IsUnique key _ map h)

lock_left-keep_if :
    (o : Option Entry) (p t a : ℕ) → p ≤ t → lock_left (keep_if (is_live p) o) t a ≡ lock_left o t a
lock_left-keep_if none p t a h = refl
lock_left-keep_if (some e) p t a h = ground arith

pub locked_for-answer :
    (key : String) (map : LoginLimiter) (p t a : ℕ)
    → IsUnique map
    → p ≤ t
    → (locked_for key p t a map).0 ≡ lock_left (get key map) t a
unfolding locked_for prune
locked_for-answer key map p t a u h =
    rw (get-retain (is_live p) key map u) (lock_left-keep_if (get key map) p t a h)

-- A key with no entry fails at `t0` and then at the times `later`, all of them inside the window
-- that opened at `t0`. It is locked out exactly if that makes at least five failures and fifteen
-- minutes have not passed since the last of them, and the answer is then the time left, rounded up
-- to whole seconds.
pub lockout_exact :
    (key : String) (map : LoginLimiter) (t0 : ℕ) (later : List ℕ) (p t a : ℕ)
    → IsUnique map
    → get key map ≡ none
    → All (λ u. u ≤ t0 + window) later
    → 1 + length later < 2 ^ 32
    → p ≤ t
    → (locked_for key p t a (record_failures key (t0 ∷ later) map)).0 ≡ (
        if leb 5 (1 + length later) && ltb t (last t0 later + lockout)
        then some (secs_up (last t0 later + lockout - a))
        else none)
unfolding record_failures
lockout_exact key map t0 later p t a u none_yet within few h =
    rw
      (locked_for-answer key (record_failures key (t0 ∷ later) map) p t a
        (record_failures-IsUnique key (t0 ∷ later) map u) h)
      (rw
        (record_failures-counted key 1 t0 t0 later (record_failure key t0 map)
          (rw get-record_failure (rw none_yet (ap some (count_failure-fresh t0)))) within few)
        (ground arith))
