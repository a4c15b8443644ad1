-- ===== src/RateLimit/Login/Pruning.antt =====
-- Dropping stale entries changes nothing that a client of the login limiter can observe, and one
-- client's attempts change nothing for another.
use honey.Prelude.{ℕ, ◌≤◌, String, ◌≡◌, ◌≢◌, refl, ap, Option, none, some, arith, unwrap_or}
use honey.Prelude.Keys.{
  string_eq, keep_if, get, get-insert, get-remove, get-retain, IsUnique, insert-IsUnique,
  remove-IsUnique,
}
use honey.RateLimit.Login.{
  Entry, LoginLimiter, is_live, fresh, prune, locked_for, count_failure, record_failure,
  record_success,
}
use honey.RateLimit.Login.Lockout.{locked_for-answer, get-record_failure}

count_failure-keep_if :
    (o : Option Entry) (p now : ℕ)
    → p ≤ now
    → count_failure now (unwrap_or (keep_if (is_live p) o) (fresh now))
      ≡ count_failure now (unwrap_or o (fresh now))
unfolding count_failure
count_failure-keep_if none p now h = refl
count_failure-keep_if (some e) p now h = ground arith

-- Pruning at an earlier time never changes the entry that a failure leaves behind.
pub record_failure-prune :
    (key : String) (p now : ℕ) (map : LoginLimiter)
    → IsUnique map
    → p ≤ now
    → get key (record_failure key now (prune p map)) ≡ get key (record_failure key now map)
unfolding prune
record_failure-prune key p now map u h =
    rw (get-record_failure key now (prune p map), get-record_failure key now map)
      (ap some
        (rw (get-retain (is_live p) key map u) (count_failure-keep_if (get key map) p now h)))

-- What a lockout query of one client does and what a failure or a success of one client does leave
-- the answer to every other client as it was.
clients_isolated :
    (key other : String) (now p t a : ℕ) (map : LoginLimiter)
    → IsUnique map
    → p ≤ t
    → key ≢ other
    → ((locked_for other p t a (record_failure key now map)).0 ≡ (locked_for other p t a map).0)
      × ((locked_for other p t a (record_success key map)).0 ≡ (locked_for other p t a map).0)
      × ((locked_for key p t a (record_success key map)).0 ≡ none)
unfolding record_failure record_success
clients_isolated key other now p t a map u h ne = ground (
  arith,
  locked_for-answer other map p t a u h,
  locked_for-answer other (record_failure key now map) p t a (insert-IsUnique key _ map u) h,
  locked_for-answer other (record_success key map) p t a (remove-IsUnique key map u) h,
  locked_for-answer key (record_success key map) p t a (remove-IsUnique key map u) h,
  get-insert key other (count_failure now (unwrap_or (get key map) (fresh now))) map,
  get-remove key other map,
  get-remove key key map,
  string_eq.beq_iff key other,
  string_eq.beq_iff key key,
)
