-- ===== src/Traffic/Status.antt =====
-- What the totals mean for a user: suppressed or active, and the quota that a node is given.
use mathlib.Core.Bool.{true}
use honey.Prelude.{ℕ, ◌+◌, ◌<◌, ◌≡◌, not, String, Bool, some, arith}
use honey.Prelude.Keys.{get, nat_eq}
use honey.Traffic.{User, Source, Tables, is_active, quota_bytes, crossed, used, record_traffic}
use honey.Traffic.Users.{record_traffic-Recorded}

-- An active user with a limit is given exactly what is left of it, which is never the 0 that the
-- agent takes for unlimited.
quota_bytes_exact :
    (now : ℕ) (u : User)
    → is_active now u ≡ true
    → 0 < u.traffic_limit_bytes
    → (0 < quota_bytes u) × (u.used_traffic_bytes + quota_bytes u ≡ u.traffic_limit_bytes)
unfolding is_active quota_bytes
quota_bytes_exact now u active h = ground arith

not-active_of_crossed :
    (now k : ℕ) (u : User)
    → is_active now u ≡ true
    → crossed u.traffic_limit_bytes u.used_traffic_bytes k
      ≡ not (is_active now (record u { used_traffic_bytes = k }))
unfolding is_active
not-active_of_crossed now k u active = ground arith

-- A recorded sample of an active user reports a crossing exactly if it is the sample that suppresses
-- the user: if the stored user is no longer active.
crossing_suppresses :
    (now hour : ℕ) (source : Source) (epoch : String) (up down : ℕ) (t t' : Tables) (b : Bool)
    (u : User)
    → get source.user t.users ≡ some u
    → is_active now u ≡ true
    → record_traffic hour source epoch up down t ≡ some (b, t')
    → (u' : User) × (get source.user t'.users ≡ some u') × (b ≡ not (is_active now u'))
crossing_suppresses now hour source epoch up down t t' b u g active e =
    let r = record_traffic-Recorded hour source epoch up down t t' b e in
    let same : r.user ≡ u = ground (arith, r.found, g) in
    let total = used source.user t'.counters in
    (
      record u { used_traffic_bytes = total },
      ground (arith, r.stored, same),
      ground (arith, r.crossing, same, not-active_of_crossed now total u active),
    )
