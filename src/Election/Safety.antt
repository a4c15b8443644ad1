-- ===== src/Election/Safety.antt =====
-- At most one leader while the lease that a flag reflects has not run out, and how a lease moves.
use honey.Prelude.{
  ℕ, ◌+◌, ◌*◌, ◌≤◌, ◌<◌, true, Option, none, some, ◌≡◌, ◌≢◌, refl, ltb, if◌then◌else◌, arith,
}
use honey.Election.{Lease, taken, try_acquire, set_leader, end_tick, lease_secs, renew_secs}
use honey.Election.Steps.{
  Cluster, Step, wait, acquire, answer, fail, Reach, here, next, start, put_at,
}

-- The lease is held by `i` up to the instant `t` at least.
abbrev IsHeld : Option Lease → ℕ → ℕ → Type 0
IsHeld none i t = ⊥
IsHeld (some l) i t = (l.holder ≡ i) × (t ≤ l.expires_at)

-- An upsert of `i` that won at the instant `at` still stands in the database until its lease ends.
abbrev IsBacked : ℕ → Cluster → ℕ → ℕ → Type 0
IsBacked ttl s i at = (at ≤ s.now) × (s.now ≤ at + ttl → IsHeld s.lease i (at + ttl))

abbrev IsSound : ℕ → Cluster → ℕ → Type 0
IsSound ttl s i =
    ((s.instances i).is_leader ≡ true → IsBacked ttl s i (s.held_since i))
    × ((at : ℕ) → s.pending i ≡ some (at, true) → IsBacked ttl s i at)

IsHeld-try_acquire :
    (ttl now i j at : ℕ) (l : Option Lease)
    → at ≤ now
    → now ≤ at + ttl
    → IsHeld l i (at + ttl)
    → IsHeld (try_acquire j ttl now l).1 i (at + ttl)
unfolding try_acquire
IsHeld-try_acquire ttl now i j at none a b h = elim h [ ]
IsHeld-try_acquire ttl now i j at (some l) a b h = ground arith

IsHeld-won :
    (ttl now i : ℕ) (l : Option Lease)
    → (try_acquire i ttl now l).0 ≡ true
    → IsHeld (try_acquire i ttl now l).1 i (now + ttl)
unfolding try_acquire
IsHeld-won ttl now i none h = ground arith
IsHeld-won ttl now i (some l) h = ground arith

IsHeld-agree : (l : Option Lease) (i j t u : ℕ) → IsHeld l i t → IsHeld l j u → i ≡ j
IsHeld-agree none i j t u h k = elim h [ ]
IsHeld-agree (some l) i j t u h k = omega (arith, h.0, k.0)

acquire-IsSound :
    (ttl : ℕ) (s : Cluster) (i j : ℕ)
    → IsSound ttl s i
    → IsSound ttl
        (record s {
          lease = (try_acquire j ttl s.now s.lease).1;
          pending = put_at j (some (s.now, (try_acquire j ttl s.now s.lease).0)) s.pending;
        })
        i
acquire-IsSound ttl s i j h = (
  λ flag.
      let b = h.0 flag in
      (
        b.0,
        λ within. IsHeld-try_acquire ttl s.now i j (s.held_since i) s.lease b.0 within (b.1 within),
      ),
  λ at p.
      ground (
        arith,
        IsHeld-try_acquire ttl s.now i j at s.lease,
        IsHeld-won ttl s.now j s.lease,
        h.1 at,
      ),
)

pub Step-IsSound :
    (ttl : ℕ) (s t : Cluster) (i : ℕ) → Step ttl s t → IsSound ttl s i → IsSound ttl t i
unfolding end_tick set_leader
Step-IsSound ttl s t i (wait d) h = ground arith
Step-IsSound ttl s t i (acquire j) h = acquire-IsSound ttl s i j h
Step-IsSound ttl s t i (answer j at held e) h = ground (arith, h.1 at)
Step-IsSound ttl s t i (fail j) h = ground arith

pub Reach-IsSound : (ttl now : ℕ) (s : Cluster) (i : ℕ) → Reach ttl (start now) s → IsSound ttl s i
Reach-IsSound ttl now s i here = (λ flag. ground arith, λ at p. ground arith)
Reach-IsSound ttl now s i (next {t} r step) =
    Step-IsSound ttl t s i step (Reach-IsSound ttl now t i r)

-- From a start with no lease and no leader, whatever order the upserts, their answers, the database's
-- failures and the passing of time come in: two instances whose flags are both up, each within the
-- lease term of the upsert that its flag reflects, are the same instance.
pub leader_unique :
    (ttl now : ℕ) (s : Cluster) (i j : ℕ)
    → Reach ttl (start now) s
    → (s.instances i).is_leader ≡ true
    → (s.instances j).is_leader ≡ true
    → s.now ≤ s.held_since i + ttl
    → s.now ≤ s.held_since j + ttl
    → i ≡ j
leader_unique ttl now s i j r up_i up_j fresh_i fresh_j =
    IsHeld-agree s.lease i j _ _ (((Reach-IsSound ttl now s i r).0 up_i).1 fresh_i)
      (((Reach-IsSound ttl now s j r).0 up_j).1 fresh_j)

-- Once an instance has won the upsert at the instant `t`, another one that asks at `u`, no earlier,
-- wins exactly if the whole lease term has passed since: the lease is then its own, and unchanged if not.
failover_exact :
    (ttl t u i j : ℕ) (l : Option Lease)
    → (try_acquire i ttl t l).0 ≡ true
    → t ≤ u
    → i ≢ j
    → ((try_acquire j ttl u (try_acquire i ttl t l).1).0 ≡ ltb (t + ttl) u)
      × ((try_acquire j ttl u (try_acquire i ttl t l).1).1
          ≡ (if ltb (t + ttl) u then some (taken j ttl u) else (try_acquire i ttl t l).1))
unfolding try_acquire
failover_exact ttl t u i j none won later other = ground arith
failover_exact ttl t u i j (some l) won later other = ground arith

-- A leader that renews at the period of the loop after each win keeps the lease: the next upsert
-- comes before the lease ends, with time for a second one, and wins.
renewal_in_time :
    (ttl t i : ℕ) (l : Option Lease)
    → (try_acquire i (lease_secs ttl) t l).0 ≡ true
    → (t + 2 * renew_secs ttl < t + lease_secs ttl)
      × ((try_acquire i
            (lease_secs ttl)
            (t + renew_secs ttl)
            (try_acquire i (lease_secs ttl) t l).1).0
          ≡ true)
unfolding try_acquire renew_secs lease_secs
renewal_in_time ttl t i none won = ground arith
renewal_in_time ttl t i (some l) won = ground arith

-- Whatever the lease term, a run from the start reaches a state in which the flags of two different
-- instances are both up: the first one wins, the term passes with no tick of it ending, and the
-- second one wins. The flag alone does not look at the lease.
two_flags_reachable :
    (ttl now : ℕ)
    → (s : Cluster) × (Reach ttl (start now) s
        × ((s.instances 0).is_leader ≡ true)
        × ((s.instances 1).is_leader ≡ true)
        × (s.held_since 0 + ttl < s.now))
unfolding try_acquire end_tick set_leader
two_flags_reachable ttl now = (
  _,
  (
    next
        (next (next (next (next here (acquire 0)) (answer 0 now true refl)) (wait (ttl + 1)))
          (acquire 1))
        (answer 1 (now + (ttl + 1)) true (ground arith)),
    refl,
    refl,
    omega arith,
  ),
)
