-- ===== src/Election/Steps.antt =====
-- All instances and the database together, as a step relation. A tick is two steps: the database
-- runs the upsert at one instant, and the instance learns of the answer at that or a later instant.
use honey.Prelude.{ℕ, ◌+◌, Bool, false, Option, none, some, ◌≡◌, ◌==◌, if◌then◌else◌}
use honey.Election.{Lease, Instance, try_acquire, end_tick}

abbrev pub put_at {ℓ} : {A : Type ℓ} → ℕ → A → (ℕ → A) → ℕ → A
put_at at new old i = if at == i then new else old i

-- `pending i` is an upsert of instance `i` that has run and whose answer is still under way: when it
-- ran, and what it gave. `held_since i` is the instant of the upsert that the flag of `i` reflects.
pub record Cluster : Type 0 where
  pub now : ℕ
  pub lease : Option Lease
  pub instances : ℕ → Instance
  pub pending : ℕ → Option (ℕ × Bool)
  pub held_since : ℕ → ℕ

pub data Step (ttl : ℕ) (s : Cluster) : Cluster → Type 0 where
  -- time passes
  wait : (d : ℕ) → Step ttl s (record s { now = s.now + d })
  -- the upsert of instance `i` runs in the database
  acquire :
      (i : ℕ)
      → Step ttl s (record s {
        lease = (try_acquire i ttl s.now s.lease).1;
        pending = put_at i (some (s.now, (try_acquire i ttl s.now s.lease).0)) s.pending;
      })
  -- its answer arrives
  answer :
      (i at : ℕ) (held : Bool)
      → s.pending i ≡ some (at, held)
      → Step ttl s (record s {
        instances = put_at i (end_tick (some held) (s.instances i)).1 s.instances;
        pending = put_at i none s.pending;
        held_since = put_at i at s.held_since;
      })
  -- the database cannot be reached
  fail :
      (i : ℕ)
      → Step ttl s (record s {
        instances = put_at i (end_tick none (s.instances i)).1 s.instances;
        pending = put_at i none s.pending;
      })

pub data Reach (ttl : ℕ) (s : Cluster) : Cluster → Type 0 where
  here : Reach ttl s s
  next : {t u : Cluster} → Reach ttl s t → Step ttl t u → Reach ttl s u

abbrev pub start : ℕ → Cluster
start now = record {
  now = now;
  lease = none;
  instances = λ i. record { is_leader = false; ticks = 0 };
  pending = λ i. none;
  held_since = λ i. 0;
}
