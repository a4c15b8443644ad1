-- ===== src/Witness/Elections.antt =====
-- Two instances and one lease.
use honey.Prelude.{ℕ, ◌≡◌, refl, true, none, some, arith}
use honey.Election.{taken, try_acquire, end_tick, set_leader}
use honey.Election.Steps.{Cluster, wait, acquire, answer, Reach, here, next, start, put_at}
use honey.Election.Safety.{leader_unique}

-- The instance 0 wins the first upsert, and learns of it ten seconds later.
abbrev led : Cluster
led = record {
  now = 110;
  lease = some (taken 0 15 100);
  instances = put_at 0 (record { is_leader = true; ticks = 1 }) (start 100).instances;
  pending = put_at 0 none (put_at 0 (some (100, true)) (start 100).pending);
  held_since = put_at 0 100 (start 100).held_since;
}

led-Reach : Reach 15 (start 100) led
unfolding try_acquire end_tick set_leader
led-Reach = next (next (next here (acquire 0)) (wait 10)) (answer 0 100 true refl)

leader_unique_example : ◌≡◌ {A = ℕ} 0 0
leader_unique_example = leader_unique 15 100 led 0 0 led-Reach refl refl (omega arith) (omega arith)
