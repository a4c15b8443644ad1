-- ===== src/Traffic/Counters.antt =====
-- What one counter of an agent adds to the stored totals, over its restarts.
use honey.Prelude.{
  ℕ, ◌+◌, ◌-◌, ◌≤◌, String, ◌≡◌, ◌≢◌, refl, Option, none, some, List, [], ◌∷◌, arith,
}
use honey.Prelude.Keys.{string_eq}
use honey.Traffic.{Counter, traffic_delta, last_seen, upsert_counter}

abbrev pub up_of : Option Counter → ℕ
up_of none = 0
up_of (some c) = c.up_bytes

abbrev pub down_of : Option Counter → ℕ
down_of none = 0
down_of (some c) = c.down_bytes

-- The CASE expressions of the upsert and `traffic_delta` are two descriptions of one increment: the
-- stored counter grows by exactly the delta that the hourly history is given, and its last reading
-- becomes the current one.
pub upsert-traffic_delta :
    (previous : Option Counter) (epoch : String) (cur_up cur_down : ℕ)
    → upsert_counter previous epoch cur_up cur_down ≡ record {
      up_bytes = up_of previous + (traffic_delta (last_seen previous) epoch cur_up cur_down).0;
      down_bytes = down_of previous + (traffic_delta (last_seen previous) epoch cur_up cur_down).1;
      last_up = cur_up;
      last_down = cur_down;
      last_epoch = epoch;
    }
unfolding upsert_counter traffic_delta
upsert-traffic_delta none epoch cur_up cur_down = refl
upsert-traffic_delta (some c) epoch cur_up cur_down = ground arith

-- Readings of one counter under one epoch, in order.
pub observe : String → List (ℕ × ℕ) → Counter → Counter
observe epoch [] c = c
observe epoch ((up, down) ∷ later) c = observe epoch later (upsert_counter (some c) epoch up down)

-- Each reading is at least the one before it.
abbrev pub Rises : ℕ → ℕ → List (ℕ × ℕ) → Type 0
Rises up down [] = Unit {0}
Rises up down ((u, d) ∷ later) = (up ≤ u) × (down ≤ d) × Rises u d later

abbrev pub final : ℕ × ℕ → List (ℕ × ℕ) → ℕ × ℕ
final r [] = r
final r (s ∷ later) = final s later

same_epoch :
    (c : Counter) (epoch : String) (u d : ℕ)
    → c.last_epoch ≡ epoch
    → c.last_up ≤ u
    → c.last_down ≤ d
    → upsert_counter (some c) epoch u d ≡ record {
      up_bytes = c.up_bytes + (u - c.last_up);
      down_bytes = c.down_bytes + (d - c.last_down);
      last_up = u;
      last_down = d;
      last_epoch = epoch;
    }
unfolding upsert_counter
same_epoch c epoch u d e hu hd = ground (arith, string_eq.beq_iff c.last_epoch epoch)

new_epoch :
    (c : Counter) (epoch : String) (u d : ℕ)
    → c.last_epoch ≢ epoch
    → upsert_counter (some c) epoch u d ≡ record {
      up_bytes = c.up_bytes;
      down_bytes = c.down_bytes;
      last_up = u;
      last_down = d;
      last_epoch = epoch;
    }
unfolding upsert_counter
new_epoch c epoch u d ne = ground (arith, string_eq.beq_iff c.last_epoch epoch)

observe-Rises :
    (epoch : String) (later : List (ℕ × ℕ)) (c : Counter)
    → c.last_epoch ≡ epoch
    → Rises c.last_up c.last_down later
    → let l = final (c.last_up, c.last_down) later in
      ((observe epoch later c).up_bytes + c.last_up ≡ c.up_bytes + l.0)
      × ((observe epoch later c).down_bytes + c.last_down ≡ c.down_bytes + l.1)
unfolding observe
observe-Rises epoch [] c e h = (refl, refl)
observe-Rises epoch ((u, d) ∷ later) c e (hu, hd, h) =
    rw (same_epoch c epoch u d e hu hd, observe)
      (omega (
        arith,
        observe-Rises epoch later
            (record {
              up_bytes = c.up_bytes + (u - c.last_up);
              down_bytes = c.down_bytes + (d - c.last_down);
              last_up = u;
              last_down = d;
              last_epoch = epoch;
            })
            refl h,
      ))

-- The first reading under a new epoch is a baseline that adds nothing; if the readings under that
-- epoch then only rise, the two totals grow by exactly the last reading less the first. What was
-- stored before a restart is kept whole.
epoch_exact :
    (epoch : String) (first : ℕ × ℕ) (later : List (ℕ × ℕ)) (c : Counter)
    → c.last_epoch ≢ epoch
    → Rises first.0 first.1 later
    → ((observe epoch (first ∷ later) c).up_bytes + first.0 ≡ c.up_bytes + (final first later).0)
      × ((observe epoch (first ∷ later) c).down_bytes + first.1
          ≡ c.down_bytes + (final first later).1)
unfolding observe
epoch_exact epoch (u, d) later c ne h =
    rw (new_epoch c epoch u d ne, observe)
      (observe-Rises epoch later
        (record {
          up_bytes = c.up_bytes;
          down_bytes = c.down_bytes;
          last_up = u;
          last_down = d;
          last_epoch = epoch;
        })
        refl h)
