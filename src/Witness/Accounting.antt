-- ===== src/Witness/Accounting.antt =====
-- One user with a limit of 100 bytes, counted on one node.
use honey.Prelude.{ℕ, ◌≢◌, ◌≡◌, refl, String, true, none, some, [], ◌∷◌, arith}
use text.Mathlib.TextEquality.{eq_iff}
use honey.Prelude.Keys.{nat_eq, string_eq, get, insert, sum_by}
use honey.Traffic.{
  Source, source_eq, bucket_eq, Counter, User, Tables, traffic_delta, upsert_counter, upsert_hourly,
  used, record_hourly, record_traffic, is_active,
}
use honey.Traffic.Users.{IsConsistent}
use honey.Traffic.History.{
  Sample, sample, reset, run, run-IsConsistent, crossings, run_samples, Metered, crossed_once,
}

abbrev source : Source
source = record { node = 1; user = 7; core = "singbox" }

abbrev alice : User
alice = record {
  username = "alice";
  enabled = true;
  traffic_limit_bytes = 100;
  used_traffic_bytes = 60;
  expires_at = none;
}

abbrev counter : Counter
counter = record { up_bytes = 20; down_bytes = 40; last_up = 5; last_down = 10; last_epoch = "e" }

abbrev tables : Tables
tables = record { users = (7, alice) ∷ []; counters = (source, counter) ∷ []; hourly = [] }

get_other : (id : ℕ) (u : User) → get id tables.users ≡ some u → (7 ≡ id) × (u ≡ alice)
unfolding get
get_other id u h = ground arith

tables-IsConsistent : IsConsistent tables
unfolding used sum_by
tables-IsConsistent = record { totals = λ id u h. ground (arith, get_other id u) }

alice_found : get 7 tables.users ≡ some alice
unfolding get
alice_found = refl

abbrev big : Sample
big = record { hour = 3; source = source; epoch = "e"; up = 30; down = 40 }

crossed_once_example :
    Metered 7 alice (crossings 7 tables (big ∷ big ∷ [])) (run_samples tables (big ∷ big ∷ []))
crossed_once_example = crossed_once 7 alice tables (big ∷ big ∷ []) tables-IsConsistent alice_found

run-IsConsistent_example : IsConsistent (run tables (sample big ∷ reset 7 ∷ sample big ∷ []))
run-IsConsistent_example =
    run-IsConsistent tables (sample big ∷ reset 7 ∷ sample big ∷ []) tables-IsConsistent

e_not_f : ◌≢◌ {A = String} "e" "f"
e_not_f = ground (arith, eq_iff "e" "f")

abbrev after : Tables
after = record {
  users = (7, record alice { used_traffic_bytes = 115 }) ∷ [];
  counters =
      (
        source,
        record { up_bytes = 45; down_bytes = 70; last_up = 30; last_down = 40; last_epoch = "e" },
      )
      ∷ [];
  hourly =
      (
        record { hour = 3; source = source },
        record { up_bytes = 25; down_bytes = 30; sample_count = 1 },
      )
      ∷ [];
}

big_recorded : record_traffic 3 source "e" 30 40 tables ≡ some (true, after)
unfolding record_traffic get insert upsert_counter traffic_delta record_hourly upsert_hourly used
    sum_by
big_recorded = refl

alice_active : is_active 0 alice ≡ true
unfolding is_active
alice_active = refl
