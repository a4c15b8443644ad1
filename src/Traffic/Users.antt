-- ===== src/Traffic/Users.antt =====
-- The users' totals: kept equal to the sums of the counters, over every recorded sample and reset.
use native.Mathlib.Decide.{ℕ_discrete}
use honey.Prelude.{
  ℕ, ◌+◌, ◌<◌, String, Bool, ◌≡◌, ◌≢◌, refl, some, [], ◌∷◌, arith, Option-cases, inl, inr,
}
use honey.Prelude.Keys.{nat_eq, string_eq, Map, get, insert, get-insert, sum_by, sum_by-insert}
use honey.Traffic.{
  Source, source_eq, Counter, User, Tables, traffic_delta, last_seen, upsert_counter, used,
  bytes_of, record_traffic, reset_user_traffic, drop_user, i64_limit, crossed,
}
use honey.Traffic.Counters.{upsert-traffic_delta}

used-insert_self :
    (source : Source) (epoch : String) (u d : ℕ) (m : Map Source Counter)
    → let delta = traffic_delta (last_seen (get source m)) epoch u d in
      used source.user (insert source (upsert_counter (get source m) epoch u d) m)
      ≡ used source.user m + delta.0 + delta.1
unfolding used
used-insert_self source epoch u d m = elim (Option-cases (get source m)) [
  | inl e ↦ ground (
    arith,
    sum_by-insert (bytes_of source.user) source (upsert_counter (get source m) epoch u d) m,
    upsert-traffic_delta (get source m) epoch u d,
  )
  | inr (c, e) ↦ ground (
    arith,
    sum_by-insert (bytes_of source.user) source (upsert_counter (get source m) epoch u d) m,
    upsert-traffic_delta (get source m) epoch u d,
  )
]

used-insert_other :
    (id : ℕ) (source : Source) (c : Counter) (m : Map Source Counter)
    → source.user ≢ id
    → used id (insert source c m) ≡ used id m
unfolding used
used-insert_other id source c m ne = elim (Option-cases (get source m)) [
  | inl e ↦ ground (arith, sum_by-insert (bytes_of id) source c m)
  | inr (c', e) ↦ ground (arith, sum_by-insert (bytes_of id) source c m)
]

used-drop_user_self : (id : ℕ) (m : Map Source Counter) → used id (drop_user id m) ≡ 0
unfolding used drop_user sum_by
used-drop_user_self id [] = refl
used-drop_user_self id ((s, c) ∷ m) = ground (arith, used-drop_user_self id m)

used-drop_user_other :
    (id j : ℕ) (m : Map Source Counter) → j ≢ id → used j (drop_user id m) ≡ used j m
unfolding used drop_user sum_by
used-drop_user_other id j [] ne = refl
used-drop_user_other id j ((s, c) ∷ m) ne = ground (arith, used-drop_user_other id j m ne)

-- Each user's total is the sum of the counters.
pub record IsConsistent (t : Tables) : Type 0 where
  pub totals :
      (id : ℕ) (u : User) → get id t.users ≡ some u → u.used_traffic_bytes ≡ used id t.counters

-- A committed sample: what the transaction wrote for its own user and for every other.
pub record Recorded (source : Source) (delta : ℕ × ℕ) (b : Bool) (t t' : Tables) : Type 0 where
  pub user : User
  pub found : get source.user t.users ≡ some user
  pub counted : used source.user t'.counters ≡ used source.user t.counters + delta.0 + delta.1
  pub stored :
      get source.user t'.users
      ≡ some (record user { used_traffic_bytes = used source.user t'.counters })
  pub fits : used source.user t'.counters < i64_limit
  pub crossing :
      b ≡ crossed user.traffic_limit_bytes user.used_traffic_bytes (used source.user t'.counters)
  pub others :
      (id : ℕ)
      → source.user ≢ id
      → (get id t'.users ≡ get id t.users) × (used id t'.counters ≡ used id t.counters)

abbrev delta_of : Source → String → ℕ → ℕ → Tables → ℕ × ℕ
delta_of source epoch u d t = traffic_delta (last_seen (get source t.counters)) epoch u d

-- A sample that is recorded adds its delta to the total of its own user and to no other's, and it
-- reports a crossing exactly if the user has a limit that the total was below and no longer is.
pub record_traffic-Recorded :
    (hour : ℕ) (source : Source) (epoch : String) (u d : ℕ) (t t' : Tables) (b : Bool)
    → record_traffic hour source epoch u d t ≡ some (b, t')
    → Recorded source (delta_of source epoch u d t) b t t'
unfolding record_traffic
record_traffic-Recorded hour source epoch u d t t' b h =
    elim (Option-cases (get source.user t.users)) [
      | inl e ↦ absurd (ground (arith, e))
      | inr (user, e) ↦
          let c = upsert_counter (get source t.counters) epoch u d in
          record {
            user = user;
            found = e;
            counted = ground (arith, e, used-insert_self source epoch u d t.counters);
            stored = ground (
              arith,
              e,
              get-insert source.user source.user
                  (record user {
                    used_traffic_bytes = used source.user (insert source c t.counters);
                  })
                  t.users,
            );
            fits = ground (arith, e);
            crossing = ground (arith, e);
            others = λ id ne. (
              ground (
                arith,
                e,
                get-insert source.user id
                    (record user {
                      used_traffic_bytes = used source.user (insert source c t.counters);
                    })
                    t.users,
              ),
              ground (arith, e, used-insert_other id source c t.counters ne),
            );
          }
    ]

pub record_traffic-IsConsistent :
    (hour : ℕ) (source : Source) (epoch : String) (u d : ℕ) (t t' : Tables) (b : Bool)
    → record_traffic hour source epoch u d t ≡ some (b, t')
    → IsConsistent t
    → IsConsistent t'
record_traffic-IsConsistent hour source epoch u d t t' b h c =
    let r = record_traffic-Recorded hour source epoch u d t t' b h in
    record {
      totals = λ id user e. elim (ℕ_discrete source.user id) [
        | yes same ↦ ground (arith, r.stored)
        | no other ↦ ground (arith, r.others id other, c.totals id user)
      ];
    }

drop_user_totals :
    (id : ℕ) (t : Tables) (users : Map ℕ User)
    → ((j : ℕ) → j ≢ id → get j users ≡ get j t.users)
    → ((u : User) → get id users ≡ some u → u.used_traffic_bytes ≡ 0)
    → IsConsistent t
    → IsConsistent (record t { users = users; counters = drop_user id t.counters })
drop_user_totals id t users same zeroed c = record {
  totals = λ j u e. elim (ℕ_discrete j id) [
    | yes eq ↦ ground (arith, zeroed u, used-drop_user_self id t.counters)
    | no ne ↦ ground (arith, same j ne, c.totals j u, used-drop_user_other id j t.counters ne)
  ];
}

pub reset_user_traffic-IsConsistent :
    (id : ℕ) (t : Tables) → IsConsistent t → IsConsistent (reset_user_traffic id t).1
unfolding reset_user_traffic
reset_user_traffic-IsConsistent id t c = elim (Option-cases (get id t.users)) [
  | inl gone ↦
      rw (gone, reset_user_traffic)
        (drop_user_totals id t t.users (λ j ne. refl) (λ u e. cc gone) c)
  | inr (v, there) ↦
      let users = insert id (record v { used_traffic_bytes = 0 }) t.users in
      rw (there, reset_user_traffic)
        (drop_user_totals id t users
          (λ j ne. ground (arith, get-insert id j (record v { used_traffic_bytes = 0 }) t.users))
          (λ u e. ground (arith, get-insert id id (record v { used_traffic_bytes = 0 }) t.users)) c)
]
