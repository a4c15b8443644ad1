-- ===== src/Traffic/History.antt =====
-- Any sequence of samples and resets.
use native.Mathlib.Decide.{ℕ_discrete}
use honey.Prelude.{
  ℕ, ◌+◌, ◌≤◌, String, Bool, ◌≡◌, refl, subst, ◌∙◌, Option, none, some, List, [], ◌∷◌, arith, ◌&&◌,
  ◌||◌, if◌then◌else◌, Option-cases, inl, inr,
}
use honey.Prelude.Keys.{◌==◌, nat_eq, string_eq, get}
use honey.Traffic.{
  Source, source_eq, User, UserStat, Tables, used, record_traffic, reset_user_traffic, crossed,
  record_stat, record_sample, user_by_name,
}
use honey.Traffic.Users.{
  IsConsistent, record_traffic-Recorded, record_traffic-IsConsistent,
  reset_user_traffic-IsConsistent,
}

pub record Sample : Type 0 where
  pub hour : ℕ
  pub source : Source
  pub epoch : String
  pub up : ℕ
  pub down : ℕ

pub data Event : Type 0 where
  sample : Sample → Event
  reset : ℕ → Event

abbrev pub recorded : Tables → Sample → Option (Bool × Tables)
recorded t s = record_traffic s.hour s.source s.epoch s.up s.down t

-- The tables after a sample; a transaction that fails leaves them as they were.
abbrev pub after_sample : Tables → Option (Bool × Tables) → Tables
after_sample t none = t
after_sample t (some (b, t')) = t'

pub step : Tables → Event → Tables
step t (sample s) = after_sample t (recorded t s)
step t (reset id) = (reset_user_traffic id t).1

pub run : Tables → List Event → Tables
run t [] = t
run t (e ∷ es) = run (step t e) es

step-IsConsistent : (t : Tables) (e : Event) → IsConsistent t → IsConsistent (step t e)
unfolding step
step-IsConsistent t (sample s) c = elim (Option-cases (recorded t s)) [
  | inl e ↦ rw e c
  | inr ((b, t'), e) ↦
      rw e (record_traffic-IsConsistent s.hour s.source s.epoch s.up s.down t t' b e c)
]
step-IsConsistent t (reset id) c = reset_user_traffic-IsConsistent id t c

-- From tables where every user's total is the sum of its counters, any sequence of recorded or
-- failed samples and of resets leads to tables where it is.
pub run-IsConsistent : (t : Tables) (es : List Event) → IsConsistent t → IsConsistent (run t es)
unfolding run
run-IsConsistent t [] c = c
run-IsConsistent t (e ∷ es) c = run-IsConsistent (step t e) es (step-IsConsistent t e c)

-- How often samples of the user `id` report that its quota was crossed.
abbrev reports : ℕ → Sample → Option (Bool × Tables) → ℕ
reports id s none = 0
reports id s (some (b, t')) = if (s.source.user == id) && b then 1 else 0

pub crossings : ℕ → Tables → List Sample → ℕ
crossings id t [] = 0
crossings id t (s ∷ ss) = reports id s (recorded t s) + crossings id (step t (sample s)) ss

pub run_samples : Tables → List Sample → Tables
run_samples t [] = t
run_samples t (s ∷ ss) = run_samples (step t (sample s)) ss

abbrev once_if : Bool → ℕ
once_if b = if b then 1 else 0

-- What a run of samples has made of a user, and how many crossings it reported.
pub record Metered (id : ℕ) (u : User) (n : ℕ) (t' : Tables) : Type 0 where
  pub now : User
  pub found : get id t'.users ≡ some now
  pub same_limit : now.traffic_limit_bytes ≡ u.traffic_limit_bytes
  pub grows : u.used_traffic_bytes ≤ now.used_traffic_bytes
  pub once : n ≡ once_if (crossed u.traffic_limit_bytes u.used_traffic_bytes now.used_traffic_bytes)

Metered-own :
    (u : User) (t t' : Tables) (s : Sample) (b : Bool)
    → IsConsistent t
    → get s.source.user t.users ≡ some u
    → recorded t s ≡ some (b, t')
    → Metered s.source.user u (once_if b) t'
Metered-own u t t' s b c g e =
    let r = record_traffic-Recorded s.hour s.source s.epoch s.up s.down t t' b e in
    let same : r.user ≡ u = ground (arith, r.found, g) in
    let total = c.totals s.source.user u g in
    record {
      now = record u { used_traffic_bytes = used s.source.user t'.counters };
      found = ground (arith, r.stored, same);
      same_limit = refl;
      grows = omega (arith, total, r.counted);
      once = ground (arith, r.crossing, same);
    }

Metered-step :
    (id : ℕ) (u : User) (t t' : Tables) (s : Sample) (b : Bool)
    → IsConsistent t
    → get id t.users ≡ some u
    → recorded t s ≡ some (b, t')
    → Metered id u (reports id s (some (b, t'))) t'
Metered-step id u t t' s b c g e =
    let r = record_traffic-Recorded s.hour s.source s.epoch s.up s.down t t' b e in
    elim (ℕ_discrete s.source.user id) [
      | yes own ↦
          subst (λ k. Metered k u (reports k s (some (b, t'))) t') own
            (let count : reports s.source.user s (some (b, t')) ≡ once_if b = ground arith in
              rw count (Metered-own u t t' s b c (rw own g) e))
      | no other ↦ record {
        now = u;
        found = ground (arith, r.others id other, g);
        same_limit = refl;
        grows = omega arith;
        once = ground arith;
      }
    ]

Metered-trans :
    (id : ℕ) (u : User) (n k : ℕ) (t' t'' : Tables) (m : Metered id u n t')
    → Metered id m.now k t''
    → Metered id u (n + k) t''
Metered-trans id u n k t' t'' m m' = record {
  now = m'.now;
  found = m'.found;
  same_limit = m'.same_limit ∙ m.same_limit;
  grows = omega (arith, m.grows, m'.grows);
  once = ground (arith, m.once, m'.once, m.same_limit, m.grows, m'.grows);
}

Metered-after :
    (id : ℕ) (u : User) (t : Tables) (s : Sample)
    → IsConsistent t
    → get id t.users ≡ some u
    → Metered id u (reports id s (recorded t s)) (after_sample t (recorded t s))
Metered-after id u t s c g = elim (Option-cases (recorded t s)) [
  | inl e ↦
      rw e
        (record { now = u; found = g; same_limit = refl; grows = omega arith; once = ground arith })
  | inr ((b, t'), e) ↦ rw e (Metered-step id u t t' s b c g e)
]

-- A user of consistent tables, and any samples, of it and of others, some of them failing. Without a
-- reset the total only grows and the limit stays, and a crossing of the quota is reported exactly
-- once if there is a limit that the total was below before and has reached after, and else never.
pub crossed_once :
    (id : ℕ) (u : User) (t : Tables) (ss : List Sample)
    → IsConsistent t
    → get id t.users ≡ some u
    → Metered id u (crossings id t ss) (run_samples t ss)
unfolding crossings run_samples
crossed_once id u t [] c g = record {
  now = u;
  found = g;
  same_limit = refl;
  grows = omega arith;
  once = ground arith;
}
crossed_once id u t (s ∷ ss) c g =
    let m : Metered id u (reports id s (recorded t s)) (step t (sample s)) =
      unfold step in Metered-after id u t s c g in
    let rest =
      crossed_once id m.now (step t (sample s)) ss (step-IsConsistent t (sample s) c) m.found in
    Metered-trans id u _ _ (step t (sample s)) (run_samples (step t (sample s)) ss) m rest

record_stat-IsConsistent :
    (hour node : ℕ) (core epoch : String) (id : ℕ) (stat : UserStat) (t t' : Tables) (b : Bool)
    → record_stat hour node core epoch id stat t ≡ some (b, t')
    → IsConsistent t
    → IsConsistent t'
unfolding record_stat
record_stat-IsConsistent hour node core epoch id stat t t' b e c =
    record_traffic-IsConsistent hour (record { node = node; user = id; core = core })
      (if epoch == "" then "legacy" else epoch) stat.up_bytes stat.down_bytes t t' b (ground arith)
      c

-- A whole message of an agent, also one that ends its stream with an error, keeps the totals equal
-- to the sums of the counters.
pub record_sample-IsConsistent :
    (hour node : ℕ) (core epoch : String) (stats : List UserStat) (b : Bool) (t : Tables)
    → IsConsistent t
    → IsConsistent (record_sample hour node core epoch stats b t).1
unfolding record_sample
record_sample-IsConsistent hour node core epoch [] b t c = c
record_sample-IsConsistent hour node core epoch (stat ∷ stats) b t c =
    elim (Option-cases (user_by_name stat.name t.users)) [
      | inl e ↦ rw (e, record_sample) (record_sample-IsConsistent hour node core epoch stats b t c)
      | inr (id, e) ↦
          rw (e, record_sample)
            (elim (Option-cases (record_stat hour node core epoch id stat t)) [
              | inl failed ↦ rw failed c
              | inr ((b', t'), done) ↦ rw done (
                  record_sample-IsConsistent hour node core epoch stats (b || b') t'
                    (record_stat-IsConsistent hour node core epoch id stat t t' b' done c))
            ])
    ]
