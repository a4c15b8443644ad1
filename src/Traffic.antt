-- ===== src/Traffic.antt =====
-- Traffic accounting: `record_traffic`, `traffic_delta` and `reset_user_traffic` of
-- master/src/db/repo.rs, the stream loop of master/src/stats.rs, and the user states that
-- master/src/db/models.rs and master/src/spec.rs derive from the totals. Byte counters are i64
-- values that are never negative.
pub mod Counters
pub mod Users
pub mod History
pub mod Status
use honey.Prelude.{
  ℕ, ◌+◌, ◌-◌, ◌^◌, String, Bool, true, false, ◌&&◌, ◌||◌, Option, none, some, ◌≡◌, ltb, leb,
  if◌then◌else◌, arith, ◌↔◌, not, is_some, is_some_and, List, [], ◌∷◌,
}
use honey.Prelude.Keys.{Eq, ◌==◌, nat_eq, string_eq, Map, get, insert, retain, sum_by}

-- The primary key (node_id, user_id, core) of `node_user_traffic`.
pub record Source : Type 0 where
  pub node : ℕ
  pub user : ℕ
  pub core : String

abbrev source_beq : Source → Source → Bool
source_beq a b = (a.node == b.node) && (a.user == b.user) && (a.core == b.core)

pub source_beq_iff : (a b : Source) → (source_beq a b ≡ true) ↔ (a ≡ b)
source_beq_iff a b = ground (arith, string_eq.beq_iff a.core b.core)

instance abbrev pub source_eq : Eq Source
source_eq = record { beq = source_beq; beq_iff = source_beq_iff }

-- A row of `node_user_traffic`.
pub record Counter : Type 0 where
  pub up_bytes : ℕ
  pub down_bytes : ℕ
  pub last_up : ℕ
  pub last_down : ℕ
  pub last_epoch : String

-- A row of `traffic_usage_hourly`, and its key.
pub record Hourly : Type 0 where
  pub up_bytes : ℕ
  pub down_bytes : ℕ
  pub sample_count : ℕ

pub record Bucket : Type 0 where
  pub hour : ℕ
  pub source : Source

pub bucket_beq_iff :
    (a b : Bucket) → ((a.hour == b.hour) && source_beq a.source b.source ≡ true) ↔ (a ≡ b)
bucket_beq_iff a b = ground (arith, source_beq_iff a.source b.source)

instance abbrev pub bucket_eq : Eq Bucket
bucket_eq = record {
  beq = λ a b. (a.hour == b.hour) && source_beq a.source b.source;
  beq_iff = bucket_beq_iff;
}

-- The columns of `users` that accounting and enforcement read; instants are whole numbers.
pub record User : Type 0 where
  pub username : String
  pub enabled : Bool
  pub traffic_limit_bytes : ℕ
  pub used_traffic_bytes : ℕ
  pub expires_at : Option ℕ

pub record Tables : Type 0 where
  pub users : Map ℕ User
  pub counters : Map Source Counter
  pub hourly : Map Bucket Hourly

abbrev pub i64_limit : ℕ
i64_limit = 2 ^ 63

-- `cur.checked_sub(last).filter(|delta| *delta >= 0).unwrap_or(0)`, on values that are not negative
abbrev pub advance : ℕ → ℕ → ℕ
advance last cur = if leb last cur then cur - last else 0

unfoldable pub traffic_delta : Option (ℕ × ℕ × String) → String → ℕ → ℕ → ℕ × ℕ
traffic_delta none epoch cur_up cur_down = (0, 0)
traffic_delta (some (last_up, last_down, last_epoch)) epoch cur_up cur_down =
    if not (last_epoch == epoch)
    then (0, 0)
    else (advance last_up cur_up, advance last_down cur_down)

abbrev pub last_seen : Option Counter → Option (ℕ × ℕ × String)
last_seen none = none
last_seen (some c) = some (c.last_up, c.last_down, c.last_epoch)

-- The upsert into `node_user_traffic`, with the CASE expressions of its conflict branch.
unfoldable pub upsert_counter : Option Counter → String → ℕ → ℕ → Counter
upsert_counter none epoch cur_up cur_down = record {
  up_bytes = 0;
  down_bytes = 0;
  last_up = cur_up;
  last_down = cur_down;
  last_epoch = epoch;
}
upsert_counter (some c) epoch cur_up cur_down = record {
  up_bytes =
      c.up_bytes
      + (if (c.last_epoch == epoch) && leb c.last_up cur_up then cur_up - c.last_up else 0);
  down_bytes =
      c.down_bytes
      + (if (c.last_epoch == epoch) && leb c.last_down cur_down then cur_down - c.last_down else 0);
  last_up = cur_up;
  last_down = cur_down;
  last_epoch = epoch;
}

unfoldable pub upsert_hourly : Option Hourly → ℕ → ℕ → Hourly
upsert_hourly none up down = record { up_bytes = up; down_bytes = down; sample_count = 1 }
upsert_hourly (some h) up down = record {
  up_bytes = h.up_bytes + up;
  down_bytes = h.down_bytes + down;
  sample_count = h.sample_count + 1;
}

abbrev pub bytes_of : ℕ → Source → Counter → ℕ
bytes_of user source c = if source.user == user then c.up_bytes + c.down_bytes else 0

-- `SELECT COALESCE(SUM(up_bytes + down_bytes), 0) FROM node_user_traffic WHERE user_id = $1`
unfoldable pub used : ℕ → Map Source Counter → ℕ
used user counters = sum_by (bytes_of user) counters

unfoldable pub record_hourly : ℕ → Source → ℕ × ℕ → Map Bucket Hourly → Map Bucket Hourly
record_hourly hour source (up, down) hourly =
    if ltb 0 up || ltb 0 down
    then (let bucket : Bucket = record { hour = hour; source = source } in
        insert bucket (upsert_hourly (get bucket hourly) up down) hourly)
    else hourly

abbrev crossed : ℕ → ℕ → ℕ → Bool
crossed limit before after = ltb 0 limit && ltb before limit && leb limit after

-- One transaction. `none` is an error, which rolls it back: the user is gone, or the new total does
-- not fit a bigint.
unfoldable pub record_traffic : ℕ → Source → String → ℕ → ℕ → Tables → Option (Bool × Tables)
record_traffic hour source epoch cur_up cur_down t = elim (get source.user t.users) [
  | none ↦ none
  | some user ↦
      let previous = get source t.counters in
      let delta = traffic_delta (last_seen previous) epoch cur_up cur_down in
      let counters = insert source (upsert_counter previous epoch cur_up cur_down) t.counters in
      let hourly = record_hourly hour source delta t.hourly in
      let after = used source.user counters in
      if ltb after i64_limit
      then some (
        crossed user.traffic_limit_bytes user.used_traffic_bytes after,
        record {
          users = insert source.user (record user { used_traffic_bytes = after }) t.users;
          counters = counters;
          hourly = hourly;
        },
      )
      else none
]

-- `DELETE FROM node_user_traffic WHERE user_id = $1`, then the user's total is set to 0. `none` is
-- a user that does not exist.
unfoldable pub drop_user : ℕ → Map Source Counter → Map Source Counter
drop_user user [] = []
drop_user user ((source, c) ∷ rest) =
    let kept = drop_user user rest in if source.user == user then kept else (source, c) ∷ kept

unfoldable pub reset_user_traffic : ℕ → Tables → Option User × Tables
reset_user_traffic id t =
    let counters = drop_user id t.counters in
    elim (get id t.users) [
      | none ↦ (none, record t { counters = counters })
      | some user ↦
          let user' = record user { used_traffic_bytes = 0 } in
          (some user', record t { counters = counters; users = insert id user' t.users })
    ]

-- `User::suppressed_reason` and `User::is_active`, at the instant `now`.
pub data Reason : Type 0 where
  disabled expired quota : Reason

unfoldable pub suppressed_reason : ℕ → User → Option Reason
suppressed_reason now u =
    if not u.enabled
    then some disabled
    else if is_some_and u.expires_at (λ expires. leb expires now)
    then some expired
    else if ltb 0 u.traffic_limit_bytes && leb u.traffic_limit_bytes u.used_traffic_bytes
    then some quota
    else none

unfoldable pub is_active : ℕ → User → Bool
unfolding suppressed_reason
is_active now u = not (is_some (suppressed_reason now u))

-- The remaining quota that a node's spec carries for a user; the agent reads 0 as unlimited.
unfoldable pub quota_bytes : User → ℕ
quota_bytes u =
    if ltb 0 u.traffic_limit_bytes then u.traffic_limit_bytes - u.used_traffic_bytes else 0

-- One message of an agent's stats stream, as `subscribe` handles it: a user that is not known is
-- passed over, and an error ends the stream after what was committed before it.
pub record UserStat : Type 0 where
  pub name : String
  pub up_bytes : ℕ
  pub down_bytes : ℕ

unfoldable pub user_by_name : String → Map ℕ User → Option ℕ
user_by_name name [] = none
user_by_name name ((id, u) ∷ rest) = if u.username == name then some id else user_by_name name rest

-- The two conversions to i64 and the transaction. A stream with no epoch is "legacy".
unfoldable pub record_stat :
    ℕ → ℕ → String → String → ℕ → UserStat → Tables → Option (Bool × Tables)
record_stat hour node core epoch id stat t =
    let source : Source = record { node = node; user = id; core = core } in
    if ltb stat.up_bytes i64_limit && ltb stat.down_bytes i64_limit
    then record_traffic hour source (if epoch == "" then "legacy" else epoch) stat.up_bytes
        stat.down_bytes t
    else none

-- The result is `none` if the stream ends with an error, and else whether a quota was crossed.
unfoldable pub record_sample :
    ℕ → ℕ → String → String → List UserStat → Bool → Tables → Option Bool × Tables
record_sample hour node core epoch [] quota_crossed t = (some quota_crossed, t)
record_sample hour node core epoch (stat ∷ stats) quota_crossed t =
    elim (user_by_name stat.name t.users) [
      | none ↦ record_sample hour node core epoch stats quota_crossed t
      | some id ↦ elim (record_stat hour node core epoch id stat t) [
        | none ↦ (none, t)
        | some (b, t') ↦ record_sample hour node core epoch stats (quota_crossed || b) t'
      ]
    ]
