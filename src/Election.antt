-- ===== src/Election.antt =====
-- Leader election over a database lease: `ha_try_acquire` of master/src/db/repo.rs and the loop of
-- master/src/ha.rs. Instants are database time in whole seconds; an instance is named by its id.
pub mod Steps
pub mod Safety
use honey.Prelude.{
  ℕ, ◌+◌, ◌*◌, ◌/◌, ◌%◌, ◌^◌, Bool, true, false, ◌&&◌, ◌||◌, Option, none, some, ltb, ◌==◌,
  if◌then◌else◌, max,
}

-- The row `master` of `ha_leader`.
pub record Lease : Type 0 where
  pub holder : ℕ
  pub acquired_at : ℕ
  pub renewed_at : ℕ
  pub expires_at : ℕ

abbrev pub taken : ℕ → ℕ → ℕ → Lease
taken holder ttl_secs now = record {
  holder = holder;
  acquired_at = now;
  renewed_at = now;
  expires_at = now + ttl_secs;
}

-- The upsert: its conflict branch fires only for the holder itself, or past the end of the lease.
-- The result says whether `RETURNING` gave this holder.
unfoldable pub try_acquire : ℕ → ℕ → ℕ → Option Lease → Bool × Option Lease
try_acquire holder ttl_secs now none = (true, some (taken holder ttl_secs now))
try_acquire holder ttl_secs now (some l) =
    if (l.holder == holder) || ltb l.expires_at now
    then (
      true,
      some (record {
        holder = holder;
        acquired_at = if l.holder == holder then l.acquired_at else now;
        renewed_at = now;
        expires_at = now + ttl_secs;
      }),
    )
    else (false, some l)

-- `run` keeps the lease at least three seconds and renews it at a third of that, at least once a
-- second.
unfoldable pub lease_secs : ℕ → ℕ
lease_secs ttl = max ttl 3

unfoldable pub renew_secs : ℕ → ℕ
unfolding lease_secs
renew_secs ttl = max (lease_secs ttl / 3) 1

-- One instance: its `IS_LEADER` flag and its count of ticks, a u64 that wraps.
pub record Instance : Type 0 where
  pub is_leader : Bool
  pub ticks : ℕ

-- What the database answered to one tick; `none` is an error.
abbrev pub Answer : Type 0
Answer = Option Bool

unfoldable pub set_leader : Answer → Bool
set_leader none = false
set_leader (some held) = held

-- The end of a tick: the flag follows the answer, and the result says whether this instance then
-- prunes the roster.
unfoldable pub end_tick : Answer → Instance → Bool × Instance
unfolding set_leader
end_tick answer i =
    let leader = set_leader answer in
    let ticks = (i.ticks + 1) % 2 ^ 64 in
    (leader && (ticks % 10 == 0), record { is_leader = leader; ticks = ticks })
