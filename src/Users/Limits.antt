-- ===== src/Users/Limits.antt =====
-- A reseller's caps and scope.
use honey.Prelude.{
  ℕ, ◌+◌, true, ◌||◌, none, some, [], ◌∷◌, ◌≡◌, ◌≢◌, refl, ◌∙◌, arith, ltb, leb, ◌==◌,
  if◌then◌else◌, Option-cases, inl, inr,
}
use honey.Prelude.Keys.{nat_eq, get, insert, get-insert}
use honey.Api.{ℤ, pos, ok, IsAccepted}
use honey.Access.{Identity, is_reseller}
use honey.Inbound.{missing}
use honey.Users.{
  Users, Admin, is_of, count_users_for_creator, same_admin, is_within_ceiling, created_user,
  updated_user, owned_user, check_allocation, create_user, update_user,
}
use honey.Users.Types.{User, NewUser, UpdateUser}
use honey.Users.Validate.{validate_update_user}

count-insert_new :
    (admin id : ℕ) (user : User) (users : Users)
    → get id users ≡ none
    → count_users_for_creator admin (insert id user users)
      ≡ count_users_for_creator admin users + (if is_of user.created_by admin then 1 else 0)
unfolding get insert
count-insert_new admin id user [] h = omega arith
count-insert_new admin id user ((j, u) ∷ users) h =
    ground (arith, count-insert_new admin id user users)

-- What a reseller's request passed when it is accepted.
allocation_passed :
    (id : ℕ) (identity : Identity) (admin_id : ℕ) (admin : Admin) (used : ℕ) (input : NewUser)
    (users users' : Users)
    → is_reseller identity ≡ true
    → identity.admin_id ≡ some admin_id
    → create_user id identity (some admin) used input users ≡ ok users'
    → (users' ≡ insert id (created_user id input identity.admin_id) users)
      × IsAccepted (check_allocation admin_id (some admin) used input users)
unfolding create_user
allocation_passed id identity admin_id admin used input users users' reseller account h =
    ground arith

allocation-caps :
    (admin_id : ℕ) (admin : Admin) (used : ℕ) (input : NewUser) (users : Users)
    → IsAccepted (check_allocation admin_id (some admin) used input users)
    → (((admin.max_users == 0) || ltb (count_users_for_creator admin_id users) admin.max_users)
        ≡ true)
      × (((admin.user_traffic_ceiling_bytes == 0)
            || is_within_ceiling admin.user_traffic_ceiling_bytes input.traffic_limit_bytes)
          ≡ true)
      × (((admin.traffic_limit_bytes == 0) || ltb used admin.traffic_limit_bytes) ≡ true)
unfolding check_allocation
allocation-caps admin_id admin used input users h = ground arith

-- A new user that a reseller is allowed leaves it with no more users than its cap, if it has one, and
-- has a traffic limit between 1 and the reseller's ceiling, if there is one.
pub create_user-caps :
    (id : ℕ) (identity : Identity) (admin_id : ℕ) (admin : Admin) (used : ℕ) (input : NewUser)
    (users users' : Users)
    → is_reseller identity ≡ true
    → identity.admin_id ≡ some admin_id
    → get id users ≡ none
    → create_user id identity (some admin) used input users ≡ ok users'
    → (((admin.max_users == 0) || leb (count_users_for_creator admin_id users') admin.max_users)
        ≡ true)
      × (((admin.user_traffic_ceiling_bytes == 0)
            || is_within_ceiling admin.user_traffic_ceiling_bytes input.traffic_limit_bytes)
          ≡ true)
      × (((admin.traffic_limit_bytes == 0) || ltb used admin.traffic_limit_bytes) ≡ true)
create_user-caps id identity admin_id admin used input users users' reseller account new h =
    let parts =
      allocation_passed id identity admin_id admin used input users users' reseller account h in
    let caps = allocation-caps admin_id admin used input users parts.1 in
    (
      rw parts.0 (
          ground (
            arith,
            caps.0,
            count-insert_new admin_id id (created_user id input identity.admin_id) users new,
          )),
      caps.1,
      caps.2,
    )

pub unknown-refused :
    (id : ℕ) (identity : Identity) (input : UpdateUser) (users users' : Users)
    → update_user id identity input users ≡ ok users'
    → get id users ≢ none
unfolding update_user owned_user
unknown-refused id identity input users users' h = λ gone. ground arith

owned-changed :
    (id : ℕ) (identity : Identity) (input : UpdateUser) (users users' : Users) (row : User)
    → is_reseller identity ≡ true
    → update_user id identity input users ≡ ok users'
    → get id users ≡ some row
    → (same_admin row.created_by identity.admin_id ≡ true)
      × (users' ≡ insert id (updated_user input row) users)
unfolding update_user owned_user
owned-changed id identity input users users' row reseller h found = ground arith

-- A change by a reseller that is accepted is of a user that the reseller has created, and leaves
-- every other user as it is.
update_user-scope :
    (id : ℕ) (identity : Identity) (input : UpdateUser) (users users' : Users)
    → is_reseller identity ≡ true
    → update_user id identity input users ≡ ok users'
    → (row : User) × ((get id users ≡ some row)
        × (same_admin row.created_by identity.admin_id ≡ true)
        × ((j : ℕ)
            → get j users' ≡ (if id == j then some (updated_user input row) else get j users)))
update_user-scope id identity input users users' reseller h = elim (Option-cases (get id users)) [
  | inl gone ↦ absurd (unknown-refused id identity input users users' h gone)
  | inr (row, found) ↦
      let parts = owned-changed id identity input users users' row reseller h found in
      (row, (found, parts.0, λ j. rw parts.1 (get-insert id j (updated_user input row) users)))
]

-- A change of nothing but the traffic limit.
abbrev pub limit_change : ℤ → UpdateUser
limit_change limit = record {
  username = none;
  password = none;
  subscription_title = missing;
  subscription_description = missing;
  subscription_group = missing;
  subscription_traffic_policy = none;
  enabled = none;
  traffic_limit_bytes = some limit;
  expires_at = missing;
  device_limit = none;
}

owned_user-own :
    (id admin_id : ℕ) (identity : Identity) (users : Users) (row : User)
    → get id users ≡ some row
    → identity.admin_id ≡ some admin_id
    → row.created_by ≡ some admin_id
    → owned_user identity id users ≡ ok row
unfolding owned_user
owned_user-own id admin_id identity users row found account creator = ground arith

-- A reseller may set the traffic limit of a user of its own to any number, 0 for no limit among them:
-- a change is accepted whatever ceiling the reseller's account has.
pub update_user-ceiling :
    (id admin_id limit : ℕ) (identity : Identity) (users : Users) (row : User)
    → get id users ≡ some row
    → identity.admin_id ≡ some admin_id
    → row.created_by ≡ some admin_id
    → (users' : Users) × ((update_user id identity (limit_change (pos limit)) users ≡ ok users')
        × (get id users' ≡ some (record row { traffic_limit_bytes = pos limit })))
unfolding update_user validate_update_user updated_user
update_user-ceiling id admin_id limit identity users row found account creator = (
  insert id (updated_user (limit_change (pos limit)) row) users,
  (
    rw (owned_user-own id admin_id identity users row found account creator) refl,
    get-insert id id _ users ∙ ground arith,
  ),
)
