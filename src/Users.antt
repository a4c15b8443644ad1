-- ===== src/Users.antt =====
-- Subscribers and the resellers who create them: the handlers `create_user` and `update_user` of
-- master/src/api/mod.rs with their checks, and the rows that master/src/db/repo.rs writes. What a
-- handler reads of the database is its state; credentials, the grant of groups, pushes and the audit
-- trail are left out, and so are the numbers inside two messages.
pub mod Types
pub mod Validate
pub mod Limits
pub mod Valid
use honey.Prelude.{
  ℕ, ◌+◌, String, Bool, true, false, not, ◌&&◌, ◌||◌, Option, none, some, List, [], ◌∷◌, ltb, leb,
  ◌==◌, if◌then◌else◌, unwrap_or, map_option, is_some, count,
}
use honey.Prelude.Keys.{nat_eq, Map, get, insert}
use honey.Api.{
  ℤ, pos, negsuc, max_zero, ApiError, bad_request, not_found, forbidden, Checked, err, ok, bind,
  Check, ◌≫◌,
}
use honey.Access.{Identity, is_reseller}
use honey.Users.Types.{User, NewUser, UpdateUser}
use honey.Users.Validate.{validate_user, validate_update_user}
use honey.Inbound.{Patch, missing, null, value}
use honey.Inbound.Store.{patch_parts, case_when}

-- What an admin's row says of a reseller. The caps are never negative; 0 is no cap.
pub record Admin : Type 0 where
  pub max_users : ℕ
  pub user_traffic_ceiling_bytes : ℕ
  pub traffic_limit_bytes : ℕ
  pub groups : List ℕ

abbrev pub Users : Type 0
Users = Map ℕ User

abbrev pub is_of : Option ℕ → ℕ → Bool
is_of none admin = false
is_of (some creator) admin = creator == admin

-- `count_users_for_creator`
abbrev pub count_users_for_creator : ℕ → Users → ℕ
count_users_for_creator admin [] = 0
count_users_for_creator admin ((id, user) ∷ users) =
    (if is_of user.created_by admin then 1 else 0) + count_users_for_creator admin users

abbrev forbid_if : Bool → String → Check
forbid_if true message = err (forbidden message)
forbid_if false message = ok tt

-- Between 1 and the ceiling.
abbrev pub is_within_ceiling : ℕ → ℤ → Bool
is_within_ceiling ceiling (pos n) = leb 1 n && leb n ceiling
is_within_ceiling ceiling (negsuc n) = false

-- The row of the repository's `create_user`.
unfoldable pub created_user : ℕ → NewUser → Option ℕ → User
created_user id user created_by = record {
  id = id;
  username = user.username;
  password = user.password;
  enabled = true;
  traffic_limit_bytes = user.traffic_limit_bytes;
  expires_at = user.expires_at;
  device_limit = max_zero user.device_limit;
  created_by = created_by;
  subscription_title = user.subscription_title;
  subscription_description = user.subscription_description;
  subscription_group = user.subscription_group;
  subscription_traffic_policy = user.subscription_traffic_policy;
}

-- The row of the repository's `update_user`.
unfoldable pub updated_user : UpdateUser → User → User
unfolding patch_parts
updated_user user row = record row {
  username = unwrap_or user.username row.username;
  password = unwrap_or user.password row.password;
  enabled = unwrap_or user.enabled row.enabled;
  traffic_limit_bytes = unwrap_or user.traffic_limit_bytes row.traffic_limit_bytes;
  expires_at = case_when (patch_parts user.expires_at) row.expires_at;
  device_limit = unwrap_or (map_option max_zero user.device_limit) row.device_limit;
  subscription_title = case_when (patch_parts user.subscription_title) row.subscription_title;
  subscription_description =
      case_when (patch_parts user.subscription_description) row.subscription_description;
  subscription_group = case_when (patch_parts user.subscription_group) row.subscription_group;
  subscription_traffic_policy =
      unwrap_or user.subscription_traffic_policy row.subscription_traffic_policy;
}

-- Whether the creator of a row is the admin who asks; both may be missing.
abbrev pub same_admin : Option ℕ → Option ℕ → Bool
same_admin none none = true
same_admin none (some b) = false
same_admin (some a) none = false
same_admin (some a) (some b) = a == b

-- `owned_user`
unfoldable pub owned_user : Identity → ℕ → Users → Checked User
owned_user identity id users = elim (get id users) [
  | none ↦ err (not_found "user not found")
  | some user ↦
      if is_reseller identity && not (same_admin user.created_by identity.admin_id)
      then err (forbidden "this user is outside your scope")
      else ok user
]

-- What `create_user` asks of a reseller; `used` is what its users have used in all.
unfoldable pub check_allocation : ℕ → Option Admin → ℕ → NewUser → Users → Check
check_allocation admin_id none used input users = err (forbidden "reseller account not found")
check_allocation admin_id (some admin) used input users =
    forbid_if
      (ltb 0 admin.max_users && leb admin.max_users (count_users_for_creator admin_id users))
      "user limit reached"
    ≫ forbid_if
        (ltb 0 admin.user_traffic_ceiling_bytes
          && not (is_within_ceiling admin.user_traffic_ceiling_bytes input.traffic_limit_bytes))
        "per-user traffic limit is out of range"
    ≫ forbid_if (ltb 0 admin.traffic_limit_bytes && leb admin.traffic_limit_bytes used)
        "your traffic budget is exhausted — ask an admin to raise it"
    ≫ forbid_if (elim admin.groups [ [] ↦ true | g ∷ gs ↦ false ])
        "your account has no groups to sell yet — ask an admin"

abbrev pub check_reseller : Identity → Option Admin → ℕ → NewUser → Users → Check
check_reseller identity admin used input users =
    if is_reseller identity
    then elim identity.admin_id [
      | none ↦ err (forbidden "reseller identity has no account")
      | some admin_id ↦ check_allocation admin_id admin used input users
    ]
    else ok tt

-- `create_user`: `admin` is the row of the account that asks, `id` the new identifier.
unfoldable pub create_user : ℕ → Identity → Option Admin → ℕ → NewUser → Users → Checked Users
create_user id identity admin used input users =
    validate_user input
    ≫ check_reseller identity admin used input users
    ≫ ok (insert id (created_user id input identity.admin_id) users)

-- `update_user`
unfoldable pub update_user : ℕ → Identity → UpdateUser → Users → Checked Users
update_user id identity input users =
    validate_update_user input
    ≫ bind (owned_user identity id users) (λ row. ok (insert id (updated_user input row) users))
