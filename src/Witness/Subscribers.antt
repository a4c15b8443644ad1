-- ===== src/Witness/Subscribers.antt =====
-- A reseller with one user.
use honey.Prelude.{◌==◌, ◌||◌, true, none, some, [], ◌∷◌, ◌≡◌, refl, ltb, leb}
use honey.Prelude.Text.{trim, trim_start, trim_end, is_empty, one_of}
use honey.Prelude.Keys.{nat_eq, get, insert}
use honey.Api.{pos, ok}
use honey.Access.{Identity}
use honey.Users.{
  Users, Admin, count_users_for_creator, is_within_ceiling, created_user, updated_user, owned_user,
  check_allocation, create_user, update_user,
}
use honey.Users.Types.{User, NewUser}
use honey.Users.Validate.{validate_user, validate_update_user}
use honey.Users.Limits.{create_user-caps, update_user-ceiling, limit_change}
use honey.Users.Valid.{is_valid, empty, created, Stored-is_valid}

abbrev reseller : Identity
reseller = record {
  admin_id = some 4;
  username = "shop";
  role = "reseller";
  session_hash = none;
  permissions = none;
}

abbrev caps : Admin
caps = record {
  max_users = 3;
  user_traffic_ceiling_bytes = 1000;
  traffic_limit_bytes = 5000;
  groups = 1 ∷ [];
}

abbrev bob : NewUser
bob = record {
  username = "bob";
  password = "secret";
  subscription_title = none;
  subscription_description = none;
  subscription_group = none;
  subscription_traffic_policy = "inherit";
  traffic_limit_bytes = pos 500;
  expires_at = none;
  device_limit = pos 2;
}

abbrev row : User
row = record {
  id = 7;
  username = "bob";
  password = "secret";
  enabled = true;
  traffic_limit_bytes = pos 500;
  expires_at = none;
  device_limit = pos 2;
  created_by = some 4;
  subscription_title = none;
  subscription_description = none;
  subscription_group = none;
  subscription_traffic_policy = "inherit";
}

abbrev one : Users
one = (7, row) ∷ []

bob_created : create_user 7 reseller (some caps) 100 bob [] ≡ ok one
unfolding create_user validate_user check_allocation created_user insert trim trim_start trim_end
    is_empty one_of
bob_created = refl

create_user-caps_example :
    (((3 == 0) || leb (count_users_for_creator 4 one) 3) ≡ true)
    × (((1000 == 0) || is_within_ceiling 1000 (pos 500)) ≡ true)
    × (((5000 == 0) || ltb 100 5000) ≡ true)
unfolding get
create_user-caps_example =
    create_user-caps 7 reseller 4 caps 100 bob [] one refl refl refl bob_created

row_found : get 7 one ≡ some row
unfolding get
row_found = refl

Stored-is_valid_example : is_valid row ≡ true
Stored-is_valid_example =
    Stored-is_valid one (created 7 reseller (some caps) 100 bob [] one empty bob_created) 7 row
      row_found

abbrev opened : Users
opened = (7, record row { traffic_limit_bytes = pos 0 }) ∷ []

row_opened : update_user 7 reseller (limit_change (pos 0)) one ≡ ok opened
unfolding update_user validate_update_user owned_user updated_user get insert
row_opened = refl

update_user-ceiling_example :
    (users : Users) × ((update_user 7 reseller (limit_change (pos 0)) one ≡ ok users)
      × (get 7 users ≡ some (record row { traffic_limit_bytes = pos 0 })))
update_user-ceiling_example = update_user-ceiling 7 4 0 reseller one row row_found refl refl
