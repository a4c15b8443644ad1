-- ===== src/Witness/Requests.antt =====
-- A few requests to the guarded API.
use honey.Prelude.{
  ◌+◌, ◌*◌, ◌≤◌, ◌==◌, ◌||◌, String, true, false, Option, none, some, [], ◌≡◌, ◌≢◌, refl, ltb,
  if◌then◌else◌,
}
use text.Mathlib.Text.{◌==◌ as str_eq}
use honey.Prelude.Text.{
  one_of, trim, trim_start, trim_end, is_empty, chars_all, split_once, strip_prefix,
  eq_ignore_ascii_case,
}
use honey.Api.{pos, ok}
use honey.Access.{Identity, legacy, role_rank, is_reseller, permits}
use honey.Access.Paths.{
  get, post, is_get, required_role, reseller_permits, is_personal, starts_with_any,
}
use honey.Access.Guard.{
  Headers, Request, Environment, AdminRow, origin_matches_host, authenticate, check_origin,
  check_scope, require_auth, forwarded_remote, session_identity,
}
use honey.Access.Guard.Origins.{IsOriginOf, require_auth-same_site}
use honey.Access.Guard.Resellers.{staff_paths, is_own, reseller_confined}
use honey.Access.Guard.Refusals.{viewer_changes_nothing, owner_paths_guarded}
use honey.Access.Keys.{NewApiKeyInput, validate_api_key_input, is_in_force, minted_key_bounds}

-- One session for each role: the cookie is the name of the role.
abbrev admin_of : String → Option (Option AdminRow)
admin_of role = some (
    some (record {
      id = 1;
      username = "u";
      role = role;
      custom_role_id = if str_eq role "admin" then some 9 else none;
    }))

abbrev env : Environment
env = record {
  api_token = some "shared";
  token_hash = λ t. t;
  authenticate_api_key = λ t. some none;
  admin_for_session = admin_of;
  custom_role_permissions = λ id. none;
  admin_ips = some [];
  parse_address = λ s. none;
  is_in_network = λ s n. false;
}

abbrev from_panel : String → Headers
from_panel role = record {
  authorization = none;
  session_cookie = some role;
  forwarded_for = none;
  sec_fetch_site = some "same-origin";
  origin = some "https://panel.example";
  host = some "panel.example";
}

abbrev identity_of : String → Identity
identity_of role =
    session_identity env role
      (record { id = 1; username = "u"; role = role; custom_role_id = none })

abbrev notify : Request
notify = record { method = post; path = "/notifications/read"; headers = from_panel "viewer" }

notify_admitted : require_auth env notify ≡ ok (identity_of "viewer")
unfolding require_auth authenticate check_origin check_scope forwarded_remote origin_matches_host
    permits required_role role_rank strip_prefix eq_ignore_ascii_case
notify_admitted = refl

require_auth-same_site_example :
    (notify.headers.sec_fetch_site ≢ some "cross-site")
    × ((origin : String)
        → notify.headers.origin ≡ some origin
        → (host : String) × (notify.headers.host ≡ some host) × IsOriginOf origin host)
require_auth-same_site_example =
    require_auth-same_site env notify (identity_of "viewer") notify_admitted refl refl

viewer_changes_nothing_example :
    (is_personal notify.path || str_eq notify.path "/auth/logout") ≡ true
unfolding role_rank
viewer_changes_nothing_example =
    viewer_changes_nothing env notify (identity_of "viewer") notify_admitted refl refl refl refl

abbrev settings_request : Request
settings_request = record { method = get; path = "/settings"; headers = from_panel "owner" }

settings_admitted : require_auth env settings_request ≡ ok (identity_of "owner")
unfolding require_auth authenticate check_origin check_scope forwarded_remote origin_matches_host
    permits required_role role_rank
settings_admitted = refl

owner_paths_guarded_example : (identity_of "owner").role ≡ "owner"
owner_paths_guarded_example =
    owner_paths_guarded env settings_request (identity_of "owner") settings_admitted refl refl refl
      refl

abbrev own_users : Request
own_users = record { method = get; path = "/users/7/groups"; headers = from_panel "reseller" }

own_users_admitted : require_auth env own_users ≡ ok (identity_of "reseller")
unfolding require_auth authenticate check_origin check_scope forwarded_remote reseller_permits
    one_of strip_prefix split_once
own_users_admitted = refl

reseller_confined_example :
    (starts_with_any own_users.path staff_paths ≡ false)
    × (is_get own_users.method ≡ false → is_own own_users.path ≡ true)
reseller_confined_example =
    reseller_confined env own_users (identity_of "reseller") own_users_admitted refl

abbrev forged : Request
forged = record {
  method = get;
  path = "/users";
  headers = record (from_panel "owner") { authorization = some "hny_forged" };
}

abbrev month : NewApiKeyInput
month = record { name = "ci"; role = "operator"; expires_days = pos 30 }

month_minted :
    validate_api_key_input legacy month 100 ≡ ok ("ci", "operator", some (100 + 30 * 86_400))
unfolding validate_api_key_input permits role_rank trim trim_start trim_end is_empty chars_all
    one_of
month_minted = refl

minted_key_bounds_example :
    (role_rank "operator" ≤ role_rank "owner")
    × (is_reseller legacy ≡ false)
    × (is_in_force
          (record { role = "operator"; revoked_at = none; expires_at = some (100 + 30 * 86_400) })
          5000
        ≡ ((30 == 0) || ltb 5000 (100 + 30 * 86_400)))
    × (30 ≤ 3650)
minted_key_bounds_example =
    minted_key_bounds legacy month 100 5000 30 "ci" "operator" (some (100 + 30 * 86_400))
      month_minted refl

abbrev restricted : Identity
restricted = record (identity_of "viewer") { permissions = some [] }
