-- ===== src/Access.antt =====
-- Who may do what: `Identity` of master/src/auth.rs, and the guards of master/src/api/mod.rs.
pub mod Paths
pub mod Guard
pub mod Keys
pub mod Matrix
use text.Mathlib.Text.{◌==◌ as str_eq}
use honey.Prelude.{
  ℕ, String, Bool, true, false, not, ◌&&◌, ◌||◌, Option, none, some, List, [], ◌∷◌, leb, ◌==◌,
  if◌then◌else◌, is_some_and, unwrap_or, and_then,
}
use honey.Prelude.Text.{one_of}
use honey.Prelude.Keys.{string_eq, Map, get}
use honey.Api.{ℤ, pos, negsuc, Checked, err, ok, forbidden}

-- The username is `legacy-api-token`, `apikey:…` or that of an admin; a session hash is a text here.
pub record Identity : Type 0 where
  pub admin_id : Option ℕ
  pub username : String
  pub role : String
  pub session_hash : Option String
  pub permissions : Option (Map String ℤ)

abbrev pub legacy : Identity
legacy = record {
  admin_id = none;
  username = "legacy-api-token";
  role = "owner";
  session_hash = none;
  permissions = none;
}

unfoldable pub role_rank : String → ℕ
role_rank role =
    if str_eq role "owner"
    then 3
    else (if str_eq role "admin" then 2 else (if str_eq role "operator" then 1 else 0))

abbrev pub valid_role : String → Bool
valid_role role = one_of role ("owner" ∷ "admin" ∷ "operator" ∷ "viewer" ∷ "reseller" ∷ [])

abbrev pub is_reseller : Identity → Bool
is_reseller identity = str_eq identity.role "reseller"

unfoldable pub permits : Identity → String → Bool
permits identity required = leb (role_rank required) (role_rank identity.role)

-- A level of the matrix against the level that is needed.
abbrev reaches : ℕ → ℤ → Bool
reaches need (pos n) = leb need n
reaches need (negsuc n) = false

unfoldable pub permits_domain : Identity → String → ℕ → Bool
permits_domain identity domain need =
    str_eq domain "dashboard"
    || reaches need (unwrap_or (and_then identity.permissions (get domain)) (pos 0))

-- `session_account`
abbrev pub session_account : Identity → Checked ℕ
session_account identity = elim identity.admin_id [
  | none ↦ err (forbidden "admin sessions require a panel session")
  | some id ↦ ok id
]

unfoldable pub may_manage_account : Identity → ℕ → ℕ → Bool
may_manage_account identity own_id target_id =
    (target_id == own_id) || (not (is_reseller identity) && permits identity "admin")
