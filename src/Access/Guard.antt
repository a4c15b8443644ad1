-- ===== src/Access/Guard.antt =====
-- `require_auth`, the guard in front of every protected route, up to the call of the route's handler.
-- Header values are texts; the hash of a token, the tables and the parsing of addresses are
-- parameters.
pub mod Refusals
pub mod Origins
pub mod Resellers
use text.Mathlib.Text.{◌==◌ as str_eq, starts_with}
use Prim.Native.String.{◌++◌}
use honey.Prelude.{
  ℕ, String, Bool, true, false, not, ◌&&◌, ◌||◌, Option, none, some, List, [], ◌∷◌, if◌then◌else◌,
  is_some_and, unwrap_or, and_then, any, is_some,
}
use honey.Prelude.Text.{eq_ignore_ascii_case, strip_prefix, split_once, trim, is_empty}
use honey.Prelude.Keys.{Map, keep_if}
use honey.Api.{ℤ, ApiError, Checked, err, ok, bind, Check, ◌≫◌}
use honey.Access.{Identity, legacy, is_reseller, permits, permits_domain}
use honey.Access.Paths.{Method, is_safe, reseller_permits, path_domain, required_role}

pub record Headers : Type 0 where
  -- after `Bearer `
  pub authorization : Option String
  pub session_cookie : Option String
  pub forwarded_for : Option String
  pub sec_fetch_site : Option String
  pub origin : Option String
  pub host : Option String

pub record Request : Type 0 where
  pub method : Method
  pub path : String
  pub headers : Headers

pub record KeyRow : Type 0 where
  pub name : String
  pub role : String
  pub created_by : Option ℕ

pub record AdminRow : Type 0 where
  pub id : ℕ
  pub username : String
  pub role : String
  pub custom_role_id : Option ℕ

-- What the answers of the database are, where `none` on the outside is an error; the last two parse
-- an address and test it against a network.
pub record Environment : Type 0 where
  pub api_token : Option String
  pub token_hash : String → String
  pub authenticate_api_key : String → Option (Option KeyRow)
  pub admin_for_session : String → Option (Option AdminRow)
  pub custom_role_permissions : ℕ → Option (Option (Map String ℤ))
  pub admin_ips : Option (List String)
  pub parse_address : String → Option ℕ
  pub is_in_network : String → ℕ → Bool

abbrev pub lookup_failed : ApiError
lookup_failed = record { status = 500; code = "M1202"; message = "internal server error" }

abbrev pub not_signed_in : ApiError
not_signed_in = record { status = 401; code = "M1207"; message = "unauthorized" }

abbrev pub denied : String → String → ApiError
denied code message = record { status = 403; code = code; message = message }

-- `forwarded_remote`: the first address that the proxies name.
unfoldable pub forwarded_remote : Headers → Option String
forwarded_remote headers =
    keep_if (λ s. not (is_empty s))
      (and_then headers.forwarded_for
        (λ v. some (trim (elim (split_once b',' v) [ none ↦ v | some parts ↦ parts.0 ]))))

abbrev in_any : Environment → List String → Option ℕ → Bool
in_any env list none = false
in_any env list (some ip) = any (λ cidr. env.is_in_network cidr ip) list

-- `none` is an error; with no list there is no policy.
abbrev pub ip_allowed : Environment → Option String → Option Bool
ip_allowed env remote = elim env.admin_ips [
  | none ↦ none
  | some list ↦ some (elim list [
    | [] ↦ true
    | first ∷ rest ↦ in_any env (first ∷ rest) (and_then remote env.parse_address)
  ])
]

abbrev pub or_else {ℓ} : {A : Type ℓ} → Option A → Option A → Option A
or_else none o = o
or_else (some a) o = some a

unfoldable pub origin_matches_host : Headers → Bool
origin_matches_host headers = elim headers.origin [
  | none ↦ true
  | some origin ↦ elim headers.host [
    | none ↦ false
    | some host ↦
        is_some_and (or_else (strip_prefix origin "https://") (strip_prefix origin "http://"))
          (λ origin_host. eq_ignore_ascii_case origin_host host)
  ]
]

abbrev pub key_identity : KeyRow → Identity
key_identity key = record {
  admin_id = key.created_by;
  username = "apikey:" ++ key.name;
  role = key.role;
  session_hash = none;
  permissions = none;
}

-- A matrix that cannot be read is taken for none.
abbrev pub matrix : Environment → Option ℕ → Option (Map String ℤ)
matrix env none = none
matrix env (some crid) = and_then (env.custom_role_permissions crid) (λ found. found)

abbrev pub session_identity : Environment → String → AdminRow → Identity
session_identity env hash admin = record {
  admin_id = some admin.id;
  username = admin.username;
  role = admin.role;
  session_hash = some hash;
  permissions = matrix env admin.custom_role_id;
}

abbrev found_key : Option (Option KeyRow) → Checked (Option Identity)
found_key none = err lookup_failed
found_key (some none) = ok none
found_key (some (some key)) = ok (some (key_identity key))

abbrev by_bearer : Environment → String → Checked (Option Identity)
by_bearer env token =
    if is_some_and env.api_token (λ expected. str_eq token expected)
    then ok (some legacy)
    else (if not (starts_with token "hny_")
        then ok none
        else found_key (env.authenticate_api_key (env.token_hash token)))

abbrev found_admin : Environment → String → Option (Option AdminRow) → Checked (Option Identity)
found_admin env hash none = err lookup_failed
found_admin env hash (some none) = ok none
found_admin env hash (some (some admin)) = ok (some (session_identity env hash admin))

abbrev by_cookie : Environment → String → Checked (Option Identity)
by_cookie env token =
    found_admin env (env.token_hash token) (env.admin_for_session (env.token_hash token))

-- Who asks, and whether a cookie says so.
unfoldable pub authenticate : Environment → Headers → Checked (Option Identity)
authenticate env headers = elim headers.authorization [
  | some token ↦ by_bearer env token
  | none ↦ elim headers.session_cookie [ none ↦ ok none | some token ↦ by_cookie env token ]
]

abbrev pub is_cookie_auth : Headers → Bool
is_cookie_auth headers = not (is_some headers.authorization) && is_some headers.session_cookie

abbrev deny_if : Bool → String → String → Check
deny_if true code message = err (denied code message)
deny_if false code message = ok tt

unfoldable pub check_origin : Request → Check
check_origin req =
    if is_cookie_auth req.headers && not (is_safe req.method)
    then (deny_if (is_some_and req.headers.sec_fetch_site (λ v. str_eq v "cross-site")) "M1209"
          "cross-site request rejected"
        ≫ deny_if (not (origin_matches_host req.headers)) "M1209" "origin does not match host")
    else ok tt

unfoldable pub check_scope : Request → Identity → Check
check_scope req identity =
    if is_reseller identity
    then deny_if (not (reseller_permits req.method req.path)) "M1211"
        "reseller scope does not allow this"
    else (if is_some identity.permissions
        then deny_if
            (not (
              permits_domain identity (path_domain req.path) (if is_safe req.method then 1 else 2)))
            "M1210" ("custom role lacks " ++ path_domain req.path ++ " access")
        else deny_if (not (permits identity (required_role req.method req.path))) "M1210"
            (required_role req.method req.path ++ " role required"))

abbrev admit : Environment → Request → Option Identity → Checked Identity
admit env req none = err not_signed_in
admit env req (some identity) =
    deny_if (not (unwrap_or (ip_allowed env (forwarded_remote req.headers)) true)) "M1210"
      "address not allowed"
    ≫ check_origin req
    ≫ check_scope req identity
    ≫ ok identity

-- The identity that the handler gets, or the answer that is sent in its place.
unfoldable pub require_auth : Environment → Request → Checked Identity
require_auth env req = bind (authenticate env req.headers) (admit env req)
