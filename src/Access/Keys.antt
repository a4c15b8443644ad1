-- ===== src/Access/Keys.antt =====
-- API keys: `validate_api_key_input` and `api_key_status` of master/src/api/mod.rs, and the condition
-- of `authenticate_api_key` of master/src/db/repo.rs. Instants are seconds.
use Prim.Native.String.{count}
use honey.Prelude.{
  ℕ, ◌+◌, ◌*◌, ◌≤◌, String, Bool, true, false, not, ◌&&◌, ◌||◌, Option, none, some, [], ◌∷◌, ◌≡◌,
  arith, ltb, leb, ◌==◌, if◌then◌else◌, is_some, is_some_and,
}
use honey.Prelude.Text.{within, trim, is_empty, chars_all, one_of}
use honey.Api.{ℤ, pos, negsuc, forbidden, Checked, err, ok, Check, require_not, ◌≫◌}
use honey.Access.{Identity, role_rank, is_reseller, permits}

pub record NewApiKeyInput : Type 0 where
  pub name : String
  pub role : String
  pub expires_days : ℤ

-- `char::is_control`
abbrev is_control : ℕ → Bool
is_control c = within 0 31 c || within 127 159 c

abbrev in_days : ℤ → Bool
in_days (pos n) = leb n 3650
in_days (negsuc n) = false

abbrev expiry : ℕ → ℤ → Option ℕ
expiry now (pos n) = if ltb 0 n then some (now + n * 86_400) else none
expiry now (negsuc n) = none

abbrev forbid_if : Bool → String → Check
forbid_if true message = err (forbidden message)
forbid_if false message = ok tt

unfoldable pub validate_api_key_input :
    Identity → NewApiKeyInput → ℕ → Checked (String × String × Option ℕ)
validate_api_key_input identity input now =
    require_not
      (is_empty (trim input.name)
        || ltb 64 (count (trim input.name))
        || not (chars_all (λ c. not (is_control c)) (trim input.name)))
      "name must be 1-64 printable characters"
    ≫ require_not (not (one_of (trim input.role) ("owner" ∷ "admin" ∷ "operator" ∷ "viewer" ∷ [])))
        "scope must be owner/admin/operator/viewer"
    ≫ forbid_if (is_reseller identity || not (permits identity (trim input.role)))
        "cannot mint a key above your own role"
    ≫ require_not (not (in_days input.expires_days)) "expires_days must be between 0 and 3650"
    ≫ ok (trim input.name, trim input.role, expiry now input.expires_days)

pub record ApiKey : Type 0 where
  pub role : String
  pub revoked_at : Option ℕ
  pub expires_at : Option ℕ

unfoldable pub api_key_status : ApiKey → ℕ → String
api_key_status key now =
    if is_some key.revoked_at
    then "revoked"
    else (if is_some_and key.expires_at (λ expires. leb expires now) then "expired" else "active")

abbrev unexpired : Option ℕ → ℕ → Bool
unexpired none now = true
unexpired (some expires) now = ltb now expires

-- The rows that the query of `authenticate_api_key` finds.
unfoldable pub is_in_force : ApiKey → ℕ → Bool
is_in_force key now = not (is_some key.revoked_at) && unexpired key.expires_at now

-- The panel shows a key as active exactly if a request that carries it is authenticated.
pub api_key_status-is_in_force :
    (key : ApiKey) (now : ℕ)
    → api_key_status key now ≡ (
        if is_in_force key now
        then "active"
        else (if is_some key.revoked_at then "revoked" else "expired"))
unfolding api_key_status is_in_force
api_key_status-is_in_force key now = ground arith

-- A key that may be minted ranks no higher than its owner, who is no reseller. If days are given, it
-- is in force for exactly that long; if none are, it is in force for good, until it is revoked.
pub minted_key_bounds :
    (identity : Identity) (input : NewApiKeyInput) (now later days : ℕ) (name role : String)
    (expires_at : Option ℕ)
    → validate_api_key_input identity input now ≡ ok (name, role, expires_at)
    → input.expires_days ≡ pos days
    → (role_rank role ≤ role_rank identity.role)
      × (is_reseller identity ≡ false)
      × (is_in_force (record { role = role; revoked_at = none; expires_at = expires_at }) later
          ≡ ((days == 0) || ltb later (now + days * 86_400)))
      × (days ≤ 3650)
unfolding validate_api_key_input is_in_force permits
minted_key_bounds identity input now later days name role expires_at h e = ground arith
