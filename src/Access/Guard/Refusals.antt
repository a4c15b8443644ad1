-- ===== src/Access/Guard/Refusals.antt =====
-- What the guard lets through, and what it keeps out.
use text.Mathlib.Text.{◌==◌ as str_eq, starts_with}
use text.Mathlib.TextEquality.{eq_iff}
use honey.Prelude.{
  String, Bool, true, false, ◌||◌, none, some, ◌≡◌, refl, subst, ◌≤◌, arith, is_some_and,
}
use honey.Prelude.Text.{contains, ends_with}
use honey.Api.{err, ok}
use honey.Access.{Identity, role_rank, is_reseller, permits}
use honey.Access.Paths.{Method, is_safe, required_role, is_personal, is_owners, role_for}
use honey.Access.Guard.{
  Request, Environment, not_signed_in, authenticate, check_origin, check_scope, require_auth,
}

-- What it takes for a request to be let through, in the order of the checks.
pub admitted :
    (env : Environment) (req : Request) (identity : Identity)
    → require_auth env req ≡ ok identity
    → (authenticate env req.headers ≡ ok (some identity))
      × (check_origin req ≡ ok tt)
      × (check_scope req identity ≡ ok tt)
unfolding require_auth
admitted env req identity h = ground arith

-- A bearer token that is neither the shared one nor an API key in force is refused, whatever session
-- cookie comes with it.
require_auth-bad_bearer :
    (env : Environment) (req : Request) (token : String)
    → req.headers.authorization ≡ some token
    → is_some_and env.api_token (λ expected. str_eq token expected) ≡ false
    → env.authenticate_api_key (env.token_hash token) ≡ some none
    → require_auth env req ≡ err not_signed_in
unfolding require_auth authenticate
require_auth-bad_bearer env req token h shared key = ground arith

role_for-low :
    (personal owners audit safe logout operates : Bool)
    → safe ≡ false
    → role_rank (role_for personal owners audit (safe || logout) operates) ≡ 0
    → (personal || logout) ≡ true
unfolding role_rank
role_for-low true owners audit safe logout operates change low = refl
role_for-low false true audit safe logout operates change low = ground arith
role_for-low false false true safe logout operates change low = ground arith
role_for-low false false false safe true operates change low = refl
role_for-low false false false true false operates change low = ground arith
role_for-low false false false false false true change low = ground arith
role_for-low false false false false false false change low = ground arith

required_role-low :
    (method : Method) (path : String)
    → is_safe method ≡ false
    → role_rank (required_role method path) ≡ 0
    → (is_personal path || str_eq path "/auth/logout") ≡ true
unfolding required_role
required_role-low method path change low =
    role_for-low (is_personal path) (is_owners path)
      (starts_with path "/audit" || contains path "/enrollments") (is_safe method)
      (str_eq path "/auth/logout")
      (ends_with path "/push"
        || ends_with path "/rotate"
        || ends_with path "/rotate-sub"
        || ends_with path "/reset-traffic"
        || ends_with path "/labels")
      change low

required_role-owner :
    (method : Method) (path : String)
    → is_personal path ≡ false
    → is_owners path ≡ true
    → required_role method path ≡ "owner"
unfolding required_role
required_role-owner method path personal owners = ground arith

role_rank-owner : (role : String) → role_rank "owner" ≤ role_rank role → role ≡ "owner"
unfolding role_rank
role_rank-owner role h = ground (arith, eq_iff role "owner")

-- What the ladder asks of an identity that is let through.
check_scope-ladder :
    (req : Request) (identity : Identity)
    → check_scope req identity ≡ ok tt
    → is_reseller identity ≡ false
    → identity.permissions ≡ none
    → role_rank (required_role req.method req.path) ≤ role_rank identity.role
unfolding check_scope permits
check_scope-ladder req identity h ladder plain = ground arith

-- A request that changes something and is let through for an identity of the lowest rank, with no
-- matrix of its own and not a reseller, goes to one of the personal paths or signs out.
pub viewer_changes_nothing :
    (env : Environment) (req : Request) (identity : Identity)
    → require_auth env req ≡ ok identity
    → is_reseller identity ≡ false
    → identity.permissions ≡ none
    → role_rank identity.role ≡ 0
    → is_safe req.method ≡ false
    → (is_personal req.path || str_eq req.path "/auth/logout") ≡ true
viewer_changes_nothing env req identity h ladder plain low change =
    let enough = check_scope-ladder req identity (admitted env req identity h).2 ladder plain in
    required_role-low req.method req.path change (omega (arith, enough, low))

-- A request for a path of the owner is let through, on the ladder of roles, for the owner alone.
pub owner_paths_guarded :
    (env : Environment) (req : Request) (identity : Identity)
    → require_auth env req ≡ ok identity
    → is_reseller identity ≡ false
    → identity.permissions ≡ none
    → is_personal req.path ≡ false
    → is_owners req.path ≡ true
    → identity.role ≡ "owner"
owner_paths_guarded env req identity h ladder plain personal owners =
    let enough = check_scope-ladder req identity (admitted env req identity h).2 ladder plain in
    role_rank-owner identity.role (
      subst (λ r. role_rank r ≤ role_rank identity.role)
        (required_role-owner req.method req.path personal owners) enough)
