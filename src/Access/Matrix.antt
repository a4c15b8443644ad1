-- ===== src/Access/Matrix.antt =====
-- A custom role's matrix of domains: which matrices are valid, and what it takes the place of.
use honey.Prelude.{Bool, true, false, ◌&&◌, [], ◌∷◌, ◌≡◌, arith, leb, is_some}
use honey.Prelude.Text.{one_of, trim_start_matches}
use honey.Api.{ok}
use honey.Api.Json.{Json, unsigned, object, Fields, end, field}
use honey.Access.{Identity, is_reseller, permits_domain}
use honey.Access.Paths.{Method, path_domain, required_role}
use honey.Access.Guard.{Headers, check_scope}

abbrev is_level : Json → Bool
is_level (unsigned n) = leb n 2
is_level _ = false

abbrev all_levels : Fields → Bool
all_levels end = true
all_levels (field k v rest) =
    one_of k (
      "nodes" ∷ "inbounds" ∷ "users" ∷ "groups" ∷ "routing" ∷ "domains" ∷ "config" ∷ "notifications"
      ∷ "audit" ∷ "admin" ∷ [])
    && is_level v
    && all_levels rest

unfoldable pub valid_permissions : Json → Bool
valid_permissions (object map) = all_levels map
valid_permissions _ = false

-- Every identity with a matrix, an empty one too, passes the scope check of `/update/apply` with any
-- method, while the ladder of roles keeps that path for the owner.
update_apply_open :
    (identity : Identity) (method : Method) (headers : Headers)
    → is_reseller identity ≡ false
    → is_some identity.permissions ≡ true
    → (check_scope (record { method = method; path = "/update/apply"; headers = headers }) identity
        ≡ ok tt)
      × (required_role method "/update/apply" ≡ "owner")
unfolding check_scope permits_domain path_domain required_role trim_start_matches
update_apply_open identity method headers ladder custom = ground arith
