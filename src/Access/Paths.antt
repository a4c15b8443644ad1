-- ===== src/Access/Paths.antt =====
-- What a request asks for: `reseller_permits`, `path_domain` and `required_role`.
use text.Mathlib.Text.{◌==◌ as str_eq, starts_with}
use honey.Prelude.{
  String, Bool, true, false, ◌&&◌, ◌||◌, Option, none, some, List, [], ◌∷◌, if◌then◌else◌,
}
use honey.Prelude.Text.{one_of, contains, ends_with, strip_prefix, split_once, trim_start_matches}

pub data Method : Type 0 where
  get : Method
  head : Method
  options : Method
  post : Method
  put : Method
  patch : Method
  delete : Method
  other : String → Method

abbrev pub is_safe : Method → Bool
is_safe get = true
is_safe head = true
is_safe options = true
is_safe _ = false

abbrev pub is_get : Method → Bool
is_get get = true
is_get _ = false

abbrev pub is_post : Method → Bool
is_post post = true
is_post _ = false

abbrev pub is_put : Method → Bool
is_put put = true
is_put _ = false

abbrev pub is_patch : Method → Bool
is_patch patch = true
is_patch _ = false

abbrev pub is_delete : Method → Bool
is_delete delete = true
is_delete _ = false

-- What stands after the identifier in `/users/:id/…`.
abbrev user_path : Method → Option (String × String) → Bool
user_path method none = is_get method || is_patch method || is_delete method
user_path method (some (id, sub)) =
    if one_of sub ("rotate" ∷ "reset-traffic" ∷ "rotate-sub" ∷ [])
    then is_post method
    else (if str_eq sub "subscription"
        then is_get method
        else (if str_eq sub "subscriptions"
            then is_get method || is_post method
            else (if starts_with sub "subscriptions/"
                then is_get method || is_delete method
                else (if str_eq sub "groups"
                    then is_get method || is_put method
                    else one_of sub ("alias" ∷ "labels" ∷ []) && is_put method))))

abbrev pub under_users : Method → Option String → Bool
under_users method none = false
under_users method (some rest) = user_path method (split_once b'/' rest)

-- The fixed paths of a reseller: those it may read, those it may post to, and those for both.
abbrev pub reseller_reads : List String
reseller_reads =
    "/auth/me" ∷ "/auth/sessions" ∷ "/auth/login-history" ∷ "/groups" ∷ "/labels"
    ∷ "/analytics/traffic" ∷ "/analytics/traffic.csv" ∷ "/reports/period" ∷ "/analytics/geo"
    ∷ "/live-connections" ∷ "/onboarding" ∷ []

abbrev pub reseller_posts : List String
reseller_posts = "/auth/logout" ∷ "/auth/sessions/revoke-others" ∷ []

abbrev pub reseller_both : List String
reseller_both = "/saved-views" ∷ "/users" ∷ []

unfoldable pub reseller_permits : Method → String → Bool
reseller_permits method path =
    if one_of path reseller_reads
    then is_get method
    else (if one_of path reseller_posts
        then is_post method
        else (if one_of path reseller_both
            then is_get method || is_post method
            else (if starts_with path "/saved-views/"
                then is_patch method || is_delete method
                else (if starts_with path "/auth/sessions/"
                    then is_delete method
                    else under_users method (strip_prefix path "/users/")))))

abbrev pub starts_with_any : String → List String → Bool
starts_with_any s [] = false
starts_with_any s (p ∷ ps) = starts_with s p || starts_with_any s ps

abbrev domain_of : String → String
domain_of p =
    if starts_with_any p
      ("nodes" ∷ "certificates" ∷ "enrollments" ∷ "reality" ∷ "wireguard" ∷ "services" ∷ [])
    then "nodes"
    else (if starts_with p "inbounds"
        then "inbounds"
        else (if starts_with_any p ("users" ∷ "import" ∷ [])
            then "users"
            else (if starts_with p "groups"
                then "groups"
                else (if starts_with p "routing-profiles"
                    then "routing"
                    else (if starts_with p "domains"
                        then "domains"
                        else (if starts_with_any p ("config" ∷ "scheduled-ops" ∷ [])
                            then "config"
                            else (if starts_with_any p
                                  ("notify-channels" ∷ "telegram" ∷ "announcements" ∷ [])
                                then "notifications"
                                else (if starts_with p "audit"
                                    then "audit"
                                    else (if starts_with_any p (
                                          "settings" ∷ "branding" ∷ "api-keys" ∷ "admins"
                                          ∷ "custom-roles" ∷ "admin-ips" ∷ [])
                                        then "admin"
                                        else "dashboard")))))))))

unfoldable pub path_domain : String → String
path_domain path = domain_of (trim_start_matches b'/' path)

-- The paths that any admin may use, and those of the owner.
abbrev pub is_personal : String → Bool
is_personal path =
    starts_with path "/notifications"
    || (starts_with path "/auth/sessions" || str_eq path "/auth/login-history")
    || starts_with path "/saved-views"

abbrev pub is_owners : String → Bool
is_owners path = starts_with_any path (
    "/admins" ∷ "/settings" ∷ "/api-keys" ∷ "/branding" ∷ "/update" ∷ "/config" ∷ "/custom-roles"
    ∷ [])

-- The role, from the five tests of `required_role` in their order.
abbrev pub role_for : Bool → Bool → Bool → Bool → Bool → String
role_for personal owners audit reads operates =
    if personal
    then "viewer"
    else (if owners
        then "owner"
        else (if audit
            then "admin"
            else (if reads then "viewer" else (if operates then "operator" else "admin"))))

unfoldable pub required_role : Method → String → String
required_role method path =
    role_for (is_personal path) (is_owners path)
      (starts_with path "/audit" || contains path "/enrollments")
      (is_safe method || str_eq path "/auth/logout")
      (ends_with path "/push"
        || ends_with path "/rotate"
        || ends_with path "/rotate-sub"
        || ends_with path "/reset-traffic"
        || ends_with path "/labels")
