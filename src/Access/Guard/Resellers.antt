-- ===== src/Access/Guard/Resellers.antt =====
-- How far a reseller gets, `require_auth` and `reseller_permits` of master/src/api/mod.rs.
use Prim.Native.Char.{code}
use Prim.Native.String.{String, ◌++◌}
use Prim.Native.String.append
use text.Mathlib.Text.{◌==◌ as str_eq, starts_with}
use text.Mathlib.TextEquality.{eq_iff, starts_with_iff}
use honey.Prelude.{
  Bool, true, false, not, ◌&&◌, ◌||◌, List, [], ◌∷◌, all, ◌==◌, ==_iff, ◌≡◌, ◌∙◌, refl, sym, ap,
  arith, if◌then◌else◌, Bool-cases, inl, inr,
}
use honey.Prelude.Text.{one_of, strip_prefix}
use honey.Api.{ok}
use honey.Access.{Identity, is_reseller}
use honey.Access.Paths.{
  Method, reseller_permits, starts_with_any, under_users, reseller_reads, reseller_posts,
  reseller_both, is_get, is_patch, is_delete,
}
use honey.Access.Guard.{Request, Environment, check_scope, require_auth}
use honey.Access.Guard.Refusals.{admitted}

check_scope-reseller :
    (req : Request) (identity : Identity)
    → check_scope req identity ≡ ok tt
    → is_reseller identity ≡ true
    → reseller_permits req.method req.path ≡ true
unfolding check_scope
check_scope-reseller req identity h reseller = ground arith

under_users-prefix :
    (method : Method) (path : String)
    → under_users method (strip_prefix path "/users/") ≡ true
    → starts_with path "/users/" ≡ true
unfolding strip_prefix
under_users-prefix method path h = elim (Bool-cases (starts_with path "/users/")) [
  | inl under ↦ under
  | inr outside ↦ ground arith
]

-- Whether two texts agree as far as both go.
agree : String → String → Bool
agree String.[] t = true
agree (String.◌∷◌ c s) String.[] = true
agree (String.◌∷◌ c s) (String.◌∷◌ d t) = (code c == code d) && agree s t

agree-prefixes : (p q r u : String) → p ++ r ≡ q ++ u → agree p q ≡ true
unfolding agree
agree-prefixes String.[] q r u h = refl
agree-prefixes (String.◌∷◌ c p) String.[] r u h = refl
agree-prefixes (String.◌∷◌ c p) (String.◌∷◌ d q) r u h =
    let whole : String.◌∷◌ c (p ++ r) ≡ String.◌∷◌ d (q ++ u) =
      sym (append.cons c p r) ∙ h ∙ append.cons d q u in
    let tails : p ++ r ≡ q ++ u = cc in
    let heads : code c ≡ code d = cc in
    ground (arith, ==_iff (code c) (code d), heads, agree-prefixes p q r u tails)

apart :
    (path p q : String) → starts_with path p ≡ true → agree p q ≡ false → starts_with path q ≡ false
apart path p q h d = elim (Bool-cases (starts_with path q)) [
  | inl both ↦
      let a = (starts_with_iff path p).0 h in
      let b = (starts_with_iff path q).0 both in
      absurd (clash (sym (agree-prefixes p q a.0 b.0 (a.1 ∙ sym b.1)) ∙ d))
  | inr other ↦ other
]
  where
    clash : true ≡ false → ⊥
    clash k = absurd (cc)

none_apart :
    (path p : String) (qs : List String)
    → starts_with path p ≡ true
    → all (λ q. not (agree p q)) qs ≡ true
    → starts_with_any path qs ≡ false
none_apart path p [] h d = refl
none_apart path p (q ∷ qs) h d = ground (arith, d, apart path p q h, none_apart path p qs h)

all-one_of :
    (test : String → Bool) (path : String) (xs : List String)
    → one_of path xs ≡ true
    → all test xs ≡ true
    → test path ≡ true
unfolding one_of
all-one_of test path [] h k = absurd (cc)
all-one_of test path (x ∷ xs) h k = elim (Bool-cases (str_eq path x)) [
  | inl same ↦ ap test ((eq_iff path x).0 same) ∙ ground (arith, k)
  | inr other ↦ all-one_of test path xs (ground (arith, h, other)) (ground (arith, k))
]

-- What belongs to the staff: the fleet, its configuration and secrets, and the other admins.
abbrev pub staff_paths : List String
staff_paths =
    "/nodes" ∷ "/certificates" ∷ "/enrollments" ∷ "/inbounds" ∷ "/reality" ∷ "/wireguard"
    ∷ "/services" ∷ "/routing-profiles" ∷ "/domains" ∷ "/admins" ∷ "/admin-ips" ∷ "/custom-roles"
    ∷ "/api-keys" ∷ "/settings" ∷ "/branding" ∷ "/update" ∷ "/config" ∷ "/scheduled-ops"
    ∷ "/notify-channels" ∷ "/telegram" ∷ "/announcements" ∷ "/import" ∷ "/audit" ∷ []

-- Where anything but a GET may go.
abbrev pub is_own : String → Bool
is_own path =
    one_of path ("/users" ∷ "/saved-views" ∷ "/auth/logout" ∷ "/auth/sessions/revoke-others" ∷ [])
    || starts_with_any path ("/users/" ∷ "/saved-views/" ∷ "/auth/sessions/" ∷ [])

abbrev is_outside : String → Bool
is_outside path = not (starts_with_any path staff_paths)

reads_outside : all is_outside reseller_reads ≡ true
reads_outside = refl

posts_outside : all is_outside reseller_posts ≡ true
posts_outside = refl

both_outside : all is_outside reseller_both ≡ true
both_outside = refl

posts_own : all is_own reseller_posts ≡ true
unfolding one_of
posts_own = refl

both_own : all is_own reseller_both ≡ true
unfolding one_of
both_own = refl

abbrev IsConfined : Method → String → Type 0
IsConfined method path =
    (starts_with_any path staff_paths ≡ false) × (is_get method ≡ false → is_own path ≡ true)

outside : (path : String) → is_outside path ≡ true → starts_with_any path staff_paths ≡ false
outside path h = untrue (starts_with_any path staff_paths) h
  where
    untrue : (b : Bool) → not b ≡ true → b ≡ false
    untrue b k = ground (arith, k)

below-IsConfined :
    (method : Method) (path p : String)
    → starts_with path p ≡ true
    → all (λ q. not (agree p q)) staff_paths ≡ true
    → is_own path ≡ true
    → IsConfined method path
below-IsConfined method path p h d own = (none_apart path p staff_paths h d, λ g. own)

own_below : (a b c d : Bool) → (b || c || d) ≡ true → (a || (b || (c || (d || false)))) ≡ true
own_below a b c d h = ground (arith, h)

rest-IsConfined :
    (method : Method) (path : String)
    → (if starts_with path "/saved-views/"
        then is_patch method || is_delete method
        else if starts_with path "/auth/sessions/"
        then is_delete method
        else under_users method (strip_prefix path "/users/"))
      ≡ true
    → IsConfined method path
unfolding agree
rest-IsConfined method path h = elim (Bool-cases (starts_with path "/saved-views/")) [
  | inl views ↦ below-IsConfined method path "/saved-views/" views refl (
      own_below _ (starts_with path "/users/") (starts_with path "/saved-views/")
        (starts_with path "/auth/sessions/") (ground (arith, views)))
  | inr other ↦ elim (Bool-cases (starts_with path "/auth/sessions/")) [
    | inl sessions ↦ below-IsConfined method path "/auth/sessions/" sessions refl (
        own_below _ (starts_with path "/users/") (starts_with path "/saved-views/")
          (starts_with path "/auth/sessions/") (ground (arith, sessions)))
    | inr last ↦
        let users = under_users-prefix method path (rw last at (rw other at h)) in
        below-IsConfined method path "/users/" users refl (
          own_below _ (starts_with path "/users/") (starts_with path "/saved-views/")
            (starts_with path "/auth/sessions/") (ground (arith, users)))
  ]
]

permits-IsConfined :
    (method : Method) (path : String) → reseller_permits method path ≡ true → IsConfined method path
unfolding reseller_permits
permits-IsConfined method path h = elim (Bool-cases (one_of path reseller_reads)) [
  | inl reads ↦ (
    outside path (all-one_of is_outside path reseller_reads reads reads_outside),
    λ g. absurd (not_get (sym (rw reads at h) ∙ g)),
  )
  | inr no_read ↦ elim (Bool-cases (one_of path reseller_posts)) [
    | inl posts ↦ (
      outside path (all-one_of is_outside path reseller_posts posts posts_outside),
      λ g. all-one_of is_own path reseller_posts posts posts_own,
    )
    | inr no_post ↦ elim (Bool-cases (one_of path reseller_both)) [
      | inl both ↦ (
        outside path (all-one_of is_outside path reseller_both both both_outside),
        λ g. all-one_of is_own path reseller_both both both_own,
      )
      | inr neither ↦ rest-IsConfined method path (rw neither at (rw no_post at (rw no_read at h)))
    ]
  ]
]
  where
    not_get : true ≡ false → ⊥
    not_get k = absurd (cc)

-- A reseller is never let through to a path of the staff, whatever the method; and with any method but
-- GET it is let through only to its users, its saved views, its sessions and the sign-out.
pub reseller_confined :
    (env : Environment) (req : Request) (identity : Identity)
    → require_auth env req ≡ ok identity
    → is_reseller identity ≡ true
    → (starts_with_any req.path staff_paths ≡ false)
      × (is_get req.method ≡ false → is_own req.path ≡ true)
reseller_confined env req identity h reseller =
    permits-IsConfined req.method req.path
      (check_scope-reseller req identity (admitted env req identity h).2 reseller)
