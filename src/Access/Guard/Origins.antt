-- ===== src/Access/Guard/Origins.antt =====
-- Requests of other sites that ride on a session's cookie, `require_auth` of master/src/api/mod.rs.
use Prim.Native.String.{String, len, slice, ◌++◌}
use text.Mathlib.Text.{◌==◌ as str_eq, starts_with}
use text.Mathlib.TextEquality.{starts_with_iff}
use text.Mathlib.TextPositions.{len-append, slice-append_right}
use honey.Prelude.{
  true, false, Option, none, some, Option-cases, Bool-cases, inl, inr, ◌≡◌, ◌≢◌, ◌⊎◌, ◌∙◌, refl,
  sym, ap, arith, is_some_and,
}
use honey.Prelude.Text.{strip_prefix, eq_ignore_ascii_case}
use honey.Api.{ok}
use honey.Access.{Identity}
use honey.Access.Paths.{is_safe}
use honey.Access.Guard.{
  Headers, Request, Environment, or_else, origin_matches_host, is_cookie_auth, check_origin,
  require_auth,
}
use honey.Access.Guard.Refusals.{admitted}

strip_prefix-path : (s p rest : String) → strip_prefix s p ≡ some rest → s ≡ p ++ rest
unfolding strip_prefix
strip_prefix-path s p rest h = elim (Bool-cases (starts_with s p)) [
  | inl there ↦
      let parts = (starts_with_iff s p).0 there in
      let tail = parts.0 in
      let cut : slice s (len p) (len s) ≡ tail =
        ap (λ (v : String). slice v (len p) (len v)) (sym parts.1)
        ∙ ap (λ k. slice (p ++ tail) (len p) k) (len-append p tail)
        ∙ slice-append_right p tail in
      let found : some (slice s (len p) (len s)) ≡ some rest = rw there at h in
      let same : slice s (len p) (len s) ≡ rest = cc in
      sym parts.1 ∙ ap (λ v. p ++ v) (sym cut ∙ same)
  | inr absent ↦ absurd (nothing_found (rw absent at h))
]
  where
    nothing_found : none ≡ some rest → ⊥
    nothing_found k = absurd (cc)

-- A host that an origin names, behind either scheme.
abbrev pub IsOriginOf : String → String → Type 0
IsOriginOf origin host =
    (name : String) × ((origin ≡ "https://" ++ name) ⊎ (origin ≡ "http://" ++ name))
    × (eq_ignore_ascii_case name host ≡ true)

scheme_cases :
    (origin host : String) (secure plain : Option String)
    → strip_prefix origin "https://" ≡ secure
    → strip_prefix origin "http://" ≡ plain
    → is_some_and (or_else secure plain) (λ name. eq_ignore_ascii_case name host) ≡ true
    → IsOriginOf origin host
scheme_cases origin host (some name) plain s p h =
    (name, inl (strip_prefix-path origin "https://" name s), h)
scheme_cases origin host none (some name) s p h =
    (name, inr (strip_prefix-path origin "http://" name p), h)
scheme_cases origin host none none s p h = absurd (cc)

matches-IsOriginOf :
    (headers : Headers) (origin : String)
    → headers.origin ≡ some origin
    → origin_matches_host headers ≡ true
    → (host : String) × (headers.host ≡ some host) × IsOriginOf origin host
unfolding origin_matches_host
matches-IsOriginOf headers origin o h = elim (Option-cases headers.host) [
  | inl e ↦ absurd (no_host (rw (o, e) at h))
  | inr (host, e) ↦ (host, e, scheme_cases origin host _ _ refl refl (rw (o, e) at h))
]
  where
    no_host : false ≡ true → ⊥
    no_host k = absurd (cc)

-- A request that changes something and is let through on the strength of a cookie is not marked as
-- cross-site, and if it names an origin, that is `https://` or `http://` and, but for the case of
-- letters, the host that the request was sent to.
pub require_auth-same_site :
    (env : Environment) (req : Request) (identity : Identity)
    → require_auth env req ≡ ok identity
    → is_cookie_auth req.headers ≡ true
    → is_safe req.method ≡ false
    → (req.headers.sec_fetch_site ≢ some "cross-site")
      × ((origin : String)
          → req.headers.origin ≡ some origin
          → (host : String) × (req.headers.host ≡ some host) × IsOriginOf origin host)
unfolding check_origin
require_auth-same_site env req identity h cookie change =
    let a = (admitted env req identity h).1 in
    let marked : is_some_and req.headers.sec_fetch_site (λ v. str_eq v "cross-site") ≡ false =
      ground arith in
    let same_host : origin_matches_host req.headers ≡ true = ground arith in
    (
      λ site. unmarked (rw site at marked),
      λ origin o. matches-IsOriginOf req.headers origin o same_host,
    )
  where
    unmarked : str_eq "cross-site" "cross-site" ≡ false → ⊥
    unmarked k = absurd (cc)
