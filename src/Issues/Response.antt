-- ===== src/Issues/Response.antt =====
-- `IssuesResponse::new` of master/src/issues.rs: the order of the issues, the removal of repeated
-- ones, and the counts.
use text.Mathlib.Text.{◌==◌ as str_eq}
use text.Mathlib.TextEquality.{eq_iff}
use honey.Prelude.{
  ℕ, suc, ◌+◌, String, Bool, true, false, not, ◌&&◌, ◌||◌, leb, Option, none, some, List, [], ◌∷◌,
  ltb, if◌then◌else◌, length, count, any, ◌≡◌, ◌∙◌, refl, arith,
}
use honey.Prelude.Sort.{
  str_le, str_le_total, str_le_trans, sort_by, dedup_by, is_sorted, is_deduplicated,
  is_sorted_weaken, sort_by-is_sorted, dedup_by-is_sorted, dedup_by-is_deduplicated, any-sort_by,
  any-dedup_by,
}
use honey.Issues.Health.{
  Issue, IssueSeverity, critical, warning, info, rank, is_critical, is_warning, is_info,
  IssuesResponse, IssueCounts, HealthSnapshot,
}
use honey.Issues.Certificates.{build}

-- The order of `Option`: `None` is below every time.
abbrev instant : Option ℕ → ℕ
instant none = 0
instant (some t) = suc t

-- Not after: the graver first, then the later detected, then by identifier.
abbrev pub stands_before : Issue → Issue → Bool
stands_before left right =
    if ltb (rank left.severity) (rank right.severity)
    then true
    else if ltb (rank right.severity) (rank left.severity)
    then false
    else if ltb (instant right.detected_at) (instant left.detected_at)
    then true
    else if ltb (instant left.detected_at) (instant right.detected_at)
    then false
    else str_le left.id right.id

abbrev pub same_id : Issue → Issue → Bool
same_id left right = str_eq left.id right.id

unfoldable pub listed : List Issue → List Issue
unfolding sort_by dedup_by
listed issues = dedup_by same_id (sort_by stands_before issues)

abbrev pub counts_of : List Issue → IssueCounts
counts_of issues = record {
  total = length issues;
  critical = count (λ (i : Issue). is_critical i.severity) issues;
  warning = count (λ (i : Issue). is_warning i.severity) issues;
  info = count (λ (i : Issue). is_info i.severity) issues;
}

unfoldable pub new_response : ℕ → List Issue → IssuesResponse
unfolding listed
new_response generated_at issues = record {
  generated_at = generated_at;
  counts = counts_of (listed issues);
  issues = listed issues;
}

-- `collect` once its queries are answered.
unfoldable pub collect : HealthSnapshot → ℕ → IssuesResponse
unfolding build new_response
collect snapshot now = new_response now (build snapshot now)

stands_before_total : (x y : Issue) → stands_before x y ≡ false → stands_before y x ≡ true
stands_before_total x y h = ground (arith, str_le_total x.id y.id)

stands_before_trans :
    (x y z : Issue) → stands_before x y ≡ true → stands_before y z ≡ true → stands_before x z ≡ true
stands_before_trans x y z h k = ground (arith, str_le_trans x.id y.id z.id)

counts_add :
    (issues : List Issue) → let c = counts_of issues in c.critical + c.warning + c.info ≡ c.total
counts_add [] = refl
counts_add (i ∷ issues) = ground (arith, counts_add issues)

abbrev pub has_id : String → Issue → Bool
has_id id issue = str_eq id issue.id

same_id-has_id : (id : String) (x y : Issue) → same_id x y ≡ true → has_id id x ≡ has_id id y
same_id-has_id id x y h = ground (arith, eq_iff x.id y.id, eq_iff id x.id, eq_iff id y.id)

-- Sorting and the removal of repeated issues lose no condition: an identifier is in the response
-- exactly when an issue with it was derived.
new_response-has_id :
    (now : ℕ) (issues : List Issue) (id : String)
    → any (has_id id) (new_response now issues).issues ≡ any (has_id id) issues
unfolding new_response listed
new_response-has_id now issues id =
    any-dedup_by same_id (has_id id) (sort_by stands_before issues) (same_id-has_id id)
    ∙ any-sort_by stands_before (has_id id) issues

-- What the order promises, by cases: at least as grave, at least as late with those without a time last.
abbrev pub as_grave : IssueSeverity → IssueSeverity → Bool
as_grave critical s = true
as_grave warning critical = false
as_grave warning warning = true
as_grave warning info = true
as_grave info critical = false
as_grave info warning = false
as_grave info info = true

abbrev pub as_late : Option ℕ → Option ℕ → Bool
as_late (some t) (some u) = leb u t
as_late (some t) none = true
as_late none (some u) = false
as_late none none = true

-- The graver first; among equally grave ones the later; among those of one time, by identifier.
abbrev pub in_order : Issue → Issue → Bool
in_order x y =
    as_grave x.severity y.severity
    && (not (as_grave y.severity x.severity)
        || as_late x.detected_at y.detected_at
          && (not (as_late y.detected_at x.detected_at) || str_le x.id y.id))

abbrev by_time : Option ℕ → Option ℕ → Bool → Bool
by_time d e ids =
    if ltb (instant e) (instant d) then true else if ltb (instant d) (instant e) then false else ids

by_time-order :
    (d e : Option ℕ) (ids : Bool)
    → by_time d e ids ≡ true
    → (as_late d e && (not (as_late e d) || ids)) ≡ true
by_time-order none none ids h = ground (arith, h)
by_time-order none (some u) ids h = ground (arith, h)
by_time-order (some t) none ids h = ground (arith, h)
by_time-order (some t) (some u) ids h = ground (arith, h)

by_rank-order :
    (s r : IssueSeverity) (b c : Bool)
    → (b ≡ true → c ≡ true)
    → (if ltb (rank s) (rank r) then true else if ltb (rank r) (rank s) then false else b) ≡ true
    → (as_grave s r && (not (as_grave r s) || c)) ≡ true
by_rank-order critical critical b c k h = k h
by_rank-order critical warning b c k h = refl
by_rank-order critical info b c k h = refl
by_rank-order warning critical b c k h = absurd (cc)
by_rank-order warning warning b c k h = k h
by_rank-order warning info b c k h = refl
by_rank-order info critical b c k h = absurd (cc)
by_rank-order info warning b c k h = absurd (cc)
by_rank-order info info b c k h = k h

stands_before-in_order : (x y : Issue) → stands_before x y ≡ true → in_order x y ≡ true
stands_before-in_order x y h =
    by_rank-order x.severity y.severity (by_time x.detected_at y.detected_at (str_le x.id y.id))
      (as_late x.detected_at y.detected_at
        && (not (as_late y.detected_at x.detected_at) || str_le x.id y.id))
      (by_time-order x.detected_at y.detected_at (str_le x.id y.id)) h

-- The response, for any issues: no issue stands before a graver one, among equally grave ones the
-- later detected come first, those without a time last, and then the identifiers decide; no two
-- neighbours have one identifier; the three counts add up to the total, which is the number of issues
-- listed; and an identifier is listed exactly if one of the issues has it.
pub new_response_order :
    (now : ℕ) (issues : List Issue)
    → let r = new_response now issues in
      (is_sorted in_order r.issues ≡ true)
      × (is_deduplicated (λ (x y : Issue). str_eq x.id y.id) r.issues ≡ true)
      × (r.counts.critical + r.counts.warning + r.counts.info ≡ r.counts.total)
      × (r.counts.total ≡ length r.issues)
      × ((id : String) → any (has_id id) r.issues ≡ any (has_id id) issues)
unfolding new_response listed
new_response_order now issues = (
  is_sorted_weaken stands_before in_order stands_before-in_order (listed issues) (
      dedup_by-is_sorted same_id stands_before stands_before_trans (sort_by stands_before issues)
        (sort_by-is_sorted stands_before stands_before_total issues)),
  dedup_by-is_deduplicated same_id (sort_by stands_before issues),
  counts_add (listed issues),
  refl,
  λ id. new_response-has_id now issues id,
)
