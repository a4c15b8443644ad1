-- ===== src/Issues/Verdicts.antt =====
-- The parts of `build` of master/src/issues.rs that look at domains and at users: at most one issue
-- for each.
use honey.Prelude.{
  ℕ, ◌+◌, String, Bool, not, ◌&&◌, Option, none, some, List, [], ◌∷◌, leb, if◌then◌else◌,
  is_some_and, is_some,
}
use honey.Prelude.Keys.{Map}
use honey.Issues.Health.{
  critical, warning, info, IssueSeverity, Issue, DomainHealth, UserHealth, cert_expiry_window,
}
use honey.Issues.Build.{labels_for, issue_id, is_positive, at_least}

-- Severity, code, title and message.
pub record Verdict : Type 0 where
  pub severity : IssueSeverity
  pub code : String
  pub title : String
  pub message : String

abbrev verdict : IssueSeverity → String → String → String → Option Verdict
verdict s c t m = some (record { severity = s; code = c; title = t; message = m })

-- `expiry <= now + window`
abbrev pub expires_soon : ℕ → ℕ → Bool
expires_soon now expiry = leb expiry (now + cert_expiry_window)

unfoldable pub judge_domain : ℕ → DomainHealth → Option Verdict
judge_domain now domain =
    if not (is_some domain.checked_at)
    then verdict warning "M1302" "Managed domain has not been verified"
        "Run the domain check before relying on this hostname."
    else if not domain.dns_ok
    then verdict critical "M1302" "Managed domain DNS check failed"
        "The managed hostname did not resolve as expected during the latest check."
    else if not domain.reachable
    then verdict warning "M1302" "Managed domain is not reachable on 443"
        "DNS resolved, but the latest TLS reachability check did not complete."
    else if not domain.cert_ok
    then verdict critical "M1301" "Managed domain certificate is invalid"
        "The latest check did not find a currently valid certificate for this hostname."
    else if is_some_and domain.cert_not_after (expires_soon now)
    then verdict warning "M1301" "Managed domain certificate expires soon"
        "The certificate expires within fourteen days."
    else none

abbrev domain_issue : Map String (List String) → DomainHealth → Option Verdict → List Issue
domain_issue by_node domain none = []
domain_issue by_node domain (some v) =
    record {
      id = issue_id "domain" domain.id "health";
      severity = v.severity;
      code = v.code;
      kind = "domain";
      title = v.title;
      message = v.message;
      entity_type = "domain";
      entity_id = domain.id;
      entity_label = domain.host;
      labels = labels_for by_node [] domain.node_id;
      node_id = domain.node_id;
      action = some "verify_domain";
      detected_at = domain.checked_at;
    }
    ∷ []

unfoldable pub domain_issues : ℕ → Map String (List String) → DomainHealth → List Issue
unfolding judge_domain
domain_issues now by_node domain = domain_issue by_node domain (judge_domain now domain)

unfoldable pub judge_suppression : ℕ → UserHealth → Option Verdict
judge_suppression now user =
    if not user.enabled
    then verdict info "M0703" "User is disabled"
        "This user's subscriptions and access are intentionally disabled."
    else if is_some_and user.expires_at (λ (expiry : ℕ). leb expiry now)
    then verdict warning "M0703" "User access has expired"
        "This user's subscriptions are suppressed because the expiry time has passed."
    else if is_positive user.traffic_limit && at_least user.traffic_used user.traffic_limit
    then verdict warning "M0703" "User quota has been reached"
        "This user's subscriptions are suppressed until traffic is reset or the quota window rolls over."
    else none

abbrev user_issue : UserHealth → Option Verdict → List Issue
user_issue user none = []
user_issue user (some v) =
    record {
      id = issue_id "user" user.id "suppressed";
      severity = v.severity;
      code = v.code;
      kind = "user";
      title = v.title;
      message = v.message;
      entity_type = "user";
      entity_id = user.id;
      entity_label = user.username;
      labels = user.labels;
      node_id = none;
      action = none;
      detected_at = some user.updated_at;
    }
    ∷ []

unfoldable pub user_issues : ℕ → UserHealth → List Issue
unfolding judge_suppression
user_issues now user = user_issue user (judge_suppression now user)
