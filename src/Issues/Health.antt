-- ===== src/Issues/Health.antt =====
-- The data of master/src/issues.rs: severities, issues, the response and the rows of a snapshot.
use honey.Prelude.{ℕ, ◌*◌, String, Bool, true, false, Option, List}
use honey.Api.{ℤ}

abbrev pub node_online_window : ℕ
node_online_window = 2 * 60

abbrev pub cert_expiry_window : ℕ
cert_expiry_window = 14 * 86_400

pub data IssueSeverity : Type 0 where
  critical : IssueSeverity
  warning : IssueSeverity
  info : IssueSeverity

abbrev pub rank : IssueSeverity → ℕ
rank critical = 0
rank warning = 1
rank info = 2

-- The tests of the three counts.
abbrev pub is_critical : IssueSeverity → Bool
is_critical critical = true
is_critical warning = false
is_critical info = false

abbrev pub is_warning : IssueSeverity → Bool
is_warning critical = false
is_warning warning = true
is_warning info = false

abbrev pub is_info : IssueSeverity → Bool
is_info critical = false
is_info warning = false
is_info info = true

pub record Issue : Type 0 where
  pub id : String
  pub severity : IssueSeverity
  pub code : String
  pub kind : String
  pub title : String
  pub message : String
  pub entity_type : String
  pub entity_id : String
  pub entity_label : String
  pub labels : List String
  pub node_id : Option String
  pub action : Option String
  pub detected_at : Option ℕ

pub record IssueCounts : Type 0 where
  pub total : ℕ
  pub critical : ℕ
  pub warning : ℕ
  pub info : ℕ

pub record IssuesResponse : Type 0 where
  pub generated_at : ℕ
  pub counts : IssueCounts
  pub issues : List Issue

pub record NodeHealth : Type 0 where
  pub id : String
  pub name : String
  pub labels : List String
  pub enabled : Bool
  pub last_seen : Option ℕ
  pub last_push_at : Option ℕ
  pub last_push_status : Option String
  pub created_at : ℕ

pub record InboundHealth : Type 0 where
  pub id : String
  pub node_id : String
  pub tag : String
  pub labels : List String
  pub enabled : Bool
  pub reachable : Option Bool
  pub checked_at : Option ℕ

pub record DomainHealth : Type 0 where
  pub id : String
  pub node_id : Option String
  pub host : String
  pub checked_at : Option ℕ
  pub dns_ok : Bool
  pub reachable : Bool
  pub cert_ok : Bool
  pub cert_not_after : Option ℕ

pub record UserHealth : Type 0 where
  pub id : String
  pub username : String
  pub labels : List String
  pub enabled : Bool
  pub traffic_limit : ℤ
  pub traffic_used : ℤ
  pub expires_at : Option ℕ
  pub updated_at : ℕ

pub record CertificateHealth : Type 0 where
  pub node_id : String
  pub not_before : ℕ
  pub not_after : ℕ
  pub revoked : Bool
  pub issued_at : ℕ

pub record HealthSnapshot : Type 0 where
  pub nodes : List NodeHealth
  pub inbounds : List InboundHealth
  pub domains : List DomainHealth
  pub users : List UserHealth
  pub certificates : List CertificateHealth
  pub subscription_abuse_count : ℤ
  pub subscription_abuse_last_seen : Option ℕ
