-- ===== src/Witness/Accounts.antt =====
-- A sign-in with a recovery code, a scan of the quota windows, a scheduled operation and an audit log.
use text.Mathlib.Text.{◌==◌ as str_eq}
use honey.Prelude.{
  ℕ, String, Bool, true, false, Option, none, some, List, [], ◌∷◌, length, is_some, ◌≡◌, ◌≢◌, ap,
  refl,
}
use honey.Prelude.Keys.{get, retain}
use honey.Prelude.Sort.{sort_by}
use honey.Prelude.Text.{trim, trim_start, trim_end, is_empty, chars_all}
use honey.Prelude.Split.{to_lower}
use honey.RateLimit.Login.{locked_for, prune}
use honey.Access.Guard.{Environment}
use honey.RecoveryCodes.{
  RecoveryCode, strip_code, normalize_recovery_code, consume_admin_recovery_code,
}
use honey.SignIn.{
  Account, Session, Office, LoginInput, Clock, signed_in, account_named, totp_ok, try_recovery,
  open_session, second_factor, login,
}
use honey.SignIn.Admission.{IsAdmitted, login-IsAdmitted}
use honey.Audit.{
  Bytes, AuditEvent, audit_chain_hash, chain_message, verify_audit_chain, verify_from, judge_entry,
  bytes_eq, as_bytes, be_bytes, stamped,
}
use honey.Audit.Chain.{record_all, recorded_intact, tampering_found}
use honey.Traffic.{Tables, User}
use honey.Loops.{
  Quotas, due_quota_resets, quota_tick, ScheduledOp, Estate, due_scheduled_ops, schedule_tick,
}
use honey.Loops.Quota.{never, listed_in, is_zero, quota_tick-resets}
use honey.Loops.Schedule.{has_op, executed_once}

abbrev env : Environment
env = record {
  api_token = none;
  token_hash = λ t. t;
  authenticate_api_key = λ t. some none;
  admin_for_session = λ t. some none;
  custom_role_permissions = λ id. none;
  admin_ips = some [];
  parse_address = λ s. none;
  is_in_network = λ s n. false;
}

abbrev owner : Account
owner = record {
  id = 1;
  username = "Owner";
  password_hash = "secret";
  enabled = true;
  totp_enabled = true;
  totp_secret = none;
  last_login_at = none;
}

abbrev spare_codes : List RecoveryCode
spare_codes = record { admin_id = 1; code_hash = "00112233445566778899"; used_at = none } ∷ []

abbrev office : Office
office = record {
  limiter = [];
  accounts = owner ∷ [];
  codes = spare_codes;
  sessions = [];
  events = [];
}

abbrev with_code : LoginInput
with_code = record {
  username = " owner";
  password = "secret";
  totp_code = none;
  recovery_code = some "00112-23344 55667-78899";
}

abbrev clock : Clock
clock = record { pruned_at = 1; tested_at = 2; answered_at = 3; failed_at = 4; now = 100 }

abbrev session : Session
session = record {
  admin_id = 1;
  token_hash = "token";
  expires_at = 43_300;
  user_agent = none;
  remote_addr = none;
}

abbrev no_secret : String → Option String
no_secret s = none

code_admitted :
    (login env to_lower str_eq str_eq no_secret clock "token" none none with_code office).0
    ≡ signed_in session
unfolding login locked_for account_named to_lower trim trim_start trim_end is_empty second_factor
    try_recovery totp_ok normalize_recovery_code strip_code chars_all consume_admin_recovery_code
    open_session get prune retain
code_admitted = refl

login-IsAdmitted_example :
    IsAdmitted env to_lower str_eq str_eq no_secret clock "token" none none with_code office session
login-IsAdmitted_example =
    login-IsAdmitted env to_lower str_eq str_eq no_secret clock "token" none none with_code office
      session code_admitted

abbrev same_bytes : Bytes → Bytes
same_bytes m = m

abbrev event : ℕ → String → AuditEvent
event id action = record {
  id = id;
  actor_name = none;
  action = action;
  resource_type = "node";
  resource_id = none;
  details = "{}";
  created_micros = 7;
  entry_hash = none;
}

abbrev two_events : List AuditEvent
two_events = event 1 "create" ∷ event 2 "delete" ∷ []

recorded_intact_example :
    verify_audit_chain same_bytes (record_all same_bytes two_events []) ≡ (none, length two_events)
recorded_intact_example = recorded_intact same_bytes two_events

abbrev first : AuditEvent
first = stamped same_bytes none (event 1 "create")

abbrev digest : Bytes
digest = audit_chain_hash same_bytes none (event 1 "create")

abbrev forged : AuditEvent
forged = record (event 1 "delete") { entry_hash = some digest }

one_intact : (verify_audit_chain same_bytes (first ∷ [])).0 ≡ none
unfolding audit_chain_hash chain_message as_bytes be_bytes verify_audit_chain verify_from
    judge_entry
one_intact = refl

forged_differs : chain_message none forged ≢ chain_message none first
unfolding chain_message as_bytes be_bytes bytes_eq
forged_differs h = apart (ap (bytes_eq (chain_message none forged)) h)
  where
    apart : true ≡ false → ⊥
    apart e = absurd (cc)

tampering_found_example : is_some (verify_audit_chain same_bytes (forged ∷ [])).0 ≡ true
unfolding audit_chain_hash
tampering_found_example =
    tampering_found same_bytes [] [] first forged digest (λ e. e) refl refl one_intact
      forged_differs

abbrev heavy_user : User
heavy_user = record {
  username = "u";
  enabled = true;
  traffic_limit_bytes = 10;
  used_traffic_bytes = 10;
  expires_at = none;
}

abbrev user_tables : Tables
user_tables = record { users = (1, heavy_user) ∷ []; counters = []; hourly = [] }

abbrev quotas : Quotas
quotas = record {
  tables = user_tables;
  windows = (1, record { interval = "daily"; reset_at = some 50 }) ∷ [];
  pushes = [];
}

abbrev connected : ℕ → Bool
connected node = true

abbrev nodes_of : ℕ → List ℕ
nodes_of user = 4 ∷ []

quota_tick-resets_example :
    (due_quota_resets 60 (quota_tick connected nodes_of 60 never never quotas).windows ≡ [])
    × ((id : ℕ)
        → listed_in id (due_quota_resets 60 quotas.windows) ≡ true
        → is_zero id (quota_tick connected nodes_of 60 never never quotas).tables ≡ true)
quota_tick-resets_example = quota_tick-resets connected nodes_of 60 quotas

abbrev estate : Estate
estate = record { nodes = []; inbounds = []; tables = user_tables; tokens = []; pushes = [] }

abbrev ops : List ScheduledOp
ops =
    record {
      id = 5;
      resource_type = "user";
      resource_id = 1;
      action = "disable";
      run_at = 50;
      status = "pending";
      result = none;
    }
    ∷ []

op_is_due : has_op 5 (due_scheduled_ops 60 ops) ≡ true
unfolding due_scheduled_ops sort_by
op_is_due = refl

executed_once_example :
    has_op 5 (due_scheduled_ops 90 (schedule_tick connected nodes_of "token" 60 never ops estate).0)
    ≡ false
executed_once_example =
    executed_once connected nodes_of "token" 5 60 90 never ops estate op_is_due refl
