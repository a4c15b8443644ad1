-- ===== src/SignIn.antt =====
-- Signing in: `login` and `logout` of master/src/api/mod.rs, and the tables of admins, sessions and
-- login events of master/src/db/repo.rs, but for the audit log. The verification of passwords and of
-- one-time codes, hashes, decryption and the database's lower case are arguments; so are the readings of the clock. The database
-- answers, but for the address policy.
pub mod Admission
use text.Mathlib.Text.{◌==◌ as str_eq}
use Prim.Native.Char.{Char, code}
use Prim.Native.String.{String, len, char_at}
use honey.Prelude.{
  ℕ, ◌+◌, ◌-◌, ◌*◌, Bool, true, false, not, ◌&&◌, ◌||◌, Option, none, some, List, [], ◌∷◌, ◌++◌,
  ltb, leb, ◌==◌, if◌then◌else◌, filter, count, map, is_some, and_then, map_option, unwrap_or,
}
use honey.Prelude.Text.{within, trim, is_empty, chars_all, is_ascii_hexdigit}
use honey.Prelude.Split.{to_lower}
use honey.RateLimit.Login.{LoginLimiter, locked_for, record_failure, record_success}
use honey.RecoveryCodes.{
  RecoveryCode, normalize_recovery_code, consume_admin_recovery_code,
  count_unused_admin_recovery_codes,
}
use honey.Notify.{bounded}
use honey.Access.Guard.{Environment, ip_allowed}

pub record Account : Type 0 where
  pub id : ℕ
  pub username : String
  pub password_hash : String
  pub enabled : Bool
  pub totp_enabled : Bool
  pub totp_secret : Option String
  pub last_login_at : Option ℕ

pub record Session : Type 0 where
  pub admin_id : ℕ
  pub token_hash : String
  pub expires_at : ℕ
  pub user_agent : Option String
  pub remote_addr : Option String

pub record LoginEvent : Type 0 where
  pub admin_id : Option ℕ
  pub username : String
  pub outcome : String
  pub remote_addr : Option String
  pub user_agent : Option String
  pub created_at : ℕ

pub record Office : Type 0 where
  pub limiter : LoginLimiter
  pub accounts : List Account
  pub codes : List RecoveryCode
  pub sessions : List Session
  pub events : List LoginEvent

pub record LoginInput : Type 0 where
  pub username : String
  pub password : String
  pub totp_code : Option String
  pub recovery_code : Option String

-- When the limiter prunes, tests, answers and counts a failure, and the time of the tables.
pub record Clock : Type 0 where
  pub pruned_at : ℕ
  pub tested_at : ℕ
  pub answered_at : ℕ
  pub failed_at : ℕ
  pub now : ℕ

pub data LoginAnswer : Type 0 where
  too_many : ℕ → LoginAnswer
  bad_credentials : LoginAnswer
  address_denied : LoginAnswer
  second_factor_required : Bool → LoginAnswer
  bad_second_factor : LoginAnswer
  database_failed : LoginAnswer
  signed_in : Session → LoginAnswer

-- Names are compared in the lower case that the database makes of them, `lower`, and the one that is
-- asked for is trimmed.
unfoldable pub account_named : (String → String) → String → List Account → Option Account
unfolding trim
account_named lower name [] = none
account_named lower name (a ∷ rest) =
    let later = account_named lower name rest in
    if str_eq (lower a.username) (lower (trim name)) then some a else later

abbrev pub if_enabled : Account → Option Account
if_enabled a = if a.enabled then some a else none

abbrev id_of : Account → ℕ
id_of a = a.id

-- Never empty, and at most `max` characters.
unfoldable pub bounded_auth_text : ℕ → String → String → String
unfolding bounded trim is_empty
bounded_auth_text max fallback value =
    bounded max (if is_empty (trim value) then fallback else trim value)

-- The event and then the pruning: ended sessions, and events of more than 90 days ago.
unfoldable pub record_admin_login_event : ℕ → LoginEvent → Office → Office
record_admin_login_event now event s = record s {
  sessions = filter (λ (x : Session). ltb now x.expires_at) s.sessions;
  events = filter (λ (x : LoginEvent). leb now (x.created_at + 90 * 86_400)) (event ∷ s.events);
}

unfoldable pub signed_in_at : ℕ → ℕ → Account → Account
signed_in_at admin now a = if a.id == admin then record a { last_login_at = some now } else a

unfoldable pub create_admin_session : ℕ → Session → Office → Office
unfolding signed_in_at
create_admin_session now session s = record s {
  sessions = session ∷ s.sessions;
  accounts = map (signed_in_at session.admin_id now) s.accounts;
}

module _ (env : Environment) (lower : String → String)
    (verify_password verify_totp : String → String → Bool) (decrypt : String → Option String)
    (clock : Clock) (token : String) (remote user_agent : Option String) (input : LoginInput) where
  abbrev pub limit_key : String
  limit_key = unwrap_or remote "unknown"

  -- `record_login_event`
  abbrev logged : Option ℕ → String → String → Office → Office
  logged admin username outcome s =
      record_admin_login_event clock.now
        (record {
          admin_id = admin;
          username = bounded_auth_text 96 "<empty>" username;
          outcome = outcome;
          remote_addr = map_option (bounded_auth_text 128 "unknown") remote;
          user_agent = map_option (bounded_auth_text 256 "unknown") user_agent;
          created_at = clock.now;
        })
        s

  -- A refusal that counts.
  abbrev refused : Option ℕ → String → String → Office → Office
  refused admin username outcome s =
      logged admin username outcome
        (record s { limiter = record_failure limit_key clock.failed_at s.limiter })

  abbrev pub given : Option String → String
  given code = trim (unwrap_or code "")

  unfoldable pub totp_ok : Account → Bool
  unfolding trim
  totp_ok a = elim (and_then a.totp_secret decrypt) [
    | none ↦ false
    | some secret ↦ verify_totp secret (given input.totp_code)
  ]

  -- The recovery code is consumed only if the one-time code is no good.
  abbrev pub consumed : Account → Option String → List RecoveryCode → Bool × List RecoveryCode
  consumed a none codes = (false, codes)
  consumed a (some code) codes =
      consume_admin_recovery_code a.id (env.token_hash code) clock.now codes

  unfoldable pub try_recovery : Account → List RecoveryCode → Bool × List RecoveryCode
  unfolding totp_ok trim is_empty normalize_recovery_code consume_admin_recovery_code
  try_recovery a codes =
      let code = given input.recovery_code in
      if not (totp_ok a) && not (is_empty code)
      then consumed a (normalize_recovery_code code) codes
      else (false, codes)

  unfoldable pub open_session : Account → Office → LoginAnswer × Office
  unfolding record_success
  open_session a s =
      let session : Session = record {
        admin_id = a.id;
        token_hash = env.token_hash token;
        expires_at = clock.now + 12 * 3600;
        user_agent = user_agent;
        remote_addr = remote;
      } in
      (
        signed_in session,
        logged (some a.id) a.username "success" (
            create_admin_session clock.now session
              (record s { limiter = record_success limit_key s.limiter })),
      )

  abbrev pub after_codes : Account → Bool × List RecoveryCode → Office → LoginAnswer × Office
  after_codes a recovery s =
      let kept = record s { codes = recovery.1 } in
      if totp_ok a || recovery.0 then open_session a kept else (
        bad_second_factor,
        refused (some a.id) a.username
            (if is_empty (given input.recovery_code) then "bad_totp" else "bad_recovery_code") kept,
      )

  unfoldable pub second_factor : Account → Office → LoginAnswer × Office
  second_factor a s =
      if not a.totp_enabled
      then open_session a s
      else if is_empty (given input.totp_code) && is_empty (given input.recovery_code)
      then (second_factor_required (ltb 0 (count_unused_admin_recovery_codes a.id s.codes)), s)
      else after_codes a (try_recovery a s.codes) s

  abbrev pub at_address : Account → Option Bool → Office → LoginAnswer × Office
  at_address a none s = (database_failed, s)
  at_address a (some false) s = (address_denied, refused (some a.id) a.username "ip_denied" s)
  at_address a (some true) s = second_factor a s

  -- The candidate is an enabled admin of the name.
  abbrev pub with_password : Option Account → Office → LoginAnswer × Office
  with_password none s = (bad_credentials, refused none input.username "bad_credentials" s)
  with_password (some a) s =
      if verify_password input.password a.password_hash
      then at_address a (ip_allowed env remote) s
      else (bad_credentials, refused (some a.id) input.username "bad_credentials" s)

  abbrev pub when_open : Option ℕ → Office → LoginAnswer × Office
  when_open (some wait) s = (too_many wait, logged none input.username "rate_limited" s)
  when_open none s =
      with_password (and_then (account_named lower input.username s.accounts) if_enabled) s

  unfoldable pub login : Office → LoginAnswer × Office
  login s =
      let limited =
        locked_for limit_key clock.pruned_at clock.tested_at clock.answered_at s.limiter in
      when_open limited.0 (record s { limiter = limited.1 })

-- `logout`
unfoldable pub logout : Option String → Office → Office
logout none s = s
logout (some hash) s = record s {
  sessions = filter (λ (x : Session). not (str_eq x.token_hash hash)) s.sessions;
}
