-- ===== src/SignIn/Admission.antt =====
-- Who gets a session from `login` of master/src/api/mod.rs.
use honey.Prelude.{
  ℕ, String, Bool, true, false, not, ◌&&◌, ◌||◌, Option, none, some, List, ◌≢◌, and_then,
  Bool-cases, inl, inr, ◌≡◌, refl, arith,
}
use honey.Prelude.Text.{is_empty}
use honey.Access.Guard.{Environment, ip_allowed}
use honey.RateLimit.Login.{locked_for}
use honey.RecoveryCodes.{RecoveryCode}
use honey.SignIn.{
  Account, Session, Office, LoginInput, Clock, LoginAnswer, bad_credentials, second_factor_required,
  bad_second_factor, signed_in, account_named, limit_key, totp_ok, try_recovery, open_session,
  after_codes, second_factor, at_address, with_password, when_open, login, given, if_enabled,
}

module _ (env : Environment) (lower : String → String)
    (verify_password verify_totp : String → String → Bool) (decrypt : String → Option String)
    (clock : Clock) (token : String) (remote user_agent : Option String) (input : LoginInput) where
  abbrev totp : Account → Bool
  totp = totp_ok env lower verify_password verify_totp decrypt clock token remote user_agent input

  abbrev recovered : Account → List RecoveryCode → Bool
  recovered a codes =
      (try_recovery env lower verify_password verify_totp decrypt clock token remote user_agent
        input a codes).0

  abbrev run_open : Account → Office → LoginAnswer × Office
  run_open =
      open_session env lower verify_password verify_totp decrypt clock token remote user_agent input

  abbrev run_second : Account → Office → LoginAnswer × Office
  run_second =
      second_factor env lower verify_password verify_totp decrypt clock token remote user_agent
        input

  -- What stands behind a session that was opened.
  pub record IsAdmitted (s : Office) (session : Session) : Type 0 where
    pub account : Account
    pub unlocked :
        (locked_for
          (limit_key env lower verify_password verify_totp decrypt clock token remote user_agent
            input)
          clock.pruned_at
          clock.tested_at
          clock.answered_at
          s.limiter).0
        ≡ none
    pub found : account_named lower input.username s.accounts ≡ some account
    pub enabled : account.enabled ≡ true
    pub verified : verify_password input.password account.password_hash ≡ true
    pub allowed : ip_allowed env remote ≡ some true
    pub second : (not account.totp_enabled || totp account || recovered account s.codes) ≡ true
    pub owner : session.admin_id ≡ account.id

  session_of_open :
      (a : Account) (s : Office) (session : Session)
      → (run_open a s).0 ≡ signed_in session
      → session.admin_id ≡ a.id
  unfolding open_session
  session_of_open a s session h = ground (arith, h)

  admitted_codes :
      (a : Account) (r : Bool × List RecoveryCode) (s : Office) (session : Session)
      → (after_codes env lower verify_password verify_totp decrypt clock token remote user_agent
          input a r s).0
        ≡ signed_in session
      → ((totp a || r.0) ≡ true) × (session.admin_id ≡ a.id)
  admitted_codes a r s session h = elim (Bool-cases (totp a || r.0)) [
    | inl ok ↦ (ok, session_of_open a (record s { codes = r.1 }) session (rw ok at h))
    | inr bad ↦ absurd (refused_codes (rw bad at h))
  ]
    where
      refused_codes : bad_second_factor ≡ signed_in session → ⊥
      refused_codes k = absurd (cc)

  no_codes_given :
      (required : Bool) (session : Session) → second_factor_required required ≢ signed_in session
  no_codes_given required session h = absurd (cc)

  admitted_second :
      (a : Account) (s : Office) (session : Session)
      → (run_second a s).0 ≡ signed_in session
      → ((not a.totp_enabled || totp a || recovered a s.codes) ≡ true) × (session.admin_id ≡ a.id)
  unfolding second_factor totp_ok try_recovery open_session
  admitted_second a s session h = elim (Bool-cases a.totp_enabled) [
    | inl on ↦
        elim (Bool-cases (
          is_empty (
            given env lower verify_password verify_totp decrypt clock token remote user_agent input
              input.totp_code)
          && is_empty (
              given env lower verify_password verify_totp decrypt clock token remote user_agent
                input input.recovery_code))) [
                  | inl empty ↦ absurd (no_codes_given _ session (rw empty at (rw on at h)))
                  | inr codes ↦
                      let r =
                        try_recovery env lower verify_password verify_totp decrypt clock token
                          remote user_agent input a s.codes in
                      let parts = admitted_codes a r s session (rw codes at (rw on at h)) in
                      (ground (arith, parts.0), parts.1)
                ]
    | inr off ↦ (rw off refl, session_of_open a s session (rw off at h))
  ]

  admitted_address :
      (a : Account) (o : Option Bool) (s : Office) (session : Session)
      → (at_address env lower verify_password verify_totp decrypt clock token remote user_agent
          input a o s).0
        ≡ signed_in session
      → (o ≡ some true)
        × ((not a.totp_enabled || totp a || recovered a s.codes) ≡ true)
        × (session.admin_id ≡ a.id)
  admitted_address a none s session h = absurd (cc)
  admitted_address a (some false) s session h = absurd (cc)
  admitted_address a (some true) s session h =
      let parts = admitted_second a s session h in (refl, parts.0, parts.1)

  enabled_of :
      (o : Option Account) (a : Account)
      → and_then o if_enabled ≡ some a
      → (o ≡ some a) × (a.enabled ≡ true)
  enabled_of none a h = absurd (cc)
  enabled_of (some b) a h = ground (arith, h)

  admitted_password :
      (o : Option Account) (s : Office) (session : Session)
      → (with_password env lower verify_password verify_totp decrypt clock token remote user_agent
          input o s).0
        ≡ signed_in session
      → (a : Account) × (o ≡ some a)
        × (verify_password input.password a.password_hash ≡ true)
        × (ip_allowed env remote ≡ some true)
        × ((not a.totp_enabled || totp a || recovered a s.codes) ≡ true)
        × (session.admin_id ≡ a.id)
  admitted_password none s session h = absurd (cc)
  admitted_password (some a) s session h =
      elim (Bool-cases (verify_password input.password a.password_hash)) [
        | inl good ↦
            let parts = admitted_address a (ip_allowed env remote) s session (rw good at h) in
            (a, refl, good, parts.0, parts.1, parts.2)
        | inr bad ↦ absurd (refused_password (rw bad at h))
      ]
    where
      refused_password : bad_credentials ≡ signed_in session → ⊥
      refused_password k = absurd (cc)

  admitted_open :
      (limited : Option ℕ) (s : Office) (session : Session)
      → (when_open env lower verify_password verify_totp decrypt clock token remote user_agent input
          limited s).0
        ≡ signed_in session
      → (limited ≡ none)
        × ((with_password env lower verify_password verify_totp decrypt clock token remote
              user_agent input
              (and_then (account_named lower input.username s.accounts) if_enabled)
              s).0
            ≡ signed_in session)
  admitted_open none s session h = (refl, h)
  admitted_open (some wait) s session h = absurd (cc)

  -- A session is opened only for an address that is not locked out, for an enabled admin of the given
  -- name whose password verifies, from an address that the policy allows, and, where the second factor
  -- is on, with a one-time code that verifies or a recovery code that was accepted; and it is that
  -- admin's.
  pub login-IsAdmitted :
      (s : Office) (session : Session)
      → (login env lower verify_password verify_totp decrypt clock token remote user_agent input
          s).0
        ≡ signed_in session
      → IsAdmitted s session
  unfolding login
  login-IsAdmitted s session h =
      let limited =
        locked_for
          (limit_key env lower verify_password verify_totp decrypt clock token remote user_agent
            input)
          clock.pruned_at clock.tested_at clock.answered_at s.limiter in
      let open_part = admitted_open limited.0 (record s { limiter = limited.1 }) session h in
      let found = account_named lower input.username s.accounts in
      let p =
        admitted_password (and_then found if_enabled) (record s { limiter = limited.1 }) session
          open_part.1 in
      let e = enabled_of found p.0 p.1 in
      record {
        account = p.0;
        unlocked = open_part.0;
        found = e.0;
        enabled = e.1;
        verified = p.2;
        allowed = p.3;
        second = p.4;
        owner = p.5;
      }
