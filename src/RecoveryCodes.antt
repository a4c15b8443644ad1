-- ===== src/RecoveryCodes.antt =====
-- Recovery codes of admins: `normalize_recovery_code` of master/src/auth.rs, and the table in
-- master/src/db/repo.rs. A code is stored as its hash.
pub mod Once
use text.Mathlib.Text.{◌==◌ as str_eq}
use Prim.Native.Char.{Char, code}
use Prim.Native.String.{String, len, char_at}
use honey.Prelude.{
  ℕ, ◌+◌, ◌-◌, ◌*◌, Bool, true, false, not, ◌&&◌, ◌||◌, Option, none, some, List, [], ◌∷◌, ◌++◌,
  ltb, leb, ◌==◌, if◌then◌else◌, filter, count, map, is_some, and_then, map_option, unwrap_or,
}
use honey.Prelude.Text.{within, trim, is_empty, chars_all, is_ascii_hexdigit}
use honey.Prelude.Split.{to_lower}
use honey.RateLimit.Login.{LoginLimiter, locked_for, record_failure, record_success}
use honey.Notify.{bounded}
use honey.Access.Guard.{Environment, ip_allowed}

pub record RecoveryCode : Type 0 where
  pub admin_id : ℕ
  pub code_hash : String
  pub used_at : Option ℕ

abbrev is_ascii_whitespace : ℕ → Bool
is_ascii_whitespace c = (c == 32) || (c == 9) || (c == 10) || (c == 12) || (c == 13)

abbrev upper_char : Char → Char
upper_char c =
    if within 97 122 (code c) then char_at "ABCDEFGHIJKLMNOPQRSTUVWXYZ" (code c - 97) else c

-- Without white space and dashes, in upper case.
unfoldable pub strip_code : String → String
strip_code String.[] = String.[]
strip_code (String.◌∷◌ c s) =
    let rest = strip_code s in
    if is_ascii_whitespace (code c) || (code c == 45) then rest else String.◌∷◌ (upper_char c) rest

unfoldable pub normalize_recovery_code : String → Option String
unfolding strip_code chars_all
normalize_recovery_code value =
    let code = strip_code value in
    if not (len code == 20) || not (chars_all is_ascii_hexdigit code) then none else some code

abbrev pub is_unused : ℕ → String → RecoveryCode → Bool
is_unused admin hash c = (c.admin_id == admin) && str_eq c.code_hash hash && not (is_some c.used_at)

unfoldable pub mark_used : ℕ → String → ℕ → RecoveryCode → RecoveryCode
mark_used admin hash now c = if is_unused admin hash c then record c { used_at = some now } else c

-- One UPDATE: whether exactly one row was changed, and the table.
unfoldable pub consume_admin_recovery_code :
    ℕ → String → ℕ → List RecoveryCode → Bool × List RecoveryCode
unfolding mark_used
consume_admin_recovery_code admin hash now codes =
    (count (is_unused admin hash) codes == 1, map (mark_used admin hash now) codes)

unfoldable pub count_unused_admin_recovery_codes : ℕ → List RecoveryCode → ℕ
count_unused_admin_recovery_codes admin codes =
    count (λ (c : RecoveryCode). (c.admin_id == admin) && not (is_some c.used_at)) codes
