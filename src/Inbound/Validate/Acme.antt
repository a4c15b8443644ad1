-- ===== src/Inbound/Validate/Acme.antt =====
-- The ACME settings of an inbound, under `extra.acme`: `acme_enabled`, `acme_email` and
-- `validate_acme_for_core`.
use text.Mathlib.Text.{◌==◌ as str_eq}
use honey.Prelude.{
  String, Bool, true, false, not, ◌==◌, if◌then◌else◌, Option, none, some, is_some, and_then,
}
use honey.Prelude.Text.{trim, is_empty}
use honey.Prelude.Keys.{keep_if}
use honey.Api.{bad_request, err, ok, Check, require_not, ◌≫◌}
use honey.Api.Json.{Json, null, boolean, Fields, get_field, get_key, as_object, as_str, as_u64}
use honey.Inbound.Validate.{flag}

abbrev or_else {ℓ} : {A : Type ℓ} → Option A → Option A → Option A
or_else none o = o
or_else (some a) o = some a

-- The contact: `extra.acme.email`, or the older `extra.acme_email`.
unfoldable pub acme_email : Json → Option String
acme_email extra =
    keep_if (λ s. not (is_empty (trim s)))
      (and_then
        (or_else (and_then (get_key "acme" extra) (get_key "email")) (get_key "acme_email" extra))
        as_str)

abbrev is_on : Json → Bool
is_on null = false
is_on (boolean b) = b
is_on _ = true

abbrev is_enabled : Option Json → Bool
is_enabled none = false
is_enabled (some v) = is_on v

unfoldable pub acme_enabled : Json → Bool
acme_enabled extra = is_enabled (get_key "acme" extra)

abbrev acme_settings : Option Json → Option Json
acme_settings none = none
acme_settings (some null) = none
acme_settings (some (boolean b)) = none
acme_settings (some v) = some v

abbrev port_is_9080 : Option Json → Bool
port_is_9080 none = true
port_is_9080 (some v) = elim (as_u64 v) [ none ↦ false | some n ↦ n == 9080 ]

abbrev xray_settings : Option Fields → Check
xray_settings none = err (bad_request "xray acme settings must be an object")
xray_settings (some acme) =
    require_not (flag (get_field "disable_http_challenge" acme)) "xray acme supports HTTP-01 only"
    ≫ require_not (is_some (get_field "dns01_challenge" acme)) "xray acme does not support DNS-01"
    ≫ require_not (not (port_is_9080 (get_field "alternative_http_port" acme)))
        "xray acme alternative_http_port must be 9080"

abbrev check_settings : String → Json → Option Json → Check
check_settings core extra none = ok tt
check_settings core extra (some acme) =
    require_not (not (is_some (acme_email extra))) "acme requires an email (extra.acme.email)"
    ≫ (if str_eq core "singbox"
        then ok tt
        else require_not (not (str_eq core "xray")) "acme is supported only by sing-box or xray"
          ≫ xray_settings (as_object acme))

unfoldable pub validate_acme_for_core : String → Json → Check
validate_acme_for_core core extra = check_settings core extra (acme_settings (get_key "acme" extra))
