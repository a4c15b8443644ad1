-- ===== src/Inbound/Validate.antt =====
-- The checks of an inbound's fields one by one: `validate_inbound_basics`, `validate_vless_flow` and
-- the lists of accepted words, all of master/src/api/mod.rs. The children check fields together.
pub mod Acme
pub mod Combined
pub mod Requests
use Prim.Native.String.{len, count, ◌++◌}
use text.Mathlib.Text.{◌==◌ as str_eq}
use honey.Prelude.{
  ℕ, ◌*◌, ◌%◌, String, Bool, true, false, not, ◌&&◌, ◌||◌, Option, none, some, List, [], ◌∷◌, ltb,
  leb, ◌==◌, if◌then◌else◌, is_some_and, and_then, is_none_or, unwrap_or,
}
use honey.Prelude.Text.{
  within, trim, is_empty, chars_all, one_of, is_ascii_alphabetic, is_ascii_alphanumeric,
  is_ascii_hexdigit, is_ascii_digit,
}
use honey.Api.{ApiError, bad_request, Checked, err, ok, Check, require_not, ◌≫◌, ℤ, is_port}
use honey.Api.Json.{Json, Fields, get_field, get_key, as_object, as_str, as_bool, as_u64, is_object}

abbrev pub is_valid_network : String → Bool
is_valid_network network =
    one_of network
      ("tcp" ∷ "ws" ∷ "grpc" ∷ "http" ∷ "h2" ∷ "httpupgrade" ∷ "xhttp" ∷ "quic" ∷ "mkcp" ∷ [])

abbrev pub is_valid_transport_mode : String → Bool
is_valid_transport_mode mode = one_of mode ("auto" ∷ "packet-up" ∷ "stream-up" ∷ "stream-one" ∷ [])

abbrev pub is_valid_utls_fingerprint : String → Bool
is_valid_utls_fingerprint fingerprint = one_of fingerprint (
    "chrome" ∷ "firefox" ∷ "safari" ∷ "ios" ∷ "android" ∷ "edge" ∷ "360" ∷ "qq" ∷ "random"
    ∷ "randomized" ∷ [])

unfoldable pub valid_reality_key : String → Bool
valid_reality_key key =
    (len key == 43) && chars_all (λ c. is_ascii_alphanumeric c || (c == b'-') || (c == b'_')) key

unfoldable pub valid_short_id : String → Bool
valid_short_id id = within 2 16 (len id) && (len id % 2 == 0) && chars_all is_ascii_hexdigit id

-- Digits, the units s, m, h and d, and the dot.
abbrev pub is_duration : String → Bool
is_duration s =
    chars_all
      (λ c.
        is_ascii_digit c || (c == b's') || (c == b'm') || (c == b'h') || (c == b'd') || (c == b'.'))
      s

unfoldable pub validate_vless_flow : String → String → Bool → String → Check
validate_vless_flow kind network tls_enabled flow =
    if is_empty (trim flow)
    then ok tt
    else require_not (not (str_eq kind "vless")) "flow is only supported for vless inbounds"
      ≫ require_not (not (str_eq (trim flow) "xtls-rprx-vision"))
          "unsupported VLESS flow; use xtls-rprx-vision or leave it empty"
      ≫ require_not (not (str_eq network "tcp") || not tls_enabled)
          "xtls-rprx-vision requires VLESS over TCP with TLS or REALITY"

-- One text of `extra.happ`, of at most `max` characters.
abbrev happ_text : String → String → Option Json → ℕ → Check
happ_text wrong_kind too_long none max = ok tt
happ_text wrong_kind too_long (some v) max = elim (as_str v) [
  | none ↦ err (bad_request wrong_kind)
  | some s ↦ require_not (ltb max (count (trim s))) too_long
]

abbrev happ_country : Option Json → Check
happ_country none = ok tt
happ_country (some v) = elim (as_str v) [
  | none ↦ err (bad_request "extra.happ.country_code must be text")
  | some code ↦
      require_not
        (not (is_empty code) && (not (len code == 2) || not (chars_all is_ascii_alphabetic code)))
        "extra.happ.country_code must be a two-letter ISO code"
]

abbrev happ_object : Option Fields → Check
happ_object none = err (bad_request "extra.happ must be an object")
happ_object (some happ) =
    happ_text "extra.happ.name must be text" "extra.happ.name must not exceed 80 characters"
      (get_field "name" happ) 80
    ≫ happ_text "extra.happ.description must be text"
        "extra.happ.description must not exceed 30 characters" (get_field "description" happ) 30
    ≫ happ_country (get_field "country_code" happ)

unfoldable pub validate_happ : Option Json → Check
validate_happ none = ok tt
validate_happ (some happ) = happ_object (as_object happ)

-- A Boolean setting that is off unless it says so.
abbrev pub flag : Option Json → Bool
flag none = false
flag (some v) = unwrap_or (as_bool v) false

abbrev acme_port : Option Json → Check
acme_port none = ok tt
acme_port (some v) = elim (as_u64 v) [
  | none ↦ err (bad_request "extra.acme.alternative_http_port must be a port")
  | some port ↦
      require_not (not (within 1 65_535 port))
        "extra.acme.alternative_http_port must be between 1 and 65535"
]

abbrev acme_challenges : Option Fields → Check
acme_challenges none = ok tt
acme_challenges (some acme) =
    acme_port (get_field "alternative_http_port" acme)
    ≫ require_not
        (flag (get_field "disable_http_challenge" acme)
          && flag (get_field "disable_tls_alpn_challenge" acme)
          && elim (get_field "dns01_challenge" acme) [ none ↦ true | some v ↦ false ])
        "ACME cannot disable both HTTP-01 and TLS-ALPN-01 without DNS-01"

unfoldable pub validate_acme_challenges : Json → Check
validate_acme_challenges extra = acme_challenges (and_then (get_key "acme" extra) as_object)

unfoldable pub validate_inbound_basics : String → String → String → ℤ → Json → Check
validate_inbound_basics tag kind core port extra =
    require_not (is_empty (trim tag) || is_empty (trim kind))
      "inbound tag and kind must not be empty"
    ≫ require_not (not (one_of core ("singbox" ∷ "xray" ∷ []))) "core must be singbox or xray"
    ≫ require_not (not (is_port port)) "listen_port must be between 1 and 65535"
    ≫ require_not (not (is_object extra)) "extra must be a JSON object"
    ≫ validate_happ (get_key "happ" extra)
    ≫ validate_acme_challenges extra
