-- ===== src/Inbound/Validate/Requests.antt =====
-- The checks of a whole request: `validate_inbound` of a new inbound, and `validate_update_inbound`
-- and `validate_effective_update` of a change.
use Prim.Native.String.{len}
use text.Mathlib.Text.{◌==◌ as str_eq}
use honey.Prelude.{
  String, not, ◌&&◌, ◌||◌, Option, none, some, [], ◌∷◌, ltb, if◌then◌else◌, is_some_and, unwrap_or,
  is_some,
}
use honey.Prelude.Text.{trim, is_empty, one_of}
use honey.Api.{ok, Check, require_not, ◌≫◌, is_port}
use honey.Api.Json.{is_object}
use honey.Inbound.{Patch, missing, null, value, Inbound, NewInbound, UpdateInbound}
use honey.Inbound.Validate.{
  is_valid_network, is_valid_transport_mode, is_valid_utls_fingerprint, is_duration,
  validate_vless_flow, validate_inbound_basics,
}
use honey.Inbound.Validate.Acme.{acme_email, acme_enabled, validate_acme_for_core}
use honey.Inbound.Validate.Combined.{Security, validate_effective_security}

abbrev pub new_security : NewInbound → Security
new_security input = record {
  kind = input.kind;
  core = input.core;
  tls_enabled = input.tls_enabled;
  server_name = input.server_name;
  cert_path = input.cert_path;
  key_path = input.key_path;
  reality = input.reality;
  reality_private_key = input.reality_private_key;
  reality_public_key = input.reality_public_key;
  reality_short_ids = input.reality_short_ids;
  reality_handshake_server = input.reality_handshake_server;
  network = input.network;
  acme = acme_enabled input.extra;
}

unfoldable pub validate_new_acme : NewInbound → Check
validate_new_acme input =
    if acme_enabled input.extra
    then (require_not input.reality "acme and reality are mutually exclusive"
        ≫ require_not (not input.tls_enabled) "acme requires tls_enabled=true"
        ≫ require_not (is_empty (trim (unwrap_or input.server_name "")))
            "acme requires a server_name (the domain to certify)"
        ≫ require_not (not (is_some (acme_email input.extra)))
            "acme requires an email (extra.acme.email)"
        ≫ validate_acme_for_core input.core input.extra)
    else ok tt

unfoldable pub validate_new_rest : NewInbound → Check
validate_new_rest input =
    require_not (not (is_valid_network input.network))
      "network must be one of tcp/ws/grpc/http/h2/httpupgrade/xhttp/quic/mkcp"
    ≫ require_not (is_some_and input.transport_mode (λ mode. not (is_valid_transport_mode mode)))
        "transport_mode must be one of auto/packet-up/stream-up/stream-one"
    ≫ require_not (is_some_and input.utls_fingerprint (λ f. not (is_valid_utls_fingerprint f)))
        "utls_fingerprint must be one of chrome/firefox/safari/ios/android/edge/360/qq/random/randomized"
    ≫ validate_vless_flow input.kind input.network input.tls_enabled input.flow
    ≫ require_not (is_some_and input.shadowtls_handshake_port (λ port. not (is_port port)))
        "shadowtls_handshake_port must be between 1 and 65535"
    ≫ require_not
        (str_eq input.kind "shadowtls" && is_empty (unwrap_or input.shadowtls_handshake_server ""))
        "shadowtls requires a handshake server"
    ≫ require_not (is_empty (trim input.udp_idle_timeout)) "udp_idle_timeout must not be empty"
    ≫ require_not (ltb 32 (len input.udp_idle_timeout) || not (is_duration input.udp_idle_timeout))
        "udp_idle_timeout must be a duration such as 60s or 5m"

unfoldable pub validate_inbound : NewInbound → Check
unfolding validate_new_acme validate_new_rest
validate_inbound input =
    validate_inbound_basics input.tag input.kind input.core input.listen_port input.extra
    ≫ require_not (input.reality && not input.tls_enabled) "reality requires tls_enabled=true"
    ≫ require_not (input.reality && is_empty (unwrap_or input.reality_private_key ""))
        "reality_private_key is required"
    ≫ require_not (input.reality && is_empty (unwrap_or input.reality_public_key ""))
        "reality_public_key is required"
    ≫ validate_new_acme input
    ≫ validate_effective_security (new_security input)
    ≫ validate_new_rest input

abbrev patch_value {ℓ} : {A : Type ℓ} → Patch A → Option A
patch_value missing = none
patch_value null = none
patch_value (value a) = some a

unfoldable pub validate_update_inbound : UpdateInbound → Check
validate_update_inbound input =
    require_not
      (is_some_and input.tag (λ v. is_empty (trim v))
        || is_some_and input.kind (λ v. is_empty (trim v)))
      "inbound tag and kind must not be empty"
    ≫ require_not (is_some_and input.core (λ v. not (one_of v ("singbox" ∷ "xray" ∷ []))))
        "core must be singbox or xray"
    ≫ require_not (is_some_and input.udp_idle_timeout (λ v. is_empty (trim v)))
        "udp_idle_timeout must not be empty"
    ≫ require_not (is_some_and input.listen_port (λ v. not (is_port v)))
        "listen_port must be between 1 and 65535"
    ≫ require_not (is_some_and input.extra (λ v. not (is_object v))) "extra must be a JSON object"
    ≫ require_not (is_some_and (patch_value input.reality_handshake_port) (λ v. not (is_port v)))
        "reality_handshake_port must be between 1 and 65535"
    ≫ require_not (is_some_and input.network (λ n. not (is_valid_network n)))
        "unsupported network transport"
    ≫ require_not
        (is_some_and (patch_value input.transport_mode)
          (λ mode. not (is_valid_transport_mode mode)))
        "transport_mode must be one of auto/packet-up/stream-up/stream-one"
    ≫ require_not
        (is_some_and (patch_value input.utls_fingerprint) (λ f. not (is_valid_utls_fingerprint f)))
        "utls_fingerprint must be one of chrome/firefox/safari/ios/android/edge/360/qq/random/randomized"
    ≫ require_not
        (is_some_and input.flow
          (λ flow. not (is_empty (trim flow)) && not (str_eq flow "xtls-rprx-vision")))
        "unsupported VLESS flow; use xtls-rprx-vision or leave it empty"
    ≫ require_not
        (is_some_and (patch_value input.shadowtls_handshake_port) (λ port. not (is_port port)))
        "shadowtls_handshake_port must be between 1 and 65535"

unfoldable pub effective_string : Patch String → Option String → Option String
effective_string missing current = current
effective_string null current = none
effective_string (value v) current = some v

abbrev pub effective_security : Inbound → UpdateInbound → Security
effective_security current input = record {
  kind = unwrap_or input.kind current.kind;
  core = unwrap_or input.core current.core;
  tls_enabled = unwrap_or input.tls_enabled current.tls_enabled;
  server_name = effective_string input.server_name current.server_name;
  cert_path = effective_string input.cert_path current.cert_path;
  key_path = effective_string input.key_path current.key_path;
  reality = unwrap_or input.reality current.reality;
  reality_private_key = effective_string input.reality_private_key current.reality_private_key;
  reality_public_key = effective_string input.reality_public_key current.reality_public_key;
  reality_short_ids = unwrap_or input.reality_short_ids current.reality_short_ids;
  reality_handshake_server =
      effective_string input.reality_handshake_server current.reality_handshake_server;
  network = unwrap_or input.network current.network;
  acme = acme_enabled (unwrap_or input.extra current.extra);
}

unfoldable pub validate_effective_update : Inbound → UpdateInbound → Check
validate_effective_update current input =
    validate_vless_flow (unwrap_or input.kind current.kind)
      (unwrap_or input.network current.network) (unwrap_or input.tls_enabled current.tls_enabled)
      (unwrap_or input.flow current.flow)
    ≫ validate_effective_security (effective_security current input)
    ≫ validate_acme_for_core (unwrap_or input.core current.core)
        (unwrap_or input.extra current.extra)
