-- ===== src/Inbound/Validate/Combined.antt =====
-- `validate_effective_security`: the fields of an inbound that depend on one another.
use Prim.Native.String.{◌++◌}
use text.Mathlib.Text.{◌==◌ as str_eq}
use honey.Prelude.{
  String, Bool, true, false, not, ◌&&◌, ◌||◌, Option, List, [], ◌∷◌, if◌then◌else◌, is_some_and,
  is_none_or, any,
}
use honey.Prelude.Text.{is_empty, one_of}
use honey.Api.{ok, Check, require_not, ◌≫◌}
use honey.Inbound.Validate.{valid_reality_key, valid_short_id}

-- What the checks look at, of a new inbound or of one with a change applied.
pub record Security : Type 0 where
  pub kind : String
  pub core : String
  pub tls_enabled : Bool
  pub server_name : Option String
  pub cert_path : Option String
  pub key_path : Option String
  pub reality : Bool
  pub reality_private_key : Option String
  pub reality_public_key : Option String
  pub reality_short_ids : List String
  pub reality_handshake_server : Option String
  pub network : String
  pub acme : Bool

unfoldable pub is_supported : String → String → Bool
is_supported core kind =
    if str_eq core "singbox"
    then one_of kind (
        "vless" ∷ "hysteria2" ∷ "vmess" ∷ "trojan" ∷ "shadowsocks" ∷ "tuic" ∷ "anytls" ∷ "shadowtls"
        ∷ [])
    else (if str_eq core "xray"
        then one_of kind ("vless" ∷ "vmess" ∷ "trojan" ∷ "shadowsocks" ∷ [])
        else false)

unfoldable pub is_network_supported : String → String → Bool
is_network_supported core network =
    if str_eq core "singbox"
    then one_of network ("tcp" ∷ "ws" ∷ "grpc" ∷ "http" ∷ "h2" ∷ "httpupgrade" ∷ "quic" ∷ [])
    else (if str_eq core "xray"
        then one_of network
            ("tcp" ∷ "ws" ∷ "grpc" ∷ "http" ∷ "h2" ∷ "httpupgrade" ∷ "xhttp" ∷ "quic" ∷ "mkcp" ∷ [])
        else false)

unfoldable pub validate_hysteria : Security → Check
validate_hysteria s =
    if str_eq s.kind "hysteria2"
    then (require_not (not s.tls_enabled) "hysteria2 requires tls_enabled=true"
        ≫ require_not s.reality "hysteria2 does not support reality")
    else ok tt

unfoldable pub validate_reality : Security → Check
validate_reality s =
    if s.reality
    then (require_not (not (str_eq s.kind "vless")) "reality is supported only with vless"
        ≫ require_not (is_none_or s.server_name is_empty) "reality requires server_name"
        ≫ require_not (is_none_or s.reality_handshake_server is_empty)
            "reality requires reality_handshake_server"
        ≫ require_not (not (is_some_and s.reality_private_key valid_reality_key))
            "reality_private_key must be an unpadded base64url X25519 key"
        ≫ require_not (not (is_some_and s.reality_public_key valid_reality_key))
            "reality_public_key must be an unpadded base64url X25519 key"
        ≫ require_not
            (elim s.reality_short_ids [ [] ↦ true | x ∷ xs ↦ false ]
              || any (λ id. not (valid_short_id id)) s.reality_short_ids)
            "reality_short_ids must contain even-length hexadecimal IDs (2-16 chars)"
        ≫ require_not
            (str_eq s.core "xray" && not (one_of s.network ("tcp" ∷ "xhttp" ∷ "grpc" ∷ [])))
            "xray reality supports only tcp, xhttp, or grpc transport")
    else ok tt

unfoldable pub validate_effective_security : Security → Check
validate_effective_security s =
    require_not (not (is_supported s.core s.kind))
      ("protocol '" ++ s.kind ++ "' is not supported by core '" ++ s.core ++ "'")
    ≫ require_not (not (is_network_supported s.core s.network))
        ("transport '" ++ s.network ++ "' is not supported by core '" ++ s.core ++ "'")
    ≫ validate_hysteria s
    ≫ require_not
        (s.tls_enabled
          && not s.reality
          && not s.acme
          && (is_none_or s.cert_path is_empty || is_none_or s.key_path is_empty))
        "tls requires both cert_path and key_path (or enable acme)"
    ≫ validate_reality s
