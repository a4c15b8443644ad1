-- ===== src/Inbound/Rules.antt =====
-- The rules on protocol, core, transport, certificate and REALITY, stated apart from the checks of
-- master/src/api/mod.rs, which accept exactly what they describe.
use text.Mathlib.Text.{◌==◌ as str_eq}
use text.Mathlib.TextEquality.{eq_iff}
use honey.Prelude.{
  String, Bool, false, not, ◌&&◌, ◌||◌, Option, List, [], ◌∷◌, ◌≡◌, ◌≢◌, refl, if◌then◌else◌, arith,
  all, any, is_some_and, is_none_or,
}
use honey.Prelude.Text.{is_empty, one_of}
use honey.Api.{is_ok, require_not}
use honey.Inbound.{Inbound}
use honey.Inbound.Validate.{valid_reality_key, valid_short_id}
use honey.Inbound.Validate.Acme.{acme_enabled}
use honey.Inbound.Validate.Combined.{
  Security, is_supported, is_network_supported, validate_hysteria, validate_reality,
  validate_effective_security,
}

abbrev pub row_security : Inbound → Security
row_security row = record {
  kind = row.kind;
  core = row.core;
  tls_enabled = row.tls_enabled;
  server_name = row.server_name;
  cert_path = row.cert_path;
  key_path = row.key_path;
  reality = row.reality;
  reality_private_key = row.reality_private_key;
  reality_public_key = row.reality_public_key;
  reality_short_ids = row.reality_short_ids;
  reality_handshake_server = row.reality_handshake_server;
  network = row.network;
  acme = acme_enabled row.extra;
}

abbrev present : (String → Bool) → Option String → Bool
present p o = is_some_and o p

abbrev pub is_reality_secure : Security → Bool
is_reality_secure s =
    str_eq s.kind "vless"
    && present (λ p. not (is_empty p)) s.server_name
    && present (λ p. not (is_empty p)) s.reality_handshake_server
    && present valid_reality_key s.reality_private_key
    && present valid_reality_key s.reality_public_key
    && elim s.reality_short_ids [ [] ↦ false | x ∷ xs ↦ all valid_short_id s.reality_short_ids ]
    && (not (str_eq s.core "xray") || one_of s.network ("tcp" ∷ "xhttp" ∷ "grpc" ∷ []))

-- The protocols and the transports of the two cores.
abbrev offers_protocol : String → String → Bool
offers_protocol core kind =
    str_eq core "singbox"
      && one_of kind (
          "vless" ∷ "hysteria2" ∷ "vmess" ∷ "trojan" ∷ "shadowsocks" ∷ "tuic" ∷ "anytls"
          ∷ "shadowtls" ∷ [])
    || str_eq core "xray" && one_of kind ("vless" ∷ "vmess" ∷ "trojan" ∷ "shadowsocks" ∷ [])

abbrev offers_network : String → String → Bool
offers_network core network =
    str_eq core "singbox"
      && one_of network ("tcp" ∷ "ws" ∷ "grpc" ∷ "http" ∷ "h2" ∷ "httpupgrade" ∷ "quic" ∷ [])
    || str_eq core "xray"
      && one_of network
          ("tcp" ∷ "ws" ∷ "grpc" ∷ "http" ∷ "h2" ∷ "httpupgrade" ∷ "xhttp" ∷ "quic" ∷ "mkcp" ∷ [])

-- What an inbound that passes must be like: a protocol and a transport that its core has, and by turns
-- the rules on Hysteria2, on certificates and on REALITY.
abbrev pub is_secure : Security → Bool
is_secure s =
    offers_protocol s.core s.kind
    && offers_network s.core s.network
    && (not (str_eq s.kind "hysteria2") || (s.tls_enabled && not s.reality))
    && (not s.tls_enabled
        || s.reality
        || s.acme
        || (present (λ p. not (is_empty p)) s.cert_path
            && present (λ p. not (is_empty p)) s.key_path))
    && (not s.reality || is_reality_secure s)

singbox_not_xray : ◌≢◌ {A = String} "singbox" "xray"
singbox_not_xray = ground (arith, eq_iff "singbox" "xray")

by_core :
    (core : String) (a b : Bool)
    → (if str_eq core "singbox" then a else if str_eq core "xray" then b else false)
      ≡ (str_eq core "singbox" && a || str_eq core "xray" && b)
by_core core a b = ground (arith, eq_iff core "singbox", eq_iff core "xray", singbox_not_xray)

is_supported-offers : (core kind : String) → is_supported core kind ≡ offers_protocol core kind
unfolding is_supported
is_supported-offers core kind = by_core core _ _

is_network_supported-offers :
    (core network : String) → is_network_supported core network ≡ offers_network core network
unfolding is_network_supported
is_network_supported-offers core network = by_core core _ _

is_none_or-present :
    (o : Option String) → is_none_or o is_empty ≡ not (present (λ p. not (is_empty p)) o)
is_none_or-present o = ground arith

any-not : (p : String → Bool) (xs : List String) → any (λ x. not (p x)) xs ≡ not (all p xs)
any-not p [] = refl
any-not p (x ∷ xs) = ground (arith, any-not p xs)

is_ok-require_not : (b : Bool) (m : String) → is_ok (require_not b m) ≡ not b
is_ok-require_not b m = ground arith

is_ok-validate_hysteria :
    (s : Security)
    → is_ok (validate_hysteria s)
      ≡ (not (str_eq s.kind "hysteria2") || (s.tls_enabled && not s.reality))
unfolding validate_hysteria
is_ok-validate_hysteria s = ground arith

is_ok-validate_reality :
    (s : Security) → is_ok (validate_reality s) ≡ (not s.reality || is_reality_secure s)
unfolding validate_reality
is_ok-validate_reality s = ground (arith, any-not valid_short_id s.reality_short_ids)

-- The checks of the fields that depend on one another accept exactly what `is_secure` describes.
pub security_exact : (s : Security) → is_ok (validate_effective_security s) ≡ is_secure s
unfolding validate_effective_security
security_exact s = ground (
  arith,
  is_supported-offers s.core s.kind,
  is_network_supported-offers s.core s.network,
  is_ok-validate_hysteria s,
  is_ok-validate_reality s,
)
