-- ===== src/Spec/Messages.antt =====
-- The messages of a specification that master/src/spec.rs fills (proto/agent.proto), and the summary
-- and preview that it derives from them.
use text.Mathlib.Text.{◌==◌ as str_eq}
use text.Mathlib.TextEquality.{eq_iff}
use honey.Prelude.{ℕ, String, Bool, true, ◌&&◌, Option, List, ◌≡◌, ◌==◌, ==_iff, ◌↔◌, arith}

pub record InboundUser : Type 0 where
  pub name : String
  pub uuid : String
  pub password : String
  pub flow : String
  pub quota_bytes : ℕ

pub record Reality : Type 0 where
  pub private_key : String
  pub short_ids : List String
  pub handshake_server : String
  pub handshake_port : ℕ

pub record Tls : Type 0 where
  pub enabled : Bool
  pub server_name : String
  pub cert_path : String
  pub key_path : String
  pub reality : Option Reality
  pub ech : Bool
  pub utls_fingerprint : String
  pub shadowtls_handshake_server : String
  pub shadowtls_handshake_port : ℕ

pub record Transport : Type 0 where
  pub network : String
  pub path : String
  pub host : String
  pub service_name : String
  pub mode : String

pub record WireInbound : Type 0 where
  pub core : String
  pub tag : String
  pub kind : String
  pub listen : String
  pub listen_port : ℕ
  pub users : List InboundUser
  pub tls : Option Tls
  pub extra_json : String
  pub transport : Option Transport
  pub up_mbps : ℕ
  pub down_mbps : ℕ
  pub upstream_outbound_json : String

pub record WireguardPeer : Type 0 where
  pub public_key : String
  pub allowed_ip : String

pub record WireguardInterface : Type 0 where
  pub name : String
  pub listen_port : ℕ
  pub private_key : String
  pub address : String
  pub mtu : ℕ
  pub amnezia : Bool
  pub amnezia_params_json : String
  pub peers : List WireguardPeer

pub record NodeService : Type 0 where
  pub kind : String
  pub name : String
  pub listen_port : ℕ
  pub secret : String
  pub config_json : String

pub record NodeSpec : Type 0 where
  pub log_level : String
  pub clash_listen : String
  pub clash_secret : String
  pub inbounds : List WireInbound
  pub wireguard : List WireguardInterface
  pub services : List NodeService

pub record InboundSummary : Type 0 where
  pub tag : String
  pub core : String
  pub protocol : String
  pub listen : String
  pub port : ℕ
  pub network : String
  pub security : String
  pub user_count : ℕ

pub record SpecSummary : Type 0 where
  pub version : ℕ
  pub inbounds : List InboundSummary

pub record ConfigPreview : Type 0 where
  pub desired_hash : String
  pub applied_hash : Option String
  pub changed : Bool
  pub baseline_available : Bool
  pub added : List InboundSummary
  pub removed : List InboundSummary
  pub modified : List InboundSummary
  pub restart_cores : List String

-- The derived equality of summaries.
abbrev pub summary_eq : InboundSummary → InboundSummary → Bool
summary_eq a b =
    str_eq a.tag b.tag
    && str_eq a.core b.core
    && str_eq a.protocol b.protocol
    && str_eq a.listen b.listen
    && (a.port == b.port)
    && str_eq a.network b.network
    && str_eq a.security b.security
    && (a.user_count == b.user_count)

pub summary_eq_iff : (a b : InboundSummary) → (summary_eq a b ≡ true) ↔ (a ≡ b)
summary_eq_iff a b = ground (
  arith,
  eq_iff a.tag b.tag,
  eq_iff a.core b.core,
  eq_iff a.protocol b.protocol,
  eq_iff a.listen b.listen,
  ==_iff a.port b.port,
  eq_iff a.network b.network,
  eq_iff a.security b.security,
  ==_iff a.user_count b.user_count,
)
