-- ===== src/Inbound.antt =====
-- Inbounds: the rows of master/src/db/models.rs, how master/src/db/repo.rs writes them, and the checks
-- of master/src/api/mod.rs before it does. Identifiers and instants are numbers. A row is read as the
-- program reads it, with its secrets decrypted.
pub mod Store
pub mod Validate
pub mod Rules
pub mod Security
pub mod Chain
pub mod Conflicts
use honey.Prelude.{ℕ, String, Bool, Option, none, some, List}
use honey.Api.{ℤ}
use honey.Api.Json.{Json}

-- In a PATCH, a missing field, an explicit null and a value stay distinct.
pub data Patch {ℓ} (A : Type ℓ) : Type ℓ where
  missing : Patch A
  null : Patch A
  value : A → Patch A

pub record Inbound : Type 0 where
  pub id : ℕ
  pub node_id : ℕ
  pub tag : String
  pub labels : List String
  pub kind : String
  pub core : String
  pub listen : String
  pub listen_port : ℤ
  pub flow : String
  pub tls_enabled : Bool
  pub server_name : Option String
  pub cert_path : Option String
  pub key_path : Option String
  pub reality : Bool
  pub reality_private_key : Option String
  pub reality_public_key : Option String
  pub reality_short_ids : List String
  pub reality_handshake_server : Option String
  pub reality_handshake_port : Option ℤ
  pub network : String
  pub transport_path : Option String
  pub transport_host : Option String
  pub transport_service_name : Option String
  pub transport_mode : Option String
  pub ech : Bool
  pub utls_fingerprint : Option String
  pub shadowtls_handshake_server : Option String
  pub shadowtls_handshake_port : Option ℤ
  pub extra : Json
  pub enabled : Bool
  pub reachable : Option Bool
  pub reach_checked_at : Option ℕ
  pub reach_error : Option String
  pub fallback_host : Option String
  pub sni_pool : List String
  pub cdn_pool : List String
  pub up_mbps : ℤ
  pub down_mbps : ℤ
  pub udp_idle_timeout : String
  pub upstream_inbound_id : Option ℕ
  pub chain_uuid : Option String
  pub chain_password : Option String
  pub created_at : ℕ
  pub updated_at : ℕ

pub record NewInbound : Type 0 where
  pub node_id : ℕ
  pub tag : String
  pub kind : String
  pub core : String
  pub listen_port : ℤ
  pub flow : String
  pub tls_enabled : Bool
  pub server_name : Option String
  pub cert_path : Option String
  pub key_path : Option String
  pub reality : Bool
  pub reality_private_key : Option String
  pub reality_public_key : Option String
  pub reality_short_ids : List String
  pub reality_handshake_server : Option String
  pub reality_handshake_port : Option ℤ
  pub network : String
  pub transport_path : Option String
  pub transport_host : Option String
  pub transport_service_name : Option String
  pub transport_mode : Option String
  pub ech : Bool
  pub utls_fingerprint : Option String
  pub shadowtls_handshake_server : Option String
  pub shadowtls_handshake_port : Option ℤ
  pub extra : Json
  pub fallback_host : Option String
  pub sni_pool : List String
  pub cdn_pool : List String
  pub up_mbps : ℤ
  pub down_mbps : ℤ
  pub udp_idle_timeout : String
  pub upstream_inbound_id : Option ℕ

pub record UpdateInbound : Type 0 where
  pub tag : Option String
  pub kind : Option String
  pub core : Option String
  pub listen_port : Option ℤ
  pub flow : Option String
  pub tls_enabled : Option Bool
  pub server_name : Patch String
  pub cert_path : Patch String
  pub key_path : Patch String
  pub reality : Option Bool
  pub reality_private_key : Patch String
  pub reality_public_key : Patch String
  pub reality_short_ids : Option (List String)
  pub reality_handshake_server : Patch String
  pub reality_handshake_port : Patch ℤ
  pub network : Option String
  pub transport_path : Patch String
  pub transport_host : Patch String
  pub transport_service_name : Patch String
  pub transport_mode : Patch String
  pub ech : Option Bool
  pub utls_fingerprint : Patch String
  pub shadowtls_handshake_server : Patch String
  pub shadowtls_handshake_port : Patch ℤ
  pub extra : Option Json
  pub enabled : Option Bool
  pub fallback_host : Patch String
  pub sni_pool : Option (List String)
  pub cdn_pool : Option (List String)
  pub up_mbps : Option ℤ
  pub down_mbps : Option ℤ
  pub udp_idle_timeout : Option String
  pub upstream_inbound_id : Patch ℕ
