-- ===== src/Inbound/Store.antt =====
-- How the repository writes an inbound: `create_inbound`, `update_inbound` and their helpers.
use honey.Prelude.{
  ℕ, String, Bool, true, false, Option, none, some, [], if◌then◌else◌, unwrap_or, map_option,
}
use honey.Prelude.Text.{trim, is_empty}
use honey.Api.{max_zero}
use honey.Api.Json.{Json}
use honey.Inbound.{Patch, missing, null, value, Inbound, NewInbound, UpdateInbound}

unfoldable pub patch_parts {ℓ} : {A : Type ℓ} → Patch A → Bool × Option A
patch_parts missing = (false, none)
patch_parts null = (true, none)
patch_parts (value a) = (true, some a)

-- `CASE WHEN set THEN value ELSE column END`
abbrev pub case_when {ℓ} : {A : Type ℓ} → Bool × A → A → A
case_when parts column = if parts.0 then parts.1 else column

-- What a write draws afresh: the identifier, the instant, and the two parts of a chain credential.
pub record Fresh : Type 0 where
  pub id : ℕ
  pub now : ℕ
  pub uuid : String
  pub password : String

unfoldable pub chain_credential : Fresh → Option ℕ → Option String × Option String
chain_credential fresh none = (none, none)
chain_credential fresh (some upstream) = (some fresh.uuid, some fresh.password)

unfoldable pub default_timeout : String → String
unfolding trim is_empty
default_timeout v = if is_empty (trim v) then "60s" else v

-- The columns that the INSERT does not name take their defaults.
unfoldable pub create_inbound : Fresh → NewInbound → Inbound
unfolding chain_credential default_timeout
create_inbound fresh inbound = record {
  id = fresh.id;
  node_id = inbound.node_id;
  tag = inbound.tag;
  labels = [];
  kind = inbound.kind;
  core = inbound.core;
  listen = "::";
  listen_port = inbound.listen_port;
  flow = inbound.flow;
  tls_enabled = inbound.tls_enabled;
  server_name = inbound.server_name;
  cert_path = inbound.cert_path;
  key_path = inbound.key_path;
  reality = inbound.reality;
  reality_private_key = inbound.reality_private_key;
  reality_public_key = inbound.reality_public_key;
  reality_short_ids = inbound.reality_short_ids;
  reality_handshake_server = inbound.reality_handshake_server;
  reality_handshake_port = inbound.reality_handshake_port;
  network = inbound.network;
  transport_path = inbound.transport_path;
  transport_host = inbound.transport_host;
  transport_service_name = inbound.transport_service_name;
  transport_mode = inbound.transport_mode;
  ech = inbound.ech;
  utls_fingerprint = inbound.utls_fingerprint;
  shadowtls_handshake_server = inbound.shadowtls_handshake_server;
  shadowtls_handshake_port = inbound.shadowtls_handshake_port;
  extra = inbound.extra;
  enabled = true;
  reachable = none;
  reach_checked_at = none;
  reach_error = none;
  fallback_host = inbound.fallback_host;
  sni_pool = inbound.sni_pool;
  cdn_pool = inbound.cdn_pool;
  up_mbps = max_zero inbound.up_mbps;
  down_mbps = max_zero inbound.down_mbps;
  udp_idle_timeout = default_timeout inbound.udp_idle_timeout;
  upstream_inbound_id = inbound.upstream_inbound_id;
  chain_uuid = (chain_credential fresh inbound.upstream_inbound_id).0;
  chain_password = (chain_credential fresh inbound.upstream_inbound_id).1;
  created_at = fresh.now;
  updated_at = fresh.now;
}

-- The row that the UPDATE writes over `row`. Changing the upstream draws a new chain credential, or
-- clears it.
unfoldable pub update_inbound : Fresh → UpdateInbound → Inbound → Inbound
unfolding patch_parts chain_credential default_timeout
update_inbound fresh inbound row = record {
  id = row.id;
  node_id = row.node_id;
  tag = unwrap_or inbound.tag row.tag;
  labels = row.labels;
  kind = unwrap_or inbound.kind row.kind;
  core = unwrap_or inbound.core row.core;
  listen = row.listen;
  listen_port = unwrap_or inbound.listen_port row.listen_port;
  flow = unwrap_or inbound.flow row.flow;
  tls_enabled = unwrap_or inbound.tls_enabled row.tls_enabled;
  server_name = case_when (patch_parts inbound.server_name) row.server_name;
  cert_path = case_when (patch_parts inbound.cert_path) row.cert_path;
  key_path = case_when (patch_parts inbound.key_path) row.key_path;
  reality = unwrap_or inbound.reality row.reality;
  reality_private_key = case_when (patch_parts inbound.reality_private_key) row.reality_private_key;
  reality_public_key = case_when (patch_parts inbound.reality_public_key) row.reality_public_key;
  reality_short_ids = unwrap_or inbound.reality_short_ids row.reality_short_ids;
  reality_handshake_server =
      case_when (patch_parts inbound.reality_handshake_server) row.reality_handshake_server;
  reality_handshake_port =
      case_when (patch_parts inbound.reality_handshake_port) row.reality_handshake_port;
  network = unwrap_or inbound.network row.network;
  transport_path = case_when (patch_parts inbound.transport_path) row.transport_path;
  transport_host = case_when (patch_parts inbound.transport_host) row.transport_host;
  transport_service_name =
      case_when (patch_parts inbound.transport_service_name) row.transport_service_name;
  transport_mode = case_when (patch_parts inbound.transport_mode) row.transport_mode;
  ech = unwrap_or inbound.ech row.ech;
  utls_fingerprint = case_when (patch_parts inbound.utls_fingerprint) row.utls_fingerprint;
  shadowtls_handshake_server =
      case_when (patch_parts inbound.shadowtls_handshake_server) row.shadowtls_handshake_server;
  shadowtls_handshake_port =
      case_when (patch_parts inbound.shadowtls_handshake_port) row.shadowtls_handshake_port;
  extra = unwrap_or inbound.extra row.extra;
  enabled = unwrap_or inbound.enabled row.enabled;
  reachable = row.reachable;
  reach_checked_at = row.reach_checked_at;
  reach_error = row.reach_error;
  fallback_host = case_when (patch_parts inbound.fallback_host) row.fallback_host;
  sni_pool = unwrap_or inbound.sni_pool row.sni_pool;
  cdn_pool = unwrap_or inbound.cdn_pool row.cdn_pool;
  up_mbps = unwrap_or (map_option max_zero inbound.up_mbps) row.up_mbps;
  down_mbps = unwrap_or (map_option max_zero inbound.down_mbps) row.down_mbps;
  udp_idle_timeout =
      unwrap_or (map_option default_timeout inbound.udp_idle_timeout) row.udp_idle_timeout;
  upstream_inbound_id = case_when (patch_parts inbound.upstream_inbound_id) row.upstream_inbound_id;
  chain_uuid =
      case_when
        (
          (patch_parts inbound.upstream_inbound_id).0,
          (chain_credential fresh (patch_parts inbound.upstream_inbound_id).1).0,
        )
        row.chain_uuid;
  chain_password =
      case_when
        (
          (patch_parts inbound.upstream_inbound_id).0,
          (chain_credential fresh (patch_parts inbound.upstream_inbound_id).1).1,
        )
        row.chain_password;
  created_at = row.created_at;
  updated_at = fresh.now;
}

-- A column of a snapshot, as a change reads it.
abbrev pub stated {ℓ} : {A : Type ℓ} → Option A → Patch A
stated none = null
stated (some a) = value a

-- A null is read as no value.
abbrev pub stated_json : Json → Option Json
stated_json Json.null = none
stated_json v = some v

-- The change that a snapshot of a row is read as. The private key is never written to a snapshot.
unfoldable pub snapshot_update : Inbound → UpdateInbound
snapshot_update old = record {
  tag = some old.tag;
  kind = some old.kind;
  core = some old.core;
  listen_port = some old.listen_port;
  flow = some old.flow;
  tls_enabled = some old.tls_enabled;
  server_name = stated old.server_name;
  cert_path = stated old.cert_path;
  key_path = stated old.key_path;
  reality = some old.reality;
  reality_private_key = missing;
  reality_public_key = stated old.reality_public_key;
  reality_short_ids = some old.reality_short_ids;
  reality_handshake_server = stated old.reality_handshake_server;
  reality_handshake_port = stated old.reality_handshake_port;
  network = some old.network;
  transport_path = stated old.transport_path;
  transport_host = stated old.transport_host;
  transport_service_name = stated old.transport_service_name;
  transport_mode = stated old.transport_mode;
  ech = some old.ech;
  utls_fingerprint = stated old.utls_fingerprint;
  shadowtls_handshake_server = stated old.shadowtls_handshake_server;
  shadowtls_handshake_port = stated old.shadowtls_handshake_port;
  extra = stated_json old.extra;
  enabled = some old.enabled;
  fallback_host = stated old.fallback_host;
  sni_pool = some old.sni_pool;
  cdn_pool = some old.cdn_pool;
  up_mbps = some old.up_mbps;
  down_mbps = some old.down_mbps;
  udp_idle_timeout = some old.udp_idle_timeout;
  upstream_inbound_id = stated old.upstream_inbound_id;
}

-- `revert_inbound`: the snapshot is written over the row, with no check.
unfoldable pub revert_inbound : Fresh → Inbound → Inbound → Inbound
unfolding update_inbound snapshot_update
revert_inbound fresh old row = update_inbound fresh (snapshot_update old) row
