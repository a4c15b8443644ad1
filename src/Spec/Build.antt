-- ===== src/Spec/Build.antt =====
-- The inbounds of `build_node_spec` of master/src/spec.rs. The rows that its queries return are
-- arguments, and so are the text of a JSON value and the outbound to an exit; `none` is an error, which
-- ends the whole build.
use text.Mathlib.Text.{◌==◌ as str_eq}
use honey.Prelude.{
  ℕ, String, Bool, true, ◌&&◌, ◌||◌, Option, none, some, List, [], ◌∷◌, ◌++◌, leb, if◌then◌else◌,
  map, filter, is_some, unwrap_or, and_then, map_option,
}
use honey.Prelude.Text.{is_empty, trim}
use honey.Prelude.Sort.{str_le}
use honey.Api.{ℤ, pos, negsuc}
use honey.Api.Json.{Json, Fields}
use honey.Inbound.{Inbound}
use honey.Traffic.{User, is_active, quota_bytes}
use honey.Spec.Messages.{InboundUser, Reality, Tls, Transport, WireInbound}

-- A user with access to the node, and its credentials.
pub record Member : Type 0 where
  pub user : User
  pub uuid : String
  pub password : String

-- `chain_users_for_exit`: a label, and the credential of an entry.
pub record ChainUser : Type 0 where
  pub label : String
  pub uuid : String
  pub password : Option String

-- `u32::try_from`
abbrev pub to_u32 : ℤ → Option ℕ
to_u32 (pos n) = some n
to_u32 (negsuc n) = none

abbrev in_range : ℕ → Option ℕ
in_range n = if leb 1 n && leb n 65_535 then some n else none

abbrev pub checked_port : ℤ → Option ℕ
checked_port p = and_then (to_u32 p) in_range

abbrev pub flow_of : Inbound → String
flow_of ib = if str_eq ib.kind "vless" then ib.flow else ""

unfoldable pub inbound_user : Inbound → Member → InboundUser
inbound_user ib m = record {
  name = m.user.username;
  uuid = m.uuid;
  password = m.password;
  flow = flow_of ib;
  quota_bytes = quota_bytes m.user;
}

unfoldable pub chain_user : Inbound → ChainUser → InboundUser
chain_user ib c = record {
  name = c.label;
  uuid = c.uuid;
  password = unwrap_or c.password "";
  flow = flow_of ib;
  quota_bytes = 0;
}

unfoldable pub users_of : ℕ → Inbound → List Member → List ChainUser → List InboundUser
unfolding inbound_user chain_user
users_of now ib members chain =
    map (inbound_user ib) (filter (λ (m : Member). is_active now m.user) members)
    ++ map (chain_user ib) chain

-- 443 where the row names no port.
abbrev pub handshake_port : Option ℤ → Option ℕ
handshake_port none = some 443
handshake_port (some p) = checked_port p

abbrev reality_of : Inbound → ℕ → Reality
reality_of ib port = record {
  private_key = unwrap_or ib.reality_private_key "";
  short_ids = ib.reality_short_ids;
  handshake_server = unwrap_or ib.reality_handshake_server "";
  handshake_port = port;
}

-- An error, or REALITY's settings if the row has it.
unfoldable pub build_reality : Inbound → Option (Option Reality)
build_reality ib =
    if ib.reality
    then map_option (λ (port : ℕ). some (reality_of ib port))
        (handshake_port ib.reality_handshake_port)
    else some none

abbrev tls_of : Inbound → Option Reality → Tls
tls_of ib reality = record {
  enabled = ib.tls_enabled;
  server_name = unwrap_or ib.server_name "";
  cert_path = unwrap_or ib.cert_path "";
  key_path = unwrap_or ib.key_path "";
  reality = reality;
  ech = ib.ech;
  utls_fingerprint = unwrap_or ib.utls_fingerprint "";
  shadowtls_handshake_server = unwrap_or ib.shadowtls_handshake_server "";
  shadowtls_handshake_port = unwrap_or (and_then ib.shadowtls_handshake_port to_u32) 0;
}

abbrev pub needs_tls : Inbound → Bool
needs_tls ib = ib.tls_enabled || is_some ib.shadowtls_handshake_server

unfoldable pub build_tls : Inbound → Option (Option Tls)
unfolding build_reality
build_tls ib =
    if needs_tls ib
    then map_option (λ (r : Option Reality). some (tls_of ib r)) (build_reality ib)
    else some none

-- `Map::insert`; the keys stand in their order.
unfoldable pub set_field : String → Json → Fields → Fields
set_field key new Fields.end = Fields.field key new Fields.end
set_field key new (Fields.field k v rest) =
    let later = set_field key new rest in
    if str_eq k key
    then Fields.field key new rest
    else if str_le key k
    then Fields.field key new (Fields.field k v rest)
    else Fields.field k v later

abbrev idle_timeout : Inbound → String
idle_timeout ib = if is_empty (trim ib.udp_idle_timeout) then "60s" else ib.udp_idle_timeout

abbrev extra_object : Json → Json
extra_object Json.null = Json.object Fields.end
extra_object other = other

abbrev with_timeout : Bool → String → Json → Json
with_timeout true timeout (Json.object fs) =
    Json.object (set_field "udpIdleTimeout" (Json.string timeout) fs)
with_timeout _ timeout other = other

unfoldable pub extra_value : Inbound → Json
unfolding is_empty trim set_field
extra_value ib = with_timeout (str_eq ib.kind "hysteria2") (idle_timeout ib) (extra_object ib.extra)

abbrev extra_text : (Json → String) → Json → String
extra_text to_text Json.null = ""
extra_text to_text (Json.object Fields.end) = ""
extra_text to_text other = to_text other

unfoldable pub transport_of : Inbound → Option Transport
transport_of ib =
    if str_eq ib.network "tcp"
    then none
    else some (record {
      network = ib.network;
      path = unwrap_or ib.transport_path "";
      host = unwrap_or ib.transport_host "";
      service_name = unwrap_or ib.transport_service_name "";
      mode = unwrap_or ib.transport_mode "";
    })

-- `.max(0) as u32`
abbrev rate : ℤ → ℕ
rate (pos n) = n
rate (negsuc n) = 0

module _ (to_text : Json → String) (now : ℕ) (members : List Member) (chain : ℕ → List ChainUser)
    (outbound : Inbound → ℕ → Option String) where
  -- `build_chain_outbound` where the inbound has an exit.
  abbrev pub upstream_outbound : Inbound → Option ℕ → Option String
  upstream_outbound ib none = some ""
  upstream_outbound ib (some exit) = outbound ib exit

  unfoldable pub wire : Inbound → ℕ → String → Option Tls → WireInbound
  unfolding users_of extra_value transport_of
  wire ib port upstream tls = record {
    core = ib.core;
    tag = ib.tag;
    kind = ib.kind;
    listen = ib.listen;
    listen_port = port;
    users = users_of now ib members (chain ib.id);
    tls = tls;
    extra_json = extra_text to_text (extra_value ib);
    transport = transport_of ib;
    up_mbps = rate ib.up_mbps;
    down_mbps = rate ib.down_mbps;
    upstream_outbound_json = upstream;
  }

  -- One round of the loop.
  unfoldable pub build_inbound : Inbound → Option WireInbound
  unfolding build_tls wire
  build_inbound ib = and_then (checked_port ib.listen_port) (λ (port : ℕ).
      and_then (upstream_outbound ib ib.upstream_inbound_id)
        (λ (upstream : String). map_option (wire ib port upstream) (build_tls ib)))

  unfoldable pub build_inbounds : List Inbound → Option (List WireInbound)
  unfolding build_inbound
  build_inbounds [] = some []
  build_inbounds (ib ∷ rows) =
      let rest = build_inbounds rows in
      and_then (build_inbound ib)
        (λ (w : WireInbound). map_option (λ (ws : List WireInbound). w ∷ ws) rest)
