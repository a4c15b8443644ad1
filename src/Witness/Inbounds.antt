-- ===== src/Witness/Inbounds.antt =====
-- A REALITY inbound, ACME settings for it, and chains between such inbounds.
use honey.Prelude.{ℕ, String, true, false, none, some, [], ◌∷◌, ◌≡◌, ◌≢◌, refl, arith}
use honey.Prelude.Text.{trim, trim_start, trim_end, is_empty, chars_all, one_of}
use honey.Prelude.Keys.{nat_eq, get, insert, get-insert}
use honey.Api.{pos, ok, IsAccepted}
use honey.Api.Json.{Json, object, string, end, field, get_field}
use honey.Inbound.{Inbound, NewInbound, UpdateInbound, null, value}
use honey.Inbound.Store.{Fresh, create_inbound, update_inbound, revert_inbound, patch_parts}
use honey.Inbound.Validate.{
  validate_inbound_basics, validate_happ, validate_acme_challenges, valid_reality_key,
  valid_short_id, validate_vless_flow,
}
use honey.Inbound.Validate.Acme.{acme_enabled, acme_email, validate_acme_for_core}
use honey.Inbound.Validate.Combined.{
  is_supported, is_network_supported, validate_hysteria, validate_reality,
  validate_effective_security,
}
use honey.Inbound.Validate.Requests.{
  validate_new_acme, validate_new_rest, validate_inbound, validate_update_inbound,
  validate_effective_update, effective_string,
}
use honey.Inbound.Rules.{is_secure, row_security}
use honey.Inbound.Security.{created, updated, IsSound, Stored-IsSound, reverted_insecure}
use honey.Inbound.Conflicts.{unchanged}
use honey.Inbound.Chain.{Inbounds, create, update, validate_upstream, walk}
use honey.Inbound.Chain.Acyclic.{Ends, stops, upstream_of, update-Ends}

-- 43 characters of base64url.
abbrev key : String
key = "AbCdEfGhIjKlMnOpQrStUvWxYz0123456789-_AbCdE"

abbrev pub reality_input : NewInbound
reality_input = record {
  node_id = 1;
  tag = "in";
  kind = "vless";
  core = "singbox";
  listen_port = pos 443;
  flow = "";
  tls_enabled = true;
  server_name = some "a.example";
  cert_path = none;
  key_path = none;
  reality = true;
  reality_private_key = some key;
  reality_public_key = some key;
  reality_short_ids = "ab12" ∷ [];
  reality_handshake_server = some "b.example";
  reality_handshake_port = none;
  network = "tcp";
  transport_path = none;
  transport_host = none;
  transport_service_name = none;
  transport_mode = none;
  ech = false;
  utls_fingerprint = some "qq";
  shadowtls_handshake_server = none;
  shadowtls_handshake_port = none;
  extra = object end;
  fallback_host = none;
  sni_pool = [];
  cdn_pool = [];
  up_mbps = pos 0;
  down_mbps = pos 0;
  udp_idle_timeout = "60s";
  upstream_inbound_id = none;
}

abbrev pub drawn : Fresh
drawn = record { id = 5; now = 100; uuid = "u"; password = "p" }

pub reality_input-IsAccepted : IsAccepted (validate_inbound reality_input)
unfolding validate_inbound validate_inbound_basics validate_happ validate_acme_challenges get_field
    validate_new_acme acme_enabled acme_email validate_acme_for_core validate_effective_security
    is_supported is_network_supported validate_hysteria validate_reality valid_reality_key
    valid_short_id validate_new_rest validate_vless_flow trim trim_start trim_end is_empty chars_all
    one_of
reality_input-IsAccepted = refl

Stored-IsSound_example : IsSound (create_inbound drawn reality_input)
Stored-IsSound_example =
    Stored-IsSound (create_inbound drawn reality_input)
      (created drawn reality_input reality_input-IsAccepted)

-- REALITY and its key are taken off again.
abbrev keyless_change : UpdateInbound
keyless_change = record unchanged {
  tls_enabled = some false;
  reality = some false;
  reality_private_key = null;
}

abbrev first_version : Inbound
first_version = create_inbound drawn reality_input

keyless_valid : IsAccepted (validate_update_inbound keyless_change)
unfolding validate_update_inbound trim trim_start trim_end is_empty one_of
keyless_valid = refl

keyless_fits : IsAccepted (validate_effective_update first_version keyless_change)
unfolding create_inbound validate_effective_update effective_string acme_enabled acme_email
    get_field validate_acme_for_core validate_effective_security is_supported is_network_supported
    validate_hysteria validate_reality validate_vless_flow trim trim_start trim_end is_empty one_of
keyless_fits = refl

first_on : first_version.reality ≡ true
unfolding create_inbound
first_on = refl

keyless : (update_inbound drawn keyless_change first_version).reality_private_key ≡ none
unfolding update_inbound patch_parts
keyless = refl

reverted_insecure_example :
    is_secure (
      row_security
        (revert_inbound drawn first_version (update_inbound drawn keyless_change first_version)))
    ≡ false
reverted_insecure_example =
    reverted_insecure drawn first_version (update_inbound drawn keyless_change first_version)
      (created drawn reality_input reality_input-IsAccepted)
      (updated drawn keyless_change first_version
        (created drawn reality_input reality_input-IsAccepted) keyless_valid keyless_fits)
      first_on keyless

abbrev acme_extra : Json
acme_extra = object (field "acme" (object (field "email" (string "a@b.example") end)) end)

abbrev reality_row : Inbound
reality_row = create_inbound drawn reality_input

reality_row_on : reality_row.reality ≡ true
unfolding create_inbound
reality_row_on = refl

acme_suits : IsAccepted (validate_acme_for_core reality_row.core acme_extra)
unfolding create_inbound validate_inbound validate_inbound_basics validate_happ
    validate_acme_challenges get_field validate_new_acme acme_enabled acme_email
    validate_acme_for_core validate_effective_security is_supported is_network_supported
    validate_hysteria validate_reality valid_reality_key valid_short_id validate_new_rest
    validate_vless_flow trim trim_start trim_end is_empty chars_all one_of
acme_suits = refl

-- Two inbounds that chain to nothing.
abbrev pair : Inbounds
pair = (5, reality_row) ∷ (6, reality_row) ∷ []

pair-Ends : (i : ℕ) → Ends pair i
unfolding upstream_of get create_inbound
pair-Ends i = stops i (ground arith)

abbrev chained_change : UpdateInbound
chained_change = record unchanged { upstream_inbound_id = value 5 }

abbrev chained : Inbounds
chained = insert 6 (update_inbound drawn chained_change reality_row) pair

chained_accepted : update drawn 6 chained_change pair ≡ ok chained
unfolding update get create_inbound validate_update_inbound validate_effective_update
    effective_string validate_upstream walk validate_inbound validate_inbound_basics validate_happ
    validate_acme_challenges get_field validate_new_acme acme_enabled acme_email
    validate_acme_for_core validate_effective_security is_supported is_network_supported
    validate_hysteria validate_reality valid_reality_key valid_short_id validate_new_rest
    validate_vless_flow trim trim_start trim_end is_empty chars_all one_of
chained_accepted = refl

update-Ends_example : Ends chained 6
update-Ends_example = update-Ends drawn 6 chained_change pair chained pair-Ends chained_accepted 6

abbrev entry_input : NewInbound
entry_input = record reality_input { upstream_inbound_id = some 5 }

abbrev seventh : Fresh
seventh = record drawn { id = 7 }

abbrev entered : Inbounds
entered = insert 7 (create_inbound seventh entry_input) pair

entry_accepted : create seventh entry_input pair ≡ ok entered
unfolding create get create_inbound validate_upstream walk validate_inbound validate_inbound_basics
    validate_happ validate_acme_challenges get_field validate_new_acme acme_enabled acme_email
    validate_acme_for_core validate_effective_security is_supported is_network_supported
    validate_hysteria validate_reality valid_reality_key valid_short_id validate_new_rest
    validate_vless_flow trim trim_start trim_end is_empty chars_all one_of
entry_accepted = refl

seven_new : get 7 pair ≡ none
unfolding get
seven_new = refl

seven_unnamed : (i : ℕ) → upstream_of pair i ≢ some 7
unfolding upstream_of get create_inbound
seven_unnamed i = λ h. ground arith

abbrev chained_row : Inbound
chained_row = update_inbound drawn chained_change reality_row

chained_found : get 6 chained ≡ some chained_row
chained_found = get-insert 6 6 chained_row pair

xray_known : one_of "xray" ("singbox" ∷ "xray" ∷ []) ≡ true
unfolding one_of
xray_known = refl

xray-IsAccepted :
    IsAccepted (validate_effective_update chained_row (record unchanged { core = some "xray" }))
unfolding update_inbound patch_parts create_inbound validate_update_inbound
    validate_effective_update effective_string validate_inbound validate_inbound_basics
    validate_happ validate_acme_challenges get_field validate_new_acme acme_enabled acme_email
    validate_acme_for_core validate_effective_security is_supported is_network_supported
    validate_hysteria validate_reality valid_reality_key valid_short_id validate_new_rest
    validate_vless_flow trim trim_start trim_end is_empty chars_all one_of
xray-IsAccepted = refl
