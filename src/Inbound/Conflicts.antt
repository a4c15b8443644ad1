-- ===== src/Inbound/Conflicts.antt =====
-- Rules between fields that a new inbound is held to, and a change is not.
use honey.Prelude.{
  ℕ, String, Bool, true, false, none, some, [], ◌∷◌, ◌≡◌, refl, ◌∙◌, arith, is_some, unwrap_or,
}
use honey.Prelude.Text.{is_empty, trim, one_of}
use honey.Prelude.Keys.{nat_eq, get, insert}
use honey.Api.{ok, IsAccepted, ≫-IsAccepted_of}
use honey.Api.Json.{Json, is_object}
use honey.Inbound.{missing, Inbound, NewInbound, UpdateInbound}
use honey.Inbound.Store.{Fresh, update_inbound, patch_parts}
use honey.Inbound.Validate.Acme.{acme_email, acme_enabled, validate_acme_for_core}
use honey.Inbound.Validate.Combined.{Security}
use honey.Inbound.Validate.Requests.{
  validate_new_acme, validate_inbound, validate_update_inbound, effective_string,
  validate_effective_update,
}
use honey.Inbound.Rules.{row_security, is_secure, security_exact}
use honey.Inbound.Security.{IsSound, inbound-passed}
use honey.Inbound.Chain.{Inbounds, update}

-- A change of nothing.
abbrev pub unchanged : UpdateInbound
unchanged = record {
  tag = none;
  kind = none;
  core = none;
  listen_port = none;
  flow = none;
  tls_enabled = none;
  server_name = missing;
  cert_path = missing;
  key_path = missing;
  reality = none;
  reality_private_key = missing;
  reality_public_key = missing;
  reality_short_ids = none;
  reality_handshake_server = missing;
  reality_handshake_port = missing;
  network = none;
  transport_path = missing;
  transport_host = missing;
  transport_service_name = missing;
  transport_mode = missing;
  ech = none;
  utls_fingerprint = missing;
  shadowtls_handshake_server = missing;
  shadowtls_handshake_port = missing;
  extra = none;
  enabled = none;
  fallback_host = missing;
  sni_pool = none;
  cdn_pool = none;
  up_mbps = none;
  down_mbps = none;
  udp_idle_timeout = none;
  upstream_inbound_id = missing;
}

-- A new inbound with ACME on is accepted only without REALITY and with TLS, the domain to certify and
-- a contact.
pub validate_inbound-acme :
    (input : NewInbound)
    → IsAccepted (validate_inbound input)
    → acme_enabled input.extra ≡ true
    → (input.reality ≡ false)
      × (input.tls_enabled ≡ true)
      × (is_empty (trim (unwrap_or input.server_name "")) ≡ false)
      × (is_some (acme_email input.extra) ≡ true)
unfolding validate_new_acme
validate_inbound-acme input h on = let a = (inbound-passed input h).1 in ground arith

acme-irrelevant :
    (s : Security) (acme : Bool)
    → is_secure s ≡ true
    → s.reality ≡ true
    → is_secure (record s { acme = acme }) ≡ true
acme-irrelevant s acme h reality = ground arith

-- A change that only sets `extra` is accepted on a sound inbound with REALITY whatever ACME settings
-- it turns on, if they suit the core and name a contact.
update-acme_conflict :
    (row : Inbound) (extra : Json)
    → IsSound row
    → row.reality ≡ true
    → is_object extra ≡ true
    → IsAccepted (validate_acme_for_core row.core extra)
    → IsAccepted (validate_update_inbound (record unchanged { extra = some extra }))
      × IsAccepted (validate_effective_update row (record unchanged { extra = some extra }))
unfolding validate_update_inbound validate_effective_update effective_string
update-acme_conflict row extra s reality is_obj suits = (
  ground arith,
  ≫-IsAccepted_of _ _ s.1 (
      ≫-IsAccepted_of _ _
        (security_exact _ ∙ acme-irrelevant (row_security row) (acme_enabled extra) s.0 reality)
        suits),
)

-- A change that only sets the core is accepted whatever the upstream: the row that is written has the
-- new core and the old upstream, also where the core is one that cannot be the entry of a chain.
update-keeps_upstream :
    (fresh : Fresh) (id : ℕ) (core : String) (store : Inbounds) (row : Inbound)
    → get id store ≡ some row
    → one_of core ("singbox" ∷ "xray" ∷ []) ≡ true
    → IsAccepted (validate_effective_update row (record unchanged { core = some core }))
    → (row' : Inbound) × ((update fresh id (record unchanged { core = some core }) store
          ≡ ok (insert id row' store))
        × (row'.core ≡ core)
        × (row'.upstream_inbound_id ≡ row.upstream_inbound_id))
unfolding update validate_update_inbound update_inbound patch_parts
update-keeps_upstream fresh id core store row found known accepted =
    let row' : Inbound = update_inbound fresh (record unchanged { core = some core }) row in
    (row', (rw found (ground arith), refl, refl))
