-- ===== src/Fleet.antt =====
-- The inventory of nodes: rows, their checks, enrollment tokens and agent certificates, from
-- master/src/db/repo.rs, master/src/api/mod.rs and master/src/registry.rs. The columns that a push
-- writes are in Registry. The push that follows a change, the versions and the audit log are left out.
-- Identifiers and instants are numbers, and a token is its hash.
pub mod Changes
pub mod Valid
pub mod Enrollment
pub mod Revocation
use text.Mathlib.Text.{◌==◌ as str_eq}
use honey.Prelude.{
  ℕ, ◌+◌, ◌*◌, String, Bool, true, false, not, ◌&&◌, ◌||◌, Option, none, some, List, [], ◌∷◌, ltb,
  leb, ◌==◌, if◌then◌else◌, any, map, is_some, is_some_and, unwrap_or, map_option,
}
use honey.Prelude.Text.{trim, is_empty, one_of, eq_ignore_ascii_case}
use honey.Prelude.Keys.{nat_eq, Map, get, insert}
use honey.Api.{
  Checked, err, ok, Check, require_not, ◌≫◌, bind, not_found, bad_request, ℤ, pos, negsuc, is_port,
  max_zero,
}

pub record Node : Type 0 where
  pub name : String
  pub address : String
  pub tls_server_name : String
  pub grpc_port : ℤ
  pub transport : String
  pub extra_addresses : List String
  pub labels : List String
  pub enabled : Bool
  pub maintenance : Bool
  pub monthly_cost_cents : ℤ

pub record NewNode : Type 0 where
  pub name : String
  pub address : String
  pub tls_server_name : String
  pub grpc_port : ℤ
  pub transport : String
  pub monthly_cost_cents : ℤ

pub record UpdateNode : Type 0 where
  pub name : Option String
  pub address : Option String
  pub tls_server_name : Option String
  pub grpc_port : Option ℤ
  pub transport : Option String
  pub enabled : Option Bool
  pub extra_addresses : Option (List String)
  pub maintenance : Option Bool
  pub monthly_cost_cents : Option ℤ

abbrev pub Nodes : Type 0
Nodes = Map ℕ Node

abbrev pub is_blank : String → Bool
is_blank s = is_empty (trim s)

abbrev pub is_transport : String → Bool
is_transport t = one_of t ("serve" ∷ "dial" ∷ "both" ∷ [])

unfoldable pub validate_name_address_port_transport : String → String → ℤ → String → Check
validate_name_address_port_transport name address port transport =
    require_not (is_blank name) "node name must not be empty"
    ≫ require_not (is_blank address) "node address must not be empty"
    ≫ require_not (not (is_port port)) "grpc_port must be between 1 and 65535"
    ≫ require_not (not (is_transport transport)) "transport must be serve, dial, or both"

unfoldable pub validate_node : NewNode → Check
validate_node input =
    require_not (is_blank input.tls_server_name) "tls_server_name must not be empty"
    ≫ validate_name_address_port_transport input.name input.address input.grpc_port input.transport

unfoldable pub validate_update_node : UpdateNode → Check
validate_update_node input =
    require_not (is_some_and input.tls_server_name is_blank) "tls_server_name must not be empty"
    ≫ require_not (is_some_and input.name is_blank) "node name must not be empty"
    ≫ require_not (is_some_and input.address is_blank) "node address must not be empty"
    ≫ require_not (is_some_and input.grpc_port (λ (v : ℤ). not (is_port v)))
        "grpc_port must be between 1 and 65535"
    ≫ require_not (is_some_and input.transport (λ (v : String). not (is_transport v)))
        "transport must be serve, dial, or both"

-- The row that the INSERT writes, with the schema's defaults.
unfoldable pub created_node : NewNode → Node
created_node node = record {
  name = node.name;
  address = node.address;
  tls_server_name = node.tls_server_name;
  grpc_port = node.grpc_port;
  transport = node.transport;
  extra_addresses = [];
  labels = [];
  enabled = true;
  maintenance = false;
  monthly_cost_cents = max_zero node.monthly_cost_cents;
}

unfoldable pub updated_node : UpdateNode → Node → Node
updated_node node row = record {
  name = unwrap_or node.name row.name;
  address = unwrap_or node.address row.address;
  tls_server_name = unwrap_or node.tls_server_name row.tls_server_name;
  grpc_port = unwrap_or node.grpc_port row.grpc_port;
  transport = unwrap_or node.transport row.transport;
  extra_addresses = unwrap_or node.extra_addresses row.extra_addresses;
  labels = row.labels;
  enabled = unwrap_or node.enabled row.enabled;
  maintenance = unwrap_or node.maintenance row.maintenance;
  monthly_cost_cents =
      unwrap_or (map_option max_zero node.monthly_cost_cents) row.monthly_cost_cents;
}

unfoldable pub create_node : ℕ → NewNode → Nodes → Checked Nodes
create_node fresh input nodes = validate_node input ≫ ok (insert fresh (created_node input) nodes)

abbrev pub update_row : ℕ → UpdateNode → Nodes → Option Node → Checked Nodes
update_row id input nodes none = err (not_found "node not found")
update_row id input nodes (some row) = ok (insert id (updated_node input row) nodes)

unfoldable pub update_node : ℕ → UpdateNode → Nodes → Checked Nodes
update_node id input nodes = validate_update_node input ≫ update_row id input nodes (get id nodes)

pub record EnrollmentToken : Type 0 where
  pub id : ℕ
  pub node_id : ℕ
  pub token_hash : String
  pub created_by : Option ℕ
  pub expires_at : ℕ
  pub claimed_at : Option ℕ
  pub revoked_at : Option ℕ

-- Between 5 minutes and a day.
unfoldable pub create_enrollment :
    ℕ
    → ℕ
    → Option ℕ
    → String
    → ℤ
    → Option Node
    → ℕ
    → List EnrollmentToken
    → Checked (List EnrollmentToken)
create_enrollment fresh node_id admin hash (negsuc m) row now tokens =
    err (bad_request "expires_in_minutes must be between 5 and 1440")
create_enrollment fresh node_id admin hash (pos m) none now tokens =
    require_not (not (leb 5 m && leb m 1440)) "expires_in_minutes must be between 5 and 1440"
    ≫ err (not_found "node not found")
create_enrollment fresh node_id admin hash (pos m) (some row) now tokens =
    require_not (not (leb 5 m && leb m 1440)) "expires_in_minutes must be between 5 and 1440"
    ≫ ok (
        record {
          id = fresh;
          node_id = node_id;
          token_hash = hash;
          created_by = admin;
          expires_at = now + m * 60;
          claimed_at = none;
          revoked_at = none;
        }
        ∷ tokens)

abbrev pub is_open : EnrollmentToken → Bool
is_open t = not (is_some t.claimed_at) && not (is_some t.revoked_at)

unfoldable pub revoke_token : ℕ → ℕ → EnrollmentToken → EnrollmentToken
revoke_token id now t = if (t.id == id) && is_open t then record t { revoked_at = some now } else t

unfoldable pub revoke_enrollment_token : ℕ → ℕ → List EnrollmentToken → Bool × List EnrollmentToken
unfolding revoke_token
revoke_enrollment_token id now tokens = (
  any (λ (t : EnrollmentToken). (t.id == id) && is_open t) tokens,
  map (revoke_token id now) tokens,
)

abbrev pub is_claimable : String → ℕ → EnrollmentToken → Bool
is_claimable hash now t = str_eq t.token_hash hash && is_open t && ltb now t.expires_at

unfoldable pub claim_token : String → ℕ → EnrollmentToken → EnrollmentToken
claim_token hash now t = if is_claimable hash now t then record t { claimed_at = some now } else t

abbrev first_node : (EnrollmentToken → Bool) → List EnrollmentToken → Option ℕ
first_node p [] = none
first_node p (t ∷ rest) = let later = first_node p rest in if p t then some t.node_id else later

-- The node of the token that was claimed, and the table.
unfoldable pub claim_enrollment_token :
    String → ℕ → List EnrollmentToken → Option ℕ × List EnrollmentToken
unfolding claim_token
claim_enrollment_token hash now tokens =
    (first_node (is_claimable hash now) tokens, map (claim_token hash now) tokens)

pub record NodeCertificate : Type 0 where
  pub id : ℕ
  pub node_id : ℕ
  pub fingerprint_sha256 : String
  pub not_before : ℕ
  pub not_after : ℕ
  pub revoked_at : Option ℕ

-- `upper(a) = upper(b)`, of hexadecimal texts
abbrev pub is_valid_for : String → ℕ → NodeCertificate → Bool
is_valid_for fingerprint now c =
    eq_ignore_ascii_case c.fingerprint_sha256 fingerprint
    && not (is_some c.revoked_at)
    && leb c.not_before now
    && ltb now c.not_after

-- Whether the node has any certificate, and whether an active one is presented.
unfoldable pub authorize_node_certificate : ℕ → String → ℕ → List NodeCertificate → Bool × Bool
unfolding eq_ignore_ascii_case
authorize_node_certificate node fingerprint now certificates = (
  any (λ (c : NodeCertificate). c.node_id == node) certificates,
  any (λ (c : NodeCertificate). (c.node_id == node) && is_valid_for fingerprint now c) certificates,
)

-- `Registry::authorize_certificate`: whether the agent is let in.
unfoldable pub authorize_certificate : ℕ → String → ℕ → List NodeCertificate → Bool
unfolding authorize_node_certificate
authorize_certificate node fingerprint now certificates =
    let found = authorize_node_certificate node fingerprint now certificates in
    not (found.0 && not found.1)

unfoldable pub revoke_certificate : ℕ → ℕ → NodeCertificate → NodeCertificate
revoke_certificate id now c =
    if (c.id == id) && not (is_some c.revoked_at) then record c { revoked_at = some now } else c

abbrev first_revoked : ℕ → List NodeCertificate → Option ℕ
first_revoked id [] = none
first_revoked id (c ∷ rest) =
    let later = first_revoked id rest in
    if (c.id == id) && not (is_some c.revoked_at) then some c.node_id else later

-- The node of the certificate that was revoked, and the table.
unfoldable pub revoke_node_certificate :
    ℕ → ℕ → List NodeCertificate → Option ℕ × List NodeCertificate
unfolding revoke_certificate
revoke_node_certificate id now certificates =
    (first_revoked id certificates, map (revoke_certificate id now) certificates)

unfoldable pub add_node_certificate : NodeCertificate → List NodeCertificate → List NodeCertificate
add_node_certificate c certificates = record c { revoked_at = none } ∷ certificates
