-- ===== src/Fleet/Enrollment.antt =====
-- The enrollment of a node, `claim_enrollment`, `revoke_enrollment` and `revoke_certificate` of
-- master/src/api/mod.rs. The hash of a token, the issuing of a certificate and the name that a node's
-- certificate gets are arguments; the audit log is left out.
use honey.Prelude.{
  ℕ, String, Bool, true, not, ◌||◌, Option, none, some, List, ltb, leb, ==_iff, if◌then◌else◌,
  length, ◌≡◌, refl, arith,
}
use honey.Prelude.Keys.{nat_eq, Map, get, insert, remove}
use honey.Prelude.Text.{eq_ignore_ascii_case}
use honey.Api.{Checked, err, ok, Check, require_not, not_found, ApiError}
use honey.Audit.{as_bytes}
use honey.Fleet.{
  Node, Nodes, EnrollmentToken, claim_enrollment_token, revoke_enrollment_token, NodeCertificate,
  add_node_certificate, revoke_node_certificate, authorize_node_certificate, authorize_certificate,
}

pub record Issued : Type 0 where
  pub fingerprint_sha256 : String
  pub not_before : ℕ
  pub not_after : ℕ

pub record Inventory : Type 0 where
  pub nodes : Nodes
  pub tokens : List EnrollmentToken
  pub certificates : List NodeCertificate
  pub conns : Map ℕ ℕ

abbrev issuance_failed : ApiError
issuance_failed = record { status = 500; code = "M1202"; message = "internal server error" }

module _ (token_hash : String → String) (issue : ℕ → String → Option Issued) (tls_name : ℕ → String)
    (fresh now : ℕ) where
  abbrev certificate_of : ℕ → Issued → NodeCertificate
  certificate_of id i = record {
    id = fresh;
    node_id = id;
    fingerprint_sha256 = i.fingerprint_sha256;
    not_before = i.not_before;
    not_after = i.not_after;
    revoked_at = none;
  }

  abbrev issued_to : ℕ → Node → Option Issued → Inventory → Checked ℕ × Inventory
  issued_to id node none s = (err issuance_failed, s)
  issued_to id node (some i) s = (
    ok id,
    record s {
      certificates = add_node_certificate (certificate_of id i) s.certificates;
      nodes = insert id (record node { tls_server_name = tls_name id }) s.nodes;
    },
  )

  abbrev for_node : ℕ → String → Option Node → Inventory → Checked ℕ × Inventory
  for_node id csr none s = (err (not_found "node not found"), s)
  for_node id csr (some node) s = issued_to id node (issue id csr) s

  -- The token is claimed before anything else can fail.
  abbrev with_claim : String → Option ℕ × List EnrollmentToken → Inventory → Checked ℕ × Inventory
  with_claim csr (none, tokens) s = (
    err (not_found "enrollment token is invalid, expired, or already used"),
    record s { tokens = tokens },
  )
  with_claim csr (some id, tokens) s =
      for_node id csr (get id s.nodes) (record s { tokens = tokens })

  abbrev is_out_of_length : String → Bool
  is_out_of_length token = ltb (length (as_bytes token)) 32 || ltb 128 (length (as_bytes token))

  unfoldable pub claim_enrollment : String → String → Inventory → Checked ℕ × Inventory
  claim_enrollment token csr s =
      if is_out_of_length token
      then (err (not_found "enrollment token not found"), s)
      else with_claim csr (claim_enrollment_token (token_hash token) now s.tokens) s

-- `revoke_enrollment`
unfoldable pub revoke_enrollment : ℕ → ℕ → Inventory → Check × Inventory
revoke_enrollment id now s =
    let r = revoke_enrollment_token id now s.tokens in
    (require_not (not r.0) "active enrollment token not found", record s { tokens = r.1 })

abbrev evicted : Option ℕ × List NodeCertificate → Inventory → Checked ℕ × Inventory
evicted (none, certificates) s =
    (err (not_found "active certificate not found"), record s { certificates = certificates })
evicted (some node, certificates) s =
    (ok node, record s { certificates = certificates; conns = remove node s.conns })

-- The channel is closed, so that the next call has to pass the inventory.
unfoldable pub revoke_node : ℕ → ℕ → Inventory → Checked ℕ × Inventory
revoke_node id now s = evicted (revoke_node_certificate id now s.certificates) s

eq_ignore_ascii_case_refl : (s : String) → eq_ignore_ascii_case s s ≡ true
unfolding eq_ignore_ascii_case
eq_ignore_ascii_case_refl String.[] = refl
eq_ignore_ascii_case_refl (String.◌∷◌ c s) = ground (arith, eq_ignore_ascii_case_refl s)

-- A certificate that was just enrolled is authorized for as long as it is valid.
first-authorized :
    (c : NodeCertificate) (cs : List NodeCertificate) (now : ℕ)
    → leb c.not_before now ≡ true
    → ltb now c.not_after ≡ true
    → authorize_certificate c.node_id c.fingerprint_sha256 now (add_node_certificate c cs) ≡ true
unfolding authorize_certificate authorize_node_certificate add_node_certificate
first-authorized c cs now h k =
    ground (arith, h, k, eq_ignore_ascii_case_refl c.fingerprint_sha256, ==_iff c.node_id c.node_id)
