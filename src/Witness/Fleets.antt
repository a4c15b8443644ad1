-- ===== src/Witness/Fleets.antt =====
-- A node, its enrollment token and its certificates.
use honey.Prelude.{ℕ, String, true, false, none, some, List, [], ◌∷◌, ◌≡◌, refl}
use honey.Prelude.Keys.{nat_eq, insert}
use honey.Prelude.Text.{one_of, trim, trim_start, trim_end, is_empty, eq_ignore_ascii_case}
use honey.Api.{ok, pos}
use honey.Fleet.{
  NewNode, Nodes, created_node, validate_node, validate_name_address_port_transport, create_node,
  EnrollmentToken, claim_enrollment_token, NodeCertificate, authorize_certificate,
  revoke_node_certificate,
}
use honey.Registry.{rejected}
use honey.Reconcile.{Fleet, World}
use honey.Fleet.Valid.{empty, created, AllWellFormed, Stored-AllWellFormed}
use honey.Fleet.Revocation.{
  TokenOp, issue, revoke, run_tokens, claimed_once, CertificateOp, enroll, run_certificates,
  revoked_refused,
}

abbrev new_node : NewNode
new_node = record {
  name = "a";
  address = "10.0.0.1";
  tls_server_name = "a.example";
  grpc_port = pos 8443;
  transport = "dial";
  monthly_cost_cents = pos 0;
}

abbrev one_node : Nodes
one_node = insert 1 (created_node new_node) []

node_created : create_node 1 new_node [] ≡ ok one_node
unfolding create_node validate_node validate_name_address_port_transport trim trim_start trim_end
    is_empty one_of insert
node_created = refl

Stored-AllWellFormed_example : AllWellFormed one_node
Stored-AllWellFormed_example =
    Stored-AllWellFormed one_node (created 1 new_node [] one_node (empty [] refl) node_created)

abbrev token : String → EnrollmentToken
token hash = record {
  id = 1;
  node_id = 1;
  token_hash = hash;
  created_by = none;
  expires_at = 100;
  claimed_at = none;
  revoked_at = none;
}

abbrev later_ops : List TokenOp
later_ops = issue (token "b") ∷ revoke 1 60 ∷ []

claimed_once_example :
    (claim_enrollment_token "a" 70
      (run_tokens later_ops (claim_enrollment_token "a" 50 (token "a" ∷ [])).1)).0
    ≡ none
claimed_once_example = claimed_once "a" 50 70 later_ops (token "a" ∷ []) refl refl

abbrev certificate : ℕ → String → NodeCertificate
certificate id print = record {
  id = id;
  node_id = 1;
  fingerprint_sha256 = print;
  not_before = 0;
  not_after = 100;
  revoked_at = none;
}

abbrev two_certificates : List NodeCertificate
two_certificates = certificate 1 "ab" ∷ certificate 2 "cd" ∷ []

abbrev third : List CertificateOp
third = enroll (certificate 3 "ef") ∷ []

revoked_refused_example :
    authorize_certificate 1 "AB" 60
      (run_certificates third (revoke_node_certificate 1 50 two_certificates).1)
    ≡ false
unfolding eq_ignore_ascii_case
revoked_refused_example = revoked_refused 1 "AB" 1 50 60 third two_certificates refl refl refl

-- A node at the address of which its agent answers.
abbrev world : World
world = record {
  dial = λ id. some (record { client = 9; fingerprint = "ab"; who = some id });
  pings = λ id. true;
  certificates = two_certificates;
  built = λ id. none;
  reply = λ id. rejected;
}

abbrev offline : Fleet
offline = record {
  registry = record { conns = []; deferred_pushes = []; nodes = []; events = []; next_event = 1 };
  last_seen = [];
  down = [];
}

abbrev dialled_nodes : Nodes
dialled_nodes = (1, record (created_node new_node) { transport = "serve" }) ∷ []
