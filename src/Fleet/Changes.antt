-- ===== src/Fleet/Changes.antt =====
-- Changes of nodes that are not checked: `revert_node` and the nodes of `config_apply` of
-- master/src/api/mod.rs. Of the latter, the counts, the pruning and the dry run are left out.
use honey.Prelude.{ℕ, String, Option, none, some, [], ◌∷◌, if◌then◌else◌}
use honey.Prelude.Text.{trim, eq_ignore_ascii_case}
use honey.Prelude.Keys.{nat_eq, get, insert}
use honey.Api.{Checked}
use honey.Fleet.{Node, NewNode, UpdateNode, Nodes, created_node, updated_node, update_row}

-- The change that a snapshot of a node is read as.
unfoldable pub node_snapshot : Node → UpdateNode
node_snapshot old = record {
  name = some old.name;
  address = some old.address;
  tls_server_name = some old.tls_server_name;
  grpc_port = some old.grpc_port;
  transport = some old.transport;
  enabled = some old.enabled;
  extra_addresses = some old.extra_addresses;
  maintenance = some old.maintenance;
  monthly_cost_cents = some old.monthly_cost_cents;
}

-- `revert_node`, once the snapshot is found: it is written with no check.
unfoldable pub revert_node : ℕ → Node → Nodes → Checked Nodes
revert_node id old nodes = update_row id (node_snapshot old) nodes (get id nodes)

-- The part of `config_apply` on nodes. The first node of the name, letters' case aside, is changed, and
-- without one a new node is stored, with no check of either.
unfoldable pub node_named : String → Nodes → Option ℕ
unfolding trim eq_ignore_ascii_case
node_named name [] = none
node_named name ((id, node) ∷ rest) =
    let later = node_named name rest in
    if eq_ignore_ascii_case node.name (trim name) then some id else later

abbrev spec_update : NewNode → UpdateNode
spec_update spec = record {
  name = none;
  address = some spec.address;
  tls_server_name = some spec.tls_server_name;
  grpc_port = some spec.grpc_port;
  transport = some spec.transport;
  enabled = none;
  extra_addresses = none;
  maintenance = none;
  monthly_cost_cents = some spec.monthly_cost_cents;
}

abbrev rewritten : ℕ → UpdateNode → Nodes → Option Node → Nodes
rewritten id input nodes none = nodes
rewritten id input nodes (some row) = insert id (updated_node input row) nodes

abbrev pub apply_to : ℕ → NewNode → Nodes → Option ℕ → Nodes
apply_to fresh spec nodes none = insert fresh (created_node spec) nodes
apply_to fresh spec nodes (some id) = rewritten id (spec_update spec) nodes (get id nodes)

-- One node of the document; `existing` are the nodes from before.
unfoldable pub apply_node : Nodes → ℕ → NewNode → Nodes → Nodes
unfolding node_named
apply_node existing fresh spec nodes = apply_to fresh spec nodes (node_named spec.name existing)
