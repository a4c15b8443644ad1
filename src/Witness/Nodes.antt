-- ===== src/Witness/Nodes.antt =====
-- Pushes to one node.
use honey.Prelude.{none, some, [], ◌∷◌, ◌≡◌, refl}
use honey.Prelude.Keys.{nat_eq, get, insert, remove}
use honey.Registry.{
  Registry, NodeRow, Desired, applied, rejected, done, unchanged, push_with_context, reconcile_push,
  start_node_push, finish_node_push, apply,
}
use honey.Registry.Pushes.{pushed_then_unchanged}

abbrev node : NodeRow
node = record {
  desired_spec_hash = none;
  applied_spec_hash = some "old";
  applied_spec_summary = none;
  applied_at = none;
  last_push_at = none;
  last_push_status = none;
  last_push_message = none;
}

abbrev registry : Registry
registry = record {
  conns = (1, 0) ∷ [];
  deferred_pushes = [];
  nodes = (1, node) ∷ [];
  events = [];
  next_event = 1;
}

abbrev desired : Desired
desired = record { hash = "new"; summary = "s" }

node_found : get 1 registry.nodes ≡ some node
unfolding get
node_found = refl

accepted :
    (push_with_context 5 1 "manual" none (some desired) (applied "ok") registry).0 ≡ done "ok"
unfolding push_with_context start_node_push apply finish_node_push get insert remove
accepted = refl

pushed_then_unchanged_example :
    reconcile_push 6 1
      (some desired)
      rejected
      (push_with_context 5 1 "manual" none (some desired) (applied "ok") registry).1
    ≡ (
      done unchanged,
      (push_with_context 5 1 "manual" none (some desired) (applied "ok") registry).1,
    )
pushed_then_unchanged_example =
    pushed_then_unchanged 5 6 1 "manual" "ok" none desired (applied "ok") rejected registry node
      node_found accepted
