-- ===== src/Issues/Build.antt =====
-- `build` of master/src/issues.rs, one function for each kind of row. A node's certificates are
-- looked at after the users, as there.
use text.Mathlib.Text.{◌==◌ as str_eq}
use Prim.Native.String.{◌++◌}
use honey.Prelude.{
  ℕ, ◌+◌, String, Bool, true, false, not, ◌&&◌, Option, none, some, List, [], ◌∷◌, ◌++◌ as append,
  leb, ltb, if◌then◌else◌, is_none_or, is_some_and, and_then, map,
}
use honey.Prelude.Keys.{string_eq, Map, get}
use honey.Prelude.Sort.{str_le, sort_by, dedup_by}
use honey.Prelude.Decimal.{decimal}
use honey.Api.{ℤ, pos, negsuc}
use honey.Issues.Health.{Issue, critical, warning, NodeHealth, InboundHealth, node_online_window}

-- `seen <= now - window`
abbrev pub is_stale : ℕ → ℕ → Bool
is_stale now seen = leb (seen + node_online_window) now

abbrev pub issue_id : String → String → String → String
issue_id kind id what = kind ++ ":" ++ id ++ ":" ++ what

-- `Option::or`
abbrev or_else {ℓ} : {A : Type ℓ} → Option A → Option A → Option A
or_else none other = other
or_else (some a) other = some a

abbrev pub concat_map {ℓ κ} : {A : Type ℓ} {B : Type κ} → (A → List B) → List A → List B
concat_map f [] = []
concat_map f (x ∷ xs) = append (f x) (concat_map f xs)

abbrev pub is_positive : ℤ → Bool
is_positive (pos n) = ltb 0 n
is_positive (negsuc n) = false

-- `a >= b`
abbrev pub at_least : ℤ → ℤ → Bool
at_least (pos a) (pos b) = leb b a
at_least (pos a) (negsuc b) = true
at_least (negsuc a) (pos b) = false
at_least (negsuc a) (negsuc b) = leb a b

-- `Display` of an i64
abbrev shown : ℤ → String
shown (pos n) = decimal n
shown (negsuc n) = "-" ++ decimal (n + 1)

unfoldable pub abuse_issues : ℤ → Option ℕ → List Issue
abuse_issues count last_seen =
    if is_positive count
    then record {
      id = "system:subscription-abuse";
      severity = warning;
      code = "M1701";
      kind = "subscription";
      title = "Subscription requests are being rate limited";
      message =
          "The public subscription guard blocked "
          ++ shown count
          ++ " request(s) during the last 30 minutes.";
      entity_type = "system";
      entity_id = "00000000-0000-0000-0000-000000000000";
      entity_label = "subscription guard";
      labels = [];
      node_id = none;
      action = none;
      detected_at = last_seen;
    }
      ∷ []
    else []

-- The map from a node to its labels. A node's identifier is the key of its table.
unfoldable pub node_labels : List NodeHealth → Map String (List String)
node_labels nodes = map (λ (n : NodeHealth). (n.id, n.labels)) nodes

abbrev extended : List String → Option (List String) → List String
extended own none = own
extended own (some inherited) = append own inherited

unfoldable pub labels_for : Map String (List String) → List String → Option String → List String
unfolding get sort_by dedup_by
labels_for by_node own node_id =
    let inherited = and_then node_id (λ (id : String). get id by_node) in
    dedup_by str_eq (sort_by str_le (extended own inherited))

unfoldable pub offline_issues : ℕ → NodeHealth → List Issue
offline_issues now node =
    if is_none_or node.last_seen (is_stale now)
    then record {
      id = issue_id "node" node.id "offline";
      severity = critical;
      code = "M0409";
      kind = "node";
      title = "Node is offline";
      message = "The enabled node has not reported within the last two minutes.";
      entity_type = "node";
      entity_id = node.id;
      entity_label = node.name;
      labels = node.labels;
      node_id = some node.id;
      action = none;
      detected_at = or_else node.last_seen (some node.created_at);
    }
      ∷ []
    else []

unfoldable pub push_issues : NodeHealth → List Issue
push_issues node =
    if is_some_and node.last_push_status (str_eq "failed")
    then record {
      id = issue_id "node" node.id "push-failed";
      severity = critical;
      code = "M0406";
      kind = "push";
      title = "Last configuration push failed";
      message = "The node did not apply its most recent desired configuration.";
      entity_type = "node";
      entity_id = node.id;
      entity_label = node.name;
      labels = node.labels;
      node_id = some node.id;
      action = some "retry_push";
      detected_at = node.last_push_at;
    }
      ∷ []
    else []

unfoldable pub node_issues : ℕ → NodeHealth → List Issue
node_issues now node = append (offline_issues now node) (push_issues node)

unfoldable pub inbound_issues : Map String (List String) → InboundHealth → List Issue
inbound_issues by_node inbound =
    if inbound.enabled && is_some_and inbound.reachable not
    then record {
      id = issue_id "inbound" inbound.id "unreachable";
      severity = warning;
      code = "M1501";
      kind = "inbound";
      title = "Inbound is unreachable";
      message = "The latest reachability probe could not connect to this enabled inbound.";
      entity_type = "inbound";
      entity_id = inbound.id;
      entity_label = inbound.tag;
      labels = labels_for by_node inbound.labels (some inbound.node_id);
      node_id = some inbound.node_id;
      action = some "probe_inbound";
      detected_at = inbound.checked_at;
    }
      ∷ []
    else []
