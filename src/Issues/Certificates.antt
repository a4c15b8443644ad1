-- ===== src/Issues/Certificates.antt =====
-- The part of `build` of master/src/issues.rs that looks at the certificates of a node, and the whole
-- of it.
use text.Mathlib.Text.{◌==◌ as str_eq}
use honey.Prelude.{
  ℕ, ◌+◌, String, Bool, not, ◌&&◌, Option, none, some, List, [], ◌∷◌, ◌++◌, leb, ltb, max,
  if◌then◌else◌, filter,
}
use honey.Prelude.Sort.{sort_by}
use honey.Issues.Health.{
  Issue, critical, warning, NodeHealth, CertificateHealth, HealthSnapshot, cert_expiry_window,
}
use honey.Issues.Build.{
  issue_id, concat_map, abuse_issues, node_labels, node_issues, inbound_issues,
}
use honey.Issues.Verdicts.{domain_issues, user_issues}

abbrev pub inventory_of : String → List CertificateHealth → List CertificateHealth
inventory_of node_id certificates =
    filter (λ (c : CertificateHealth). str_eq c.node_id node_id) certificates

abbrev pub is_usable : ℕ → CertificateHealth → Bool
is_usable now c = not c.revoked && leb c.not_before now && ltb now c.not_after

abbrev pub ends_first : CertificateHealth → CertificateHealth → Bool
ends_first a b = leb a.not_after b.not_after

-- `Iterator::max`
unfoldable pub latest_issue : List CertificateHealth → Option ℕ
latest_issue [] = none
latest_issue (c ∷ []) = some c.issued_at
latest_issue (c ∷ d ∷ cs) = later c.issued_at (latest_issue (d ∷ cs))
  where
    later : ℕ → Option ℕ → Option ℕ
    later n none = some n
    later n (some m) = some (max n m)

-- What the sorted list of the active certificates says.
unfoldable pub judge_active :
    ℕ → NodeHealth → List CertificateHealth → List CertificateHealth → List Issue
unfolding latest_issue
judge_active now node inventory [] =
    record {
      id = issue_id "node" node.id "certificate-unusable";
      severity = critical;
      code = "M0810";
      kind = "certificate";
      title = "Node has no usable agent certificate";
      message = "All enrolled certificates are revoked, expired, or not yet valid.";
      entity_type = "node";
      entity_id = node.id;
      entity_label = node.name;
      labels = node.labels;
      node_id = some node.id;
      action = none;
      detected_at = latest_issue inventory;
    }
    ∷ []
judge_active now node inventory (first ∷ others) =
    if leb first.not_after (now + cert_expiry_window)
    then record {
      id = issue_id "node" node.id "certificate-expiring";
      severity = warning;
      code = "M0810";
      kind = "certificate";
      title = "Agent certificate expires soon";
      message = "The next active agent certificate expires within fourteen days.";
      entity_type = "node";
      entity_id = node.id;
      entity_label = node.name;
      labels = node.labels;
      node_id = some node.id;
      action = none;
      detected_at = some first.not_after;
    }
      ∷ []
    else []

-- A node with no certificate at all is skipped.
unfoldable pub judge_inventory : ℕ → NodeHealth → List CertificateHealth → List Issue
unfolding judge_active sort_by
judge_inventory now node [] = []
judge_inventory now node (c ∷ cs) =
    judge_active now node (c ∷ cs) (sort_by ends_first (filter (is_usable now) (c ∷ cs)))

unfoldable pub certificate_issues : ℕ → List CertificateHealth → NodeHealth → List Issue
unfolding judge_inventory
certificate_issues now certificates node =
    judge_inventory now node (inventory_of node.id certificates)

-- The issues in the order in which `build` pushes them.
unfoldable pub build : HealthSnapshot → ℕ → List Issue
unfolding abuse_issues node_labels node_issues inbound_issues domain_issues user_issues
    certificate_issues
build snapshot now =
    let by_node = node_labels snapshot.nodes in
    let enabled = filter (λ (n : NodeHealth). n.enabled) snapshot.nodes in
    abuse_issues snapshot.subscription_abuse_count snapshot.subscription_abuse_last_seen
    ++ (concat_map (node_issues now) enabled
        ++ (concat_map (inbound_issues by_node) snapshot.inbounds
            ++ (concat_map (domain_issues now by_node) snapshot.domains
                ++ (concat_map (user_issues now) snapshot.users
                    ++ concat_map (certificate_issues now snapshot.certificates) enabled))))
