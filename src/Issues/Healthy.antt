-- ===== src/Issues/Healthy.antt =====
-- When the health cockpit of master/src/issues.rs is empty.
use text.Mathlib.Text.{◌==◌ as str_eq}
use honey.Prelude.{
  ℕ, ◌+◌, Bool, true, false, not, ◌&&◌, ◌||◌, List, [], ◌∷◌, ◌++◌, leb, ltb, filter, all, any,
  is_some_and, is_some, ◌≡◌, ◌∙◌, refl, arith, Option,
}
use honey.Prelude.Sort.{
  sort_by, dedup_by, insert_by, is_sorted, sort_by-is_sorted, all-sort_by, all-is_sorted,
}
use honey.Issues.Health.{
  NodeHealth, InboundHealth, DomainHealth, UserHealth, CertificateHealth, HealthSnapshot,
  node_online_window, cert_expiry_window,
}
use honey.Issues.Build.{
  concat_map, is_positive, at_least, abuse_issues, offline_issues, push_issues, node_issues,
  inbound_issues, node_labels,
}
use honey.Issues.Verdicts.{judge_domain, domain_issues, judge_suppression, user_issues}
use honey.Issues.Certificates.{
  inventory_of, is_usable, ends_first, judge_active, judge_inventory, certificate_issues, build,
}
use honey.Issues.Response.{listed, new_response, collect, stands_before, same_id}

abbrev pub is_nil {ℓ} : {A : Type ℓ} → List A → Bool
is_nil [] = true
is_nil (x ∷ xs) = false

-- Seen within the last two minutes, and no failed push.
abbrev pub is_node_healthy : ℕ → NodeHealth → Bool
is_node_healthy now node =
    is_some_and node.last_seen (λ (seen : ℕ). ltb now (seen + node_online_window))
    && not (is_some_and node.last_push_status (str_eq "failed"))

-- No certificate at all; or one that is active, and none of those ends within fourteen days.
abbrev pub is_inventory_healthy : ℕ → List CertificateHealth → Bool
is_inventory_healthy now inventory =
    is_nil inventory
    || any (is_usable now) inventory
      && all
          (λ (c : CertificateHealth).
            not (is_usable now c) || ltb (now + cert_expiry_window) c.not_after)
          inventory

abbrev pub is_inbound_healthy : InboundHealth → Bool
is_inbound_healthy inbound = not inbound.enabled || not (is_some_and inbound.reachable not)

abbrev pub is_domain_healthy : ℕ → DomainHealth → Bool
is_domain_healthy now domain =
    is_some domain.checked_at
    && domain.dns_ok
    && domain.reachable
    && domain.cert_ok
    && not (is_some_and domain.cert_not_after (λ (end : ℕ). leb end (now + cert_expiry_window)))

abbrev pub is_user_healthy : ℕ → UserHealth → Bool
is_user_healthy now user =
    user.enabled
    && not (is_some_and user.expires_at (λ (end : ℕ). leb end now))
    && not (is_positive user.traffic_limit && at_least user.traffic_used user.traffic_limit)

abbrev pub is_healthy : HealthSnapshot → ℕ → Bool
is_healthy s now =
    not (is_positive s.subscription_abuse_count)
    && all (λ (n : NodeHealth). not n.enabled || is_node_healthy now n) s.nodes
    && all is_inbound_healthy s.inbounds
    && all (is_domain_healthy now) s.domains
    && all (is_user_healthy now) s.users
    && all
        (λ (n : NodeHealth).
          not n.enabled || is_inventory_healthy now (inventory_of n.id s.certificates))
        s.nodes

module _ {ℓ} {A : Type ℓ} where
  is_nil-append : (xs ys : List A) → is_nil (xs ++ ys) ≡ (is_nil xs && is_nil ys)
  is_nil-append [] ys = refl
  is_nil-append (x ∷ xs) ys = refl

  is_nil-insert_by : (le : A → A → Bool) (x : A) (ys : List A) → is_nil (insert_by le x ys) ≡ false
  unfolding insert_by
  is_nil-insert_by le x [] = refl
  is_nil-insert_by le x (y ∷ ys) = ground arith

  is_nil-sort_by : (le : A → A → Bool) (xs : List A) → is_nil (sort_by le xs) ≡ is_nil xs
  unfolding sort_by
  is_nil-sort_by le [] = refl
  is_nil-sort_by le (x ∷ xs) = is_nil-insert_by le x (sort_by le xs)

  is_nil-dedup_by : (same : A → A → Bool) (xs : List A) → is_nil (dedup_by same xs) ≡ is_nil xs
  unfolding dedup_by
  is_nil-dedup_by same [] = refl
  is_nil-dedup_by same (x ∷ xs) = refl

  is_nil-filter : (p : A → Bool) (xs : List A) → is_nil (filter p xs) ≡ not (any p xs)
  is_nil-filter p [] = refl
  is_nil-filter p (x ∷ xs) = ground (arith, is_nil-filter p xs)

  all-filter :
      (p q : A → Bool) (xs : List A) → all q (filter p xs) ≡ all (λ (x : A). not (p x) || q x) xs
  all-filter p q [] = refl
  all-filter p q (x ∷ xs) = ground (arith, all-filter p q xs)

-- A kind of row gives no issue exactly when each of its rows is healthy.
module _ {ℓ κ} {A : Type ℓ} {B : Type κ} (f : A → List B) (healthy : A → Bool)
    (exact : (x : A) → is_nil (f x) ≡ healthy x) where
  is_nil-concat_map : (xs : List A) → is_nil (concat_map f xs) ≡ all healthy xs
  is_nil-concat_map [] = refl
  is_nil-concat_map (x ∷ xs) =
      ground (arith, is_nil-append (f x) (concat_map f xs), exact x, is_nil-concat_map xs)

  is_nil-concat_map-filter :
      (p : A → Bool) (xs : List A)
      → is_nil (concat_map f (filter p xs)) ≡ all (λ (x : A). not (p x) || healthy x) xs
  is_nil-concat_map-filter p xs = is_nil-concat_map (filter p xs) ∙ all-filter p healthy xs

is_nil-node_issues : (now : ℕ) (n : NodeHealth) → is_nil (node_issues now n) ≡ is_node_healthy now n
unfolding node_issues offline_issues push_issues
is_nil-node_issues now n = ground arith

is_nil-inbound_issues :
    (by_node : _) (i : InboundHealth) → is_nil (inbound_issues by_node i) ≡ is_inbound_healthy i
unfolding inbound_issues
is_nil-inbound_issues by_node i = ground arith

is_nil-domain_issues :
    (now : ℕ) (by_node : _) (d : DomainHealth)
    → is_nil (domain_issues now by_node d) ≡ is_domain_healthy now d
unfolding domain_issues judge_domain
is_nil-domain_issues now by_node d = ground arith

is_nil-user_issues : (now : ℕ) (u : UserHealth) → is_nil (user_issues now u) ≡ is_user_healthy now u
unfolding user_issues judge_suppression
is_nil-user_issues now u = ground arith

abbrev is_far : ℕ → CertificateHealth → Bool
is_far now c = ltb (now + cert_expiry_window) c.not_after

is_far_up :
    (now : ℕ) (a b : CertificateHealth)
    → ends_first a b ≡ true
    → is_far now a ≡ true
    → is_far now b ≡ true
is_far_up now a b h k = ground arith

ends_first_total : (a b : CertificateHealth) → ends_first a b ≡ false → ends_first b a ≡ true
ends_first_total a b h = ground arith

-- The first of the sorted active certificates speaks for all of them.
is_nil-judge_active :
    (now : ℕ) (n : NodeHealth) (inventory active : List CertificateHealth)
    → is_sorted ends_first active ≡ true
    → is_nil (judge_active now n inventory active)
      ≡ (not (is_nil active) && all (is_far now) active)
unfolding judge_active
is_nil-judge_active now n inventory [] h = refl
is_nil-judge_active now n inventory (c ∷ cs) h =
    ground (arith, all-is_sorted ends_first (is_far now) (is_far_up now) c cs h)

is_nil-judge_inventory :
    (now : ℕ) (n : NodeHealth) (inventory : List CertificateHealth)
    → is_nil (judge_inventory now n inventory) ≡ is_inventory_healthy now inventory
unfolding judge_inventory
is_nil-judge_inventory now n [] = refl
is_nil-judge_inventory now n (c ∷ cs) =
    let active = filter (is_usable now) (c ∷ cs) in
    ground (
      arith,
      is_nil-judge_active now n (c ∷ cs) (sort_by ends_first active)
          (sort_by-is_sorted ends_first ends_first_total active),
      is_nil-sort_by ends_first active,
      all-sort_by ends_first (is_far now) active,
      is_nil-filter (is_usable now) (c ∷ cs),
      all-filter (is_usable now) (is_far now) (c ∷ cs),
    )

is_nil-certificate_issues :
    (now : ℕ) (certificates : List CertificateHealth) (n : NodeHealth)
    → is_nil (certificate_issues now certificates n)
      ≡ is_inventory_healthy now (inventory_of n.id certificates)
unfolding certificate_issues
is_nil-certificate_issues now certificates n =
    is_nil-judge_inventory now n (inventory_of n.id certificates)

is_nil-abuse_issues :
    (count : _) (seen : Option ℕ) → is_nil (abuse_issues count seen) ≡ not (is_positive count)
unfolding abuse_issues
is_nil-abuse_issues count seen = ground arith

is_nil_six {ℓ} :
    {A : Type ℓ} (a b c d e f : List A) (p q r s t u : Bool)
    → is_nil a ≡ p
    → is_nil b ≡ q
    → is_nil c ≡ r
    → is_nil d ≡ s
    → is_nil e ≡ t
    → is_nil f ≡ u
    → is_nil (a ++ (b ++ (c ++ (d ++ (e ++ f))))) ≡ (p && q && r && s && t && u)
is_nil_six a b c d e f p q r s t u h i j k l m = ground (
  arith,
  is_nil-append a (b ++ (c ++ (d ++ (e ++ f)))),
  is_nil-append b (c ++ (d ++ (e ++ f))),
  is_nil-append c (d ++ (e ++ f)),
  is_nil-append d (e ++ f),
  is_nil-append e f,
)

is_nil-build : (s : HealthSnapshot) (now : ℕ) → is_nil (build s now) ≡ is_healthy s now
unfolding build
is_nil-build s now =
    let by_node = node_labels s.nodes in
    let is_enabled = λ (n : NodeHealth). n.enabled in
    is_nil_six _ _ _ _ _ _ _ _ _ _ _ _
      (is_nil-abuse_issues s.subscription_abuse_count s.subscription_abuse_last_seen)
      (is_nil-concat_map-filter (node_issues now) (is_node_healthy now) (is_nil-node_issues now)
        is_enabled s.nodes)
      (is_nil-concat_map (inbound_issues by_node) is_inbound_healthy (is_nil-inbound_issues by_node)
        s.inbounds)
      (is_nil-concat_map (domain_issues now by_node) (is_domain_healthy now)
        (is_nil-domain_issues now by_node) s.domains)
      (is_nil-concat_map (user_issues now) (is_user_healthy now) (is_nil-user_issues now) s.users)
      (is_nil-concat_map-filter (certificate_issues now s.certificates)
        (λ (n : NodeHealth). is_inventory_healthy now (inventory_of n.id s.certificates))
        (is_nil-certificate_issues now s.certificates) is_enabled s.nodes)

-- The cockpit is empty exactly when nothing is wrong: no request was blocked; every enabled node was
-- seen within the last two minutes and its last push did not fail; no enabled inbound was found
-- unreachable; every domain was checked, resolves, is reachable and has a valid certificate that
-- lasts fourteen days more; every user is enabled, unexpired and below its quota; and of every
-- enabled node that has certificates at least one is active and all active ones last fourteen days
-- more.
pub collect_empty_iff :
    (s : HealthSnapshot) (now : ℕ) → is_nil (collect s now).issues ≡ is_healthy s now
unfolding collect new_response listed
collect_empty_iff s now =
    is_nil-dedup_by same_id (sort_by stands_before (build s now))
    ∙ (is_nil-sort_by stands_before (build s now) ∙ is_nil-build s now)
