-- ===== src/Spec/Preview.antt =====
-- `summarize` and `preview` of master/src/spec.rs. The hash of the encoded message and the reading of
-- a stored summary are arguments. A `BTreeMap` from tags to summaries is the list of its values in
-- the order of their tags: the key of an entry is its tag.
use text.Mathlib.Text.{◌==◌ as str_eq}
use honey.Prelude.{
  String, Bool, true, false, not, Option, none, some, List, [], ◌∷◌, ◌++◌, if◌then◌else◌, length,
  map, is_some, is_some_and, and_then, unwrap_or,
}
use honey.Prelude.Text.{is_empty}
use honey.Prelude.Sort.{str_le, sort_by, insert_by}
use honey.Api.Json.{Json}
use honey.Spec.Messages.{
  NodeSpec, WireInbound, Tls, Transport, InboundSummary, SpecSummary, ConfigPreview, summary_eq,
}

abbrev has_reality : Tls → Bool
has_reality t = is_some t.reality

abbrev security_of : Option Tls → String
security_of tls =
    if is_some_and tls has_reality
    then "reality"
    else if is_some_and tls (λ (t : Tls). t.enabled)
    then "tls"
    else "none"

abbrev named_network : Transport → Option String
named_network t = if is_empty t.network then none else some t.network

unfoldable pub summarize_inbound : WireInbound → InboundSummary
unfolding is_empty
summarize_inbound inbound = record {
  tag = inbound.tag;
  core = if is_empty inbound.core then "singbox" else inbound.core;
  protocol = inbound.kind;
  listen = inbound.listen;
  port = inbound.listen_port;
  network = unwrap_or (and_then inbound.transport named_network) "tcp";
  security = security_of inbound.tls;
  user_count = length inbound.users;
}

abbrev pub tag_le : InboundSummary → InboundSummary → Bool
tag_le a b = str_le a.tag b.tag

unfoldable pub summarize : NodeSpec → SpecSummary
unfolding summarize_inbound sort_by
summarize spec = record {
  version = 1;
  inbounds = sort_by tag_le (map summarize_inbound spec.inbounds);
}

unfoldable pub find : String → List InboundSummary → Option InboundSummary
find tag [] = none
find tag (i ∷ is) = let later = find tag is in if str_eq i.tag tag then some i else later

unfoldable pub replace : InboundSummary → List InboundSummary → List InboundSummary
replace x [] = []
replace x (i ∷ is) = let later = replace x is in if str_eq i.tag x.tag then x ∷ is else i ∷ later

-- `BTreeMap::insert`: the value of a key that is there is replaced, a new key goes to its place.
unfoldable pub put : InboundSummary → List InboundSummary → List InboundSummary
unfolding find replace insert_by
put x is = if is_some (find x.tag is) then replace x is else insert_by tag_le x is

unfoldable pub put_all : List InboundSummary → List InboundSummary → List InboundSummary
unfolding put
put_all [] tree = tree
put_all (i ∷ is) tree = put_all is (put i tree)

-- Collecting into a `BTreeMap`.
unfoldable pub by_tag : List InboundSummary → List InboundSummary
unfolding put_all
by_tag inbounds = put_all inbounds []

-- `BTreeSet::insert`
unfoldable pub set_insert : String → List String → List String
set_insert x [] = x ∷ []
set_insert x (y ∷ ys) =
    let later = set_insert x ys in
    if str_eq y x then y ∷ ys else if str_le x y then x ∷ y ∷ ys else y ∷ later

abbrev pub core_sets : List InboundSummary → List String → List String
core_sets [] cores = cores
core_sets (i ∷ is) cores = core_sets is (set_insert i.core cores)

pub record Diff : Type 0 where
  pub added : List InboundSummary
  pub removed : List InboundSummary
  pub modified : List InboundSummary
  pub restart_cores : List String

abbrev pub empty_diff : Diff
empty_diff = record { added = []; removed = []; modified = []; restart_cores = [] }

-- One round of the loop over the new inbounds, given what the old map has under the tag.
unfoldable pub visit_new : InboundSummary → Option InboundSummary → Diff → Diff
unfolding set_insert
visit_new inbound none d = record d {
  added = d.added ++ (inbound ∷ []);
  restart_cores = set_insert inbound.core d.restart_cores;
}
visit_new inbound (some prior) d = if summary_eq prior inbound then d else record d {
  modified = d.modified ++ (inbound ∷ []);
  restart_cores = set_insert inbound.core (set_insert prior.core d.restart_cores);
}

unfoldable pub visit_all_new : List InboundSummary → List InboundSummary → Diff → Diff
unfolding find visit_new
visit_all_new old [] d = d
visit_all_new old (i ∷ is) d = visit_all_new old is (visit_new i (find i.tag old) d)

unfoldable pub visit_old : InboundSummary → Bool → Diff → Diff
unfolding set_insert
visit_old inbound true d = d
visit_old inbound false d = record d {
  removed = d.removed ++ (inbound ∷ []);
  restart_cores = set_insert inbound.core d.restart_cores;
}

unfoldable pub visit_all_old : List InboundSummary → List InboundSummary → Diff → Diff
unfolding find visit_old
visit_all_old new [] d = d
visit_all_old new (i ∷ is) d = visit_all_old new is (visit_old i (is_some (find i.tag new)) d)

-- The branch with a baseline.
unfoldable pub diff : List InboundSummary → List InboundSummary → Diff
unfolding visit_all_new visit_all_old
diff old new = visit_all_old new old (visit_all_new old new empty_diff)

-- The branch without.
abbrev first_diff : Bool → List InboundSummary → Diff
first_diff true inbounds = empty_diff
first_diff false inbounds = record empty_diff {
  added = inbounds;
  restart_cores = core_sets inbounds [];
}

abbrev diff_from : Option SpecSummary → Bool → SpecSummary → Diff
diff_from (some previous) same desired = diff (by_tag previous.inbounds) (by_tag desired.inbounds)
diff_from none same desired = first_diff same desired.inbounds

module _ (spec_hash : NodeSpec → String) (from_value : Json → Option SpecSummary) where
  unfoldable pub preview : NodeSpec → Option String → Option Json → ConfigPreview
  unfolding summarize diff by_tag set_insert
  preview spec applied_hash applied_summary =
      let desired_hash = spec_hash spec in
      let previous = and_then applied_summary from_value in
      let same = is_some_and applied_hash (str_eq desired_hash) in
      let d = diff_from previous same (summarize spec) in
      record {
        desired_hash = desired_hash;
        applied_hash = applied_hash;
        changed = not same;
        baseline_available = is_some previous;
        added = d.added;
        removed = d.removed;
        modified = d.modified;
        restart_cores = d.restart_cores;
      }
