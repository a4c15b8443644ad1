-- ===== src/Witness/Specs.antt =====
-- A node whose applied specification had one inbound more, and a stored inbound that cannot be built.
use text.Mathlib.Text.{◌==◌ as str_eq}
use honey.Prelude.{
  ℕ, String, ◌||◌, ◌&&◌, Option, none, some, List, [], ◌∷◌, ◌++◌, any, is_some, ◌≡◌, refl,
}
use honey.Api.{pos, IsAccepted}
use honey.Api.Json.{Json, null}
use honey.Inbound.{Inbound, NewInbound}
use honey.Inbound.Store.{create_inbound}
use honey.Inbound.Validate.Requests.{validate_inbound}
use honey.Inbound.Security.{created}
use honey.Spec.Messages.{NodeSpec, WireInbound, InboundSummary, SpecSummary}
use honey.Spec.Build.{ChainUser, build_inbound, build_inbounds, upstream_outbound}
use honey.Spec.Preview.{find, by_tag, summarize, preview}
use honey.Spec.Changes.{if_absent, if_other}
use honey.Spec.Restarts.{has_core, had_core, preview_exact, restart_cores_exact}
use honey.Spec.Served.{has_good_handshake, build_inbound_iff, unbuildable_created}
use honey.Witness.Inbounds.{drawn, reality_input, reality_input-IsAccepted}

abbrev wired : String → WireInbound
wired tag = record {
  core = "xray";
  tag = tag;
  kind = "vless";
  listen = "::";
  listen_port = 443;
  users = [];
  tls = none;
  extra_json = "";
  transport = none;
  up_mbps = 0;
  down_mbps = 0;
  upstream_outbound_json = "";
}

abbrev spec : NodeSpec
spec = record {
  log_level = "info";
  clash_listen = "127.0.0.1:9090";
  clash_secret = "";
  inbounds = wired "b" ∷ wired "a" ∷ [];
  wireguard = [];
  services = [];
}

abbrev old_inbound : String → InboundSummary
old_inbound tag = record {
  tag = tag;
  core = "singbox";
  protocol = "vless";
  listen = "::";
  port = 443;
  network = "tcp";
  security = "none";
  user_count = 0;
}

abbrev previous : SpecSummary
previous = record { version = 1; inbounds = old_inbound "a" ∷ old_inbound "z" ∷ [] }

abbrev hash : NodeSpec → String
hash s = "h"

abbrev read_json : Json → Option SpecSummary
read_json j = some previous

preview_exact_example :
    let p = preview hash read_json spec none (some null) in
    let old = by_tag previous.inbounds in
    let new = by_tag (summarize spec).inbounds in
    (find "a" p.added ≡ if_absent (find "a" old) (find "a" new))
    × (find "a" p.removed ≡ if_absent (find "a" new) (find "a" old))
    × (find "a" p.modified ≡ if_other (find "a" old) (find "a" new))
preview_exact_example = preview_exact hash read_json spec none null previous refl "a"

restart_cores_exact_example :
    let p = preview hash read_json spec none (some null) in
    any (str_eq "singbox") p.restart_cores ≡ (
      has_core "singbox" p.added
      || has_core "singbox" p.removed
      || has_core "singbox" p.modified
      || had_core "singbox" (by_tag previous.inbounds) p.modified)
restart_cores_exact_example =
    restart_cores_exact hash read_json spec none null previous refl "singbox"

abbrev text_of : Json → String
text_of j = "{}"

abbrev no_chain : ℕ → List ChainUser
no_chain id = []

abbrev no_exit : Inbound → ℕ → Option String
no_exit ib exit = none

build_inbound_iff_example :
    is_some (build_inbound text_of 0 [] no_chain no_exit (create_inbound drawn reality_input)) ≡ (
      is_some (
        upstream_outbound text_of 0 [] no_chain no_exit
          (create_inbound drawn reality_input)
          (create_inbound drawn reality_input).upstream_inbound_id)
      && has_good_handshake (create_inbound drawn reality_input))
build_inbound_iff_example =
    build_inbound_iff text_of 0 [] no_chain no_exit (create_inbound drawn reality_input)
      (created drawn reality_input reality_input-IsAccepted)

abbrev port_zero : NewInbound
port_zero = record reality_input { reality_handshake_port = some (pos 0) }

unbuildable_created_example :
    IsAccepted (validate_inbound port_zero)
    × (build_inbounds text_of 0 [] no_chain no_exit ([] ++ create_inbound drawn port_zero ∷ [])
        ≡ none)
unbuildable_created_example =
    unbuildable_created text_of 0 [] no_chain no_exit drawn reality_input (pos 0) [] []
      reality_input-IsAccepted refl refl
