-- ===== src/Witness/Operations.antt =====
-- A snapshot with a silent node, alerts on it, a log, a release and a shared account.
use text.Mathlib.Text.{◌==◌ as str_eq}
use honey.Prelude.{
  ℕ, ◌+◌, ◌<◌, String, true, false, ◌||◌, ◌&&◌, Option, none, some, List, [], ◌∷◌, length, all, any,
  take, filter, min, ◌≡◌, ◌≢◌, refl, arith,
}
use mathlib.Core.List.{reverse}
use honey.Prelude.Sort.{is_sorted, is_deduplicated}
use honey.Prelude.Keys.{get, insert}
use honey.Api.{pos}
use honey.Issues.Health.{Issue, NodeHealth, HealthSnapshot}
use honey.Issues.Certificates.{build}
use honey.Issues.Response.{in_order, new_response, collect, has_id, new_response_order}
use honey.Issues.Healthy.{is_nil, is_healthy, collect_empty_iff}
use honey.Notify.{
  Alert, Alerts, alert, cut_alert, bounded, record_system_notification, record_found, latest,
}
use honey.Notify.Dedupe.{Call, dispatches, dispatched_once}
use honey.Monitor.{Limited, judge_user, ConnRef, ip_first, cut_devices, has_ip}
use honey.Monitor.Devices.{first_start, no_later, kept_devices, limit_kept}
use honey.Logs.{LogRecord, matches_filter, search, capacity}
use honey.Logs.Recent.{last, push_all, search_refines}
use honey.Prelude.Text.{
  trim, trim_start, trim_end, trim_start_matches, split_once, is_empty, contains, ends_with,
}
use honey.Prelude.Split.{to_lower, split_on, lines, drop_return, split_whitespace, split_spaces}
use honey.Prelude.Decimal.{parse_u64, read_digits}
use honey.Updates.{
  Release, parse_version, parse_raw, apply, installed, is_newer, pick_asset, is_checksum_asset,
  first_checksums, expected_hash, find_hash, verify,
}
use honey.Updates.Versions.{printed, parse_version-printed}
use honey.Updates.Verified.{IsVerified, installed-IsVerified}

abbrev silent : NodeHealth
silent = record {
  id = "n1";
  name = "warsaw";
  labels = [];
  enabled = true;
  last_seen = some 1000;
  last_push_at = none;
  last_push_status = some "failed";
  created_at = 0;
}

abbrev snapshot : HealthSnapshot
snapshot = record {
  nodes = silent ∷ [];
  inbounds = [];
  domains = [];
  users = [];
  certificates = [];
  subscription_abuse_count = pos 0;
  subscription_abuse_last_seen = none;
}

new_response_order_example :
    let r = new_response 5000 (build snapshot 5000) in
    (is_sorted in_order r.issues ≡ true)
    × (is_deduplicated (λ (x y : Issue). str_eq x.id y.id) r.issues ≡ true)
    × (r.counts.critical + r.counts.warning + r.counts.info ≡ r.counts.total)
    × (r.counts.total ≡ length r.issues)
    × ((id : String) → any (has_id id) r.issues ≡ any (has_id id) (build snapshot 5000))
new_response_order_example = new_response_order 5000 (build snapshot 5000)

collect_empty_iff_example : is_nil (collect snapshot 5000).issues ≡ is_healthy snapshot 5000
collect_empty_iff_example = collect_empty_iff snapshot 5000

abbrev node_down : Alert
node_down = record {
  event = "node_down";
  key = "node_down:n1";
  title = "down";
  body = "n1 is unreachable";
  resource_id = "n1";
}

abbrev raised : ℕ → ℕ → Call
raised now id = record { now = now; fresh = id; alert = node_down }

abbrev no_alerts : Alerts
no_alerts = record { table = []; seen = [] }

dispatched_once_example :
    dispatches
      (cut_alert node_down).key
      (raised 5060 2 ∷ raised 6700 3 ∷ [])
      (alert true 5000 1 node_down no_alerts).1
    ≡ 0
unfolding alert cut_alert bounded record_system_notification record_found latest
dispatched_once_example =
    dispatched_once (raised 5000 1) (raised 5060 2 ∷ raised 6700 3 ∷ []) no_alerts refl refl

abbrev conn : String → String → ℕ → ConnRef
conn id ip at = record { node_id = 1; id = id; ip = ip; started_at = pos at }

abbrev shared : List ConnRef
shared = conn "a" "10.0.0.1" 50 ∷ conn "b" "10.0.0.2" 20 ∷ conn "c" "10.0.0.1" 70 ∷ []

abbrev one_device : Limited
one_device = record { user_id = 1; limit = pos 1 }

acts : judge_user true "u" one_device shared ≢ []
unfolding judge_user ip_first get insert
acts h = absurd (cc)

limit_kept_example :
    let kept = kept_devices 1 shared in
    let cut = cut_devices 1 shared in
    (0 < 1)
    × (length kept ≡ 1)
    × (all
          (λ (d : String × ℕ).
            all
              (λ (e : String × ℕ). no_later (first_start d.0 shared) (first_start e.0 shared))
              cut)
          kept
        ≡ true)
    × ((ip : String)
        → (has_ip ip kept || has_ip ip cut) ≡ any (λ (c : ConnRef). str_eq c.ip ip) shared)
    × ((ip : String) → (has_ip ip kept && has_ip ip cut) ≡ false)
limit_kept_example = limit_kept true "u" one_device shared acts

abbrev line : String → LogRecord
line message = record {
  ts = 0;
  level = "warn";
  code = some "M0406";
  target = "honey_master";
  message = message;
  fields = "";
}

search_refines_example :
    search 10 (some "warn") none (some "PUSH") (push_all (line "push failed" ∷ line "up" ∷ []) [])
    ≡ take (min 10 capacity) (
        filter
          (matches_filter (some "warn") none (some "PUSH"))
          (reverse (last capacity (line "push failed" ∷ line "up" ∷ []))))
search_refines_example =
    search_refines (line "push failed" ∷ line "up" ∷ []) 10 (some "warn") none (some "PUSH")

parse_version-printed_example :
    parse_version (printed 1 20 3) ≡ record { major = 1; minor = 20; patch = 3; pre = false }
parse_version-printed_example =
    parse_version-printed 1 20 3 (omega arith) (omega arith) (omega arith)

abbrev digest : String
digest = "0123456789abcdef0123456789abcdef0123456789abcdef0123456789abcdef"

abbrev release : Release
release = record {
  tag = "v1.10.0";
  assets =
      record { name = "honey-linux-amd64"; url = "a" }
      ∷ record { name = "SHA256SUMS"; url = "s" }
      ∷ [];
}

abbrev sums_text : String → Option String
sums_text url =
    some "0123456789abcdef0123456789abcdef0123456789abcdef0123456789abcdef  honey-linux-amd64"

abbrev binary : String → Option String
binary url = some "bytes"

abbrev hash_of : String → String
hash_of bytes = digest

release_installs :
    apply "1.9.0" "linux" "x86_64" sums_text binary hash_of release ≡ installed "v1.10.0" "bytes"
unfolding apply is_newer parse_version parse_raw trim trim_start trim_end trim_start_matches
    split_once split_on parse_u64 read_digits is_empty pick_asset is_checksum_asset contains
    to_lower first_checksums expected_hash find_hash lines drop_return split_whitespace split_spaces
    ends_with verify
release_installs = refl

installed-IsVerified_example :
    IsVerified "1.9.0" "linux" "x86_64" sums_text binary hash_of release "v1.10.0" "bytes"
installed-IsVerified_example =
    installed-IsVerified "1.9.0" "linux" "x86_64" sums_text binary hash_of release "v1.10.0" "bytes"
      release_installs
