-- ===== src/Notify.antt =====
-- Alerts: master/src/notify.rs, and the tables `system_notifications` and `notify_channels` of
-- master/src/db/repo.rs. Instants are numbers of seconds. Whether the database answers is an argument.
pub mod Dedupe
use text.Mathlib.Text.{◌==◌ as str_eq}
use Prim.Native.String.{String}
use honey.Prelude.{
  ℕ, zero, suc, ◌+◌, ◌-◌, ◌*◌, Bool, true, false, not, ◌&&◌, ◌||◌, Option, none, some, List, [],
  ◌∷◌, ltb, leb, ◌==◌, if◌then◌else◌, filter, any, map,
}
use honey.Prelude.Keys.{string_eq, Map, get, insert, retain}

-- 30 minutes for each key.
abbrev pub cooldown : ℕ
cooldown = 1800

abbrev pub retention : ℕ
retention = 90 * 86_400

pub record SystemNotification : Type 0 where
  pub id : ℕ
  pub event_type : String
  pub dedupe_key : String
  pub severity : String
  pub code : String
  pub title : String
  pub body : String
  pub resource_type : Option String
  pub resource_id : Option String
  pub occurrence_count : ℕ
  pub created_at : ℕ
  pub last_seen_at : ℕ

pub record Metadata : Type 0 where
  pub severity : String
  pub code : String
  pub resource_type : Option String

abbrev meta : String → String → Option String → Metadata
meta severity code resource = record { severity = severity; code = code; resource_type = resource }

unfoldable pub metadata : String → Metadata
metadata event =
    if str_eq event "node_down"
    then meta "critical" "M0409" (some "node")
    else if str_eq event "push_failed"
    then meta "critical" "M0406" (some "node")
    else if str_eq event "cert_expiry"
    then meta "warning" "M1301" (some "domain")
    else if str_eq event "quota_reset"
    then meta "info" "M1401" (some "user")
    else if str_eq event "subscription_abuse"
    then meta "warning" "M1701" (some "subscription")
    else if str_eq event "traffic_anomaly"
    then meta "warning" "M1610" (some "user")
    else if str_eq event "device_limit"
    then meta "warning" "M1611" (some "user")
    else if str_eq event "config_drift"
    then meta "warning" "M1612" (some "node")
    else meta "warning" "M1600" none

-- The first `max` characters.
unfoldable pub bounded : ℕ → String → String
bounded zero s = String.[]
bounded (suc max) String.[] = String.[]
bounded (suc max) (String.◌∷◌ c s) = String.◌∷◌ c (bounded max s)

-- What `alert` hands to `record_system_notification`.
pub record Alert : Type 0 where
  pub event : String
  pub key : String
  pub title : String
  pub body : String
  pub resource_id : String

unfoldable pub cut_alert : Alert → Alert
unfolding bounded
cut_alert a = record {
  event = a.event;
  key = bounded 256 a.key;
  title = bounded 160 a.title;
  body = bounded 1024 a.body;
  resource_id = bounded 128 a.resource_id;
}

-- `created_at > now() - interval '30 minutes'`, under the key.
abbrev pub is_recent : ℕ → String → SystemNotification → Bool
is_recent now key n = str_eq n.dedupe_key key && ltb now (n.created_at + cooldown)

abbrev newer : SystemNotification → Option SystemNotification → Option SystemNotification
newer n none = some n
newer n (some m) = if ltb n.created_at m.created_at then some m else some n

-- `ORDER BY created_at DESC LIMIT 1`
unfoldable pub latest : List SystemNotification → Option SystemNotification
latest [] = none
latest (n ∷ ns) = newer n (latest ns)

unfoldable pub count_again : ℕ → ℕ → Alert → SystemNotification → SystemNotification
count_again now id a n =
    if n.id == id
    then record n {
      occurrence_count = n.occurrence_count + 1;
      last_seen_at = now;
      title = a.title;
      body = a.body;
    }
    else n

unfoldable pub notification_of : ℕ → ℕ → Alert → SystemNotification
unfolding metadata
notification_of now fresh a = record {
  id = fresh;
  event_type = a.event;
  dedupe_key = a.key;
  severity = (metadata a.event).severity;
  code = (metadata a.event).code;
  title = a.title;
  body = a.body;
  resource_type = (metadata a.event).resource_type;
  resource_id = some a.resource_id;
  occurrence_count = 1;
  created_at = now;
  last_seen_at = now;
}

-- `created_at < now() - interval '90 days'` deletes.
abbrev pub is_kept : ℕ → SystemNotification → Bool
is_kept now n = leb now (n.created_at + retention)

unfoldable pub prune_system_notifications : ℕ → List SystemNotification → List SystemNotification
prune_system_notifications now table = filter (is_kept now) table

-- The transaction: the row that was inserted, if one was, and the table.
unfoldable pub record_found :
    ℕ
    → ℕ
    → Alert
    → List SystemNotification
    → Option SystemNotification
    → Option SystemNotification × List SystemNotification
unfolding count_again notification_of prune_system_notifications
record_found now fresh a table (some n) =
    (none, prune_system_notifications now (map (count_again now n.id a) table))
record_found now fresh a table none =
    let n = notification_of now fresh a in (some n, prune_system_notifications now (n ∷ table))

unfoldable pub record_system_notification :
    ℕ → ℕ → Alert → List SystemNotification → Option SystemNotification × List SystemNotification
unfolding record_found latest
record_system_notification now fresh a table =
    record_found now fresh a table (latest (filter (is_recent now a.key) table))

-- The limiter in memory, for when the database fails.
abbrev is_quiet : ℕ → Option ℕ → Bool
is_quiet now none = false
is_quiet now (some last) = ltb (now - last) cooldown

unfoldable pub should_send_fallback : ℕ → String → Map String ℕ → Bool × Map String ℕ
unfolding get insert retain
should_send_fallback now key seen =
    let live = retain (λ (t : ℕ). ltb (now - t) 86_400) seen in
    if is_quiet now (get key live) then (false, live) else (true, insert key now live)

pub record Alerts : Type 0 where
  pub table : List SystemNotification
  pub seen : Map String ℕ

abbrev pub is_there : Option SystemNotification → Bool
is_there none = false
is_there (some n) = true

-- `alert` up to the dispatch: whether it is dispatched, and what is kept.
unfoldable pub alert : Bool → ℕ → ℕ → Alert → Alerts → Bool × Alerts
unfolding cut_alert record_system_notification should_send_fallback
alert available now fresh a s =
    let cut = cut_alert a in
    let recorded = record_system_notification now fresh cut s.table in
    let limited = should_send_fallback now cut.key s.seen in
    if available
    then (is_there recorded.0, record s { table = recorded.1 })
    else (limited.0, record s { seen = limited.1 })
