-- ===== src/Monitor.antt =====
-- The monitors of master/src/monitor.rs: the device limit and the configuration drift. What the agents
-- answer is an argument; an action is an alert, or a request to an agent.
pub mod Devices
use text.Mathlib.Text.{◌==◌ as str_eq}
use honey.Prelude.{
  ℕ, zero, suc, ◌-◌, ◌^◌, String, Bool, true, false, not, ◌&&◌, ◌||◌, Option, none, some, List, [],
  ◌∷◌, ◌++◌, ltb, leb, if◌then◌else◌, filter, any, map, drop, length, is_some,
}
use honey.Prelude.Text.{is_empty}
use honey.Prelude.Sort.{sort_by}
use honey.Prelude.Keys.{nat_eq, string_eq, Map, get, insert}
use honey.Api.{ℤ, pos, negsuc}

pub record Connection : Type 0 where
  pub id : String
  pub user : String
  pub source_ip : String
  pub started_at : ℤ

pub record ConnRef : Type 0 where
  pub node_id : ℕ
  pub id : String
  pub ip : String
  pub started_at : ℤ

-- A user's identifier and limit.
pub record Limited : Type 0 where
  pub user_id : ℕ
  pub limit : ℤ

pub data Action : Type 0 where
  device_alert : ℕ → String → ℕ → ℕ → Action
  close_connections : ℕ → List String → Action

abbrev i64_max : ℕ
i64_max = 2 ^ 63 - 1

-- An unknown start counts as the newest.
abbrev pub start_of : ConnRef → ℕ
start_of c = elim c.started_at [ pos zero ↦ i64_max | pos (suc n) ↦ suc n | negsuc n ↦ i64_max ]

abbrev pub earlier : ℕ → Option ℕ → ℕ
earlier started none = started
earlier started (some e) = if ltb started e then started else e

abbrev pub note_ip : ConnRef → Map String ℕ → Map String ℕ
note_ip c seen = insert c.ip (earlier (start_of c) (get c.ip seen)) seen

-- Each distinct address with its earliest session start.
unfoldable pub ip_first : List ConnRef → Map String ℕ → Map String ℕ
unfolding get insert
ip_first [] seen = seen
ip_first (c ∷ cs) seen = ip_first cs (note_ip c seen)

abbrev pub older : String × ℕ → String × ℕ → Bool
older a b = leb a.1 b.1

-- The devices from the oldest. The program leaves the order of equal ones to its hash map.
unfoldable pub ranked : List ConnRef → List (String × ℕ)
unfolding ip_first sort_by
ranked conns = sort_by older (ip_first conns [])

abbrev pub has_ip : String → List (String × ℕ) → Bool
has_ip ip devices = any (λ (d : String × ℕ). str_eq d.0 ip) devices

-- The devices beyond the limit, the newest.
unfoldable pub cut_devices : ℕ → List ConnRef → List (String × ℕ)
unfolding ranked
cut_devices limit conns = drop limit (ranked conns)

unfoldable pub closed_conns : List (String × ℕ) → List ConnRef → List ConnRef
closed_conns cut conns = filter (λ (c : ConnRef). has_ip c.ip cut) conns

abbrev appended : String → Option (List String) → List String
appended id none = id ∷ []
appended id (some ids) = ids ++ (id ∷ [])

unfoldable pub by_node : List ConnRef → Map ℕ (List String) → Map ℕ (List String)
unfolding get insert
by_node [] m = m
by_node (c ∷ cs) m = by_node cs (insert c.node_id (appended c.id (get c.node_id m)) m)

abbrev close_all : Map ℕ (List String) → List Action
close_all [] = []
close_all ((node, ids) ∷ rest) = close_connections node ids ∷ close_all rest

abbrev pub to_limit : ℤ → ℕ
to_limit (pos n) = n
to_limit (negsuc n) = 0

-- One round of the loop over the users.
unfoldable pub judge_user : Bool → String → Limited → List ConnRef → List Action
unfolding ip_first cut_devices closed_conns by_node
judge_user enforce user limited conns =
    let limit = to_limit limited.limit in
    let cut = cut_devices limit conns in
    let closing = close_all (by_node (closed_conns cut conns) []) in
    if ltb 0 limit && ltb limit (length (ip_first conns []))
    then device_alert limited.user_id user (length (ip_first conns [])) limit
      ∷ (if enforce then closing else [])
    else []

abbrev ref_of : ℕ → Connection → ConnRef
ref_of node c = record { node_id = node; id = c.id; ip = c.source_ip; started_at = c.started_at }

abbrev is_watched : Map String Limited → Connection → Bool
is_watched limits c =
    not (is_empty c.user) && not (is_empty c.source_ip) && is_some (get c.user limits)

abbrev pushed : ConnRef → Option (List ConnRef) → List ConnRef
pushed c none = c ∷ []
pushed c (some cs) = cs ++ (c ∷ [])

unfoldable pub gather_node :
    Map String Limited → ℕ → List Connection → Map String (List ConnRef) → Map String (List ConnRef)
unfolding get insert is_empty
gather_node limits node [] per_user = per_user
gather_node limits node (c ∷ cs) per_user = gather_node limits node cs (
    if is_watched limits c
    then insert c.user (pushed (ref_of node c) (get c.user per_user)) per_user
    else per_user)

abbrev gather_answer :
    Map String Limited
    → ℕ
    → Option (List Connection)
    → Map String (List ConnRef)
    → Map String (List ConnRef)
gather_answer limits node none per_user = per_user
gather_answer limits node (some cs) per_user = gather_node limits node cs per_user

unfoldable pub gather :
    Map String Limited
    → List (ℕ × Option (List Connection))
    → Map String (List ConnRef)
    → Map String (List ConnRef)
unfolding gather_node
gather limits [] per_user = per_user
gather limits ((node, answer) ∷ nodes) per_user =
    gather limits nodes (gather_answer limits node answer per_user)

abbrev judge_known : Bool → String → Option Limited → List ConnRef → List Action
judge_known enforce user none conns = []
judge_known enforce user (some limited) conns = judge_user enforce user limited conns

abbrev judge_all : Bool → Map String Limited → Map String (List ConnRef) → List Action
judge_all enforce limits [] = []
judge_all enforce limits ((user, conns) ∷ rest) =
    judge_known enforce user (get user limits) conns ++ judge_all enforce limits rest

-- `device_tick`
unfoldable pub device_tick :
    Bool → Map String Limited → List (ℕ × Option (List Connection)) → List Action
unfolding get judge_user gather
device_tick enforce limits nodes = judge_all enforce limits (gather limits nodes [])
