-- ===== src/Loops.antt =====
-- The loops of the leader over the database: quota windows, master/src/quota.rs, and scheduled
-- operations, master/src/schedule.rs, with their queries in master/src/db/repo.rs. A push is noted by
-- the node that it is for; whether a node is connected, the nodes that a user can reach and the tokens
-- that are drawn are arguments. Instants are numbers of seconds; one reading of the clock stands for
-- those of a tick. The alert after a reset is left out.
pub mod Quota
pub mod Schedule
pub mod Requests
use text.Mathlib.Text.{◌==◌ as str_eq}
use Prim.Native.String.{◌++◌ as append}
use honey.Prelude.{
  ℕ, ◌+◌, ◌*◌, String, Bool, true, false, not, ◌&&◌, ◌||◌, Option, none, some, List, [], ◌∷◌, ◌++◌,
  leb, ◌==◌, if◌then◌else◌, filter, map, take, is_some_and,
}
use honey.Prelude.Sort.{sort_by}
use honey.Prelude.Keys.{nat_eq, Map, get, insert}
use honey.Traffic.{User, Tables, reset_user_traffic}

-- The columns `quota_interval` and `quota_reset_at` of a user.
pub record Window : Type 0 where
  pub interval : String
  pub reset_at : Option ℕ

abbrev pub Windows : Type 0
Windows = List (ℕ × Window)

abbrev pub is_due : ℕ → Window → Bool
is_due now w = not (str_eq w.interval "none") && is_some_and w.reset_at (λ (t : ℕ). leb t now)

unfoldable pub due_quota_resets : ℕ → Windows → List (ℕ × String)
due_quota_resets now [] = []
due_quota_resets now ((id, w) ∷ ws) =
    let rest = due_quota_resets now ws in if is_due now w then (id, w.interval) ∷ rest else rest

unfoldable pub next_boundary : ℕ → String → ℕ
next_boundary now interval = now + (if str_eq interval "weekly" then 7 else 1) * 86_400

unfoldable pub advance_quota_reset : ℕ → ℕ → Windows → Windows
advance_quota_reset id next [] = []
advance_quota_reset id next ((j, w) ∷ ws) =
    (j, (if j == id then record w { reset_at = some next } else w)) ∷ advance_quota_reset id next ws

pub record Quotas : Type 0 where
  pub tables : Tables
  pub windows : Windows
  pub pushes : List ℕ

-- The columns and counters of the users, and the nodes that are connected.
module _ (connected : ℕ → Bool) (user_node_ids : ℕ → List ℕ) where
  -- One round of the loop. A user whose reset fails is left for the next tick; an advance of the window
  -- that fails is passed over, and the round goes on.
  unfoldable pub reset_due_window : ℕ → Bool → Bool → ℕ × String → Quotas → Quotas
  unfolding reset_user_traffic advance_quota_reset next_boundary
  reset_due_window now fails stuck (id, interval) q = if fails then q else record {
    tables = (reset_user_traffic id q.tables).1;
    windows =
        (if stuck
          then q.windows
          else advance_quota_reset id (next_boundary now interval) q.windows);
    pushes = q.pushes ++ filter connected (user_node_ids id);
  }

  unfoldable pub reset_all : ℕ → (ℕ → Bool) → (ℕ → Bool) → List (ℕ × String) → Quotas → Quotas
  unfolding reset_due_window
  reset_all now fails stuck [] q = q
  reset_all now fails stuck ((id, interval) ∷ due) q =
      reset_all now fails stuck due (reset_due_window now (fails id) (stuck id) (id, interval) q)

  -- Whether the reset of a user fails, and whether the advance of its window does, are arguments.
  unfoldable pub quota_tick : ℕ → (ℕ → Bool) → (ℕ → Bool) → Quotas → Quotas
  unfolding reset_all due_quota_resets
  quota_tick now fails stuck q = reset_all now fails stuck (due_quota_resets now q.windows) q

pub record ScheduledOp : Type 0 where
  pub id : ℕ
  pub resource_type : String
  pub resource_id : ℕ
  pub action : String
  pub run_at : ℕ
  pub status : String
  pub result : Option String

-- What the operations act on: whether nodes are enabled, inbounds with their nodes, users with their
-- counters, subscription tokens, and the pushes.
pub record Estate : Type 0 where
  pub nodes : Map ℕ Bool
  pub inbounds : Map ℕ (ℕ × Bool)
  pub tables : Tables
  pub tokens : Map ℕ String
  pub pushes : List ℕ

pub data Executed : Type 0 where
  failed : String → Executed
  done : String → Executed

abbrev pub is_waiting : ℕ → ScheduledOp → Bool
is_waiting now op = str_eq op.status "pending" && leb op.run_at now

abbrev pub runs_first : ScheduledOp → ScheduledOp → Bool
runs_first a b = leb a.run_at b.run_at

-- At most 50, the earliest first.
unfoldable pub due_scheduled_ops : ℕ → List ScheduledOp → List ScheduledOp
unfolding sort_by
due_scheduled_ops now ops = take 50 (sort_by runs_first (filter (is_waiting now) ops))

abbrev pub marked : Executed → ScheduledOp → ScheduledOp
marked (failed why) op = record op { status = "failed"; result = some why }
marked (done message) op = record op { status = "done"; result = some message }

unfoldable pub mark_scheduled_op : ℕ → Executed → List ScheduledOp → List ScheduledOp
mark_scheduled_op id outcome [] = []
mark_scheduled_op id outcome (op ∷ ops) =
    (if op.id == id then marked outcome op else op) ∷ mark_scheduled_op id outcome ops

abbrev pub is_op : ScheduledOp → String → String → Bool
is_op op kind action = str_eq op.resource_type kind && str_eq op.action action

abbrev pub switches : ScheduledOp → String → Bool
switches op kind = is_op op kind "enable" || is_op op kind "disable"

module _ (connected : ℕ → Bool) (user_node_ids : ℕ → List ℕ) (token : String) where
  abbrev push_if_connected : ℕ → Estate → Estate
  push_if_connected node e =
      if connected node then record e { pushes = e.pushes ++ (node ∷ []) } else e

  abbrev push_user_nodes : ℕ → Estate → Estate
  push_user_nodes user e = record e { pushes = e.pushes ++ filter connected (user_node_ids user) }

  abbrev set_node : ℕ → Bool → Option Bool → Estate → Executed × Estate
  set_node id on none e = (failed "node not found", e)
  set_node id on (some was) e = (
    done (if on then "node enabled" else "node disabled"),
    push_if_connected id (record e { nodes = insert id on e.nodes }),
  )

  abbrev set_user : ℕ → Bool → Option User → Estate → Executed × Estate
  set_user id on none e = (failed "user not found", e)
  set_user id on (some u) e =
      let users = insert id (record u { enabled = on }) e.tables.users in
      (
        done (if on then "user enabled" else "user disabled"),
        push_user_nodes id (record e { tables = record e.tables { users = users } }),
      )

  abbrev reset_user : ℕ → Option User × Tables → Estate → Executed × Estate
  reset_user id (none, tables) e = (failed "user not found", record e { tables = tables })
  reset_user id (some u, tables) e =
      (done "traffic reset", push_user_nodes id (record e { tables = tables }))

  abbrev rotate_user : ℕ → Option User → Estate → Executed × Estate
  rotate_user id none e = (failed "user not found", e)
  rotate_user id (some u) e =
      (done "subscription rotated", record e { tokens = insert id token e.tokens })

  abbrev set_inbound : ℕ → Bool → Option (ℕ × Bool) → Estate → Executed × Estate
  set_inbound id on none e = (failed "inbound not found", e)
  set_inbound id on (some (node, was)) e = (
    done (if on then "inbound enabled" else "inbound disabled"),
    push_if_connected node (record e { inbounds = insert id (node, on) e.inbounds }),
  )

  unfoldable pub execute : ScheduledOp → Estate → Executed × Estate
  unfolding get insert reset_user_traffic
  execute op e =
      let id = op.resource_id in
      let on = str_eq op.action "enable" in
      if switches op "node"
      then set_node id on (get id e.nodes) e
      else if is_op op "node" "push"
      then (done "node pushed", push_if_connected id e)
      else if switches op "user"
      then set_user id on (get id e.tables.users) e
      else if is_op op "user" "reset-traffic"
      then reset_user id (reset_user_traffic id e.tables) e
      else if is_op op "user" "rotate-sub"
      then rotate_user id (get id e.tables.users) e
      else if switches op "inbound"
      then set_inbound id on (get id e.inbounds) e
      else (
        failed (append "unsupported action " (append op.resource_type (append "." op.action))),
        e,
      )

  -- Whether the outcome of an operation cannot be recorded is an argument: the row stays as it is then.
  unfoldable pub run_ops :
      (ℕ → Bool) → List ScheduledOp → List ScheduledOp → Estate → List ScheduledOp × Estate
  unfolding execute mark_scheduled_op
  run_ops unmarked [] ops e = (ops, e)
  run_ops unmarked (op ∷ due) ops e =
      let r = execute op e in
      run_ops unmarked due (if unmarked op.id then ops else mark_scheduled_op op.id r.0 ops) r.1

  unfoldable pub schedule_tick :
      ℕ → (ℕ → Bool) → List ScheduledOp → Estate → List ScheduledOp × Estate
  unfolding run_ops due_scheduled_ops
  schedule_tick now unmarked ops e = run_ops unmarked (due_scheduled_ops now ops) ops e
