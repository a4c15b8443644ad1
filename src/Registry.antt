-- ===== src/Registry.antt =====
-- Pushes of configurations to nodes: master/src/registry.rs, and `start_node_push` and
-- `finish_node_push` of master/src/db/repo.rs. Instants are numbers. The specification that is built
-- for a node, and what its agent answers, are arguments; the database answers every query.
pub mod Pushes
pub mod Deferral
use text.Mathlib.Text.{◌==◌ as str_eq}
use honey.Prelude.{
  ℕ, ◌+◌, String, Bool, true, false, ◌&&◌, ◌||◌, Option, none, some, List, [], ◌∷◌, leb,
  if◌then◌else◌, is_some, unwrap_or, map_option, is_some_and,
}
use honey.Prelude.Keys.{nat_eq, Map, get, insert, remove}

-- A specification that was built: its hash and its summary.
pub record Desired : Type 0 where
  pub hash : String
  pub summary : String

-- The columns of a node that a push writes.
pub record NodeRow : Type 0 where
  pub desired_spec_hash : Option String
  pub applied_spec_hash : Option String
  pub applied_spec_summary : Option String
  pub applied_at : Option ℕ
  pub last_push_at : Option ℕ
  pub last_push_status : Option String
  pub last_push_message : Option String

pub record PushEvent : Type 0 where
  pub node_id : ℕ
  pub desired_hash : String
  pub applied_hash : Option String
  pub source : String
  pub status : String
  pub message : Option String
  pub actor_admin_id : Option ℕ
  pub finished_at : Option ℕ

-- The registry's two maps, and the tables. A connection is one that is in the map.
pub record Registry : Type 0 where
  pub conns : Map ℕ ℕ
  pub deferred_pushes : Map ℕ ℕ
  pub nodes : Map ℕ NodeRow
  pub events : Map ℕ PushEvent
  pub next_event : ℕ

-- The answer to an Apply. Only a status of the transport makes a connection stale.
pub data Reply : Type 0 where
  applied : String → Reply
  rejected : Reply
  rpc_failure : Reply

pub data Failure : Type 0 where
  not_built : Failure
  node_missing : Failure
  not_connected : Failure
  apply_rejected : Failure
  transport : Failure

pub data Outcome {ℓ} (A : Type ℓ) : Type ℓ where
  failed : Failure → Outcome A
  done : A → Outcome A

pub data PushOutcome : Type 0 where
  unchanged : PushOutcome
  pushed : PushOutcome
  deferred : PushOutcome

-- `take_due_push`
unfoldable pub take_due_push : ℕ → ℕ → Map ℕ ℕ → Bool × Map ℕ ℕ
take_due_push node_id now pending =
    if is_some_and (get node_id pending) (λ deadline. leb deadline now)
    then (true, remove node_id pending)
    else (false, pending)

-- The part of `defer_push` that runs at once; the task that it spawns is `wake_task`.
unfoldable pub defer_push : ℕ → ℕ → ℕ → Registry → Registry
defer_push node_id now delay r = record r {
  deferred_pushes = insert node_id (now + delay) r.deferred_pushes;
}

abbrev pub update_row {ℓ} : {A : Type ℓ} → ℕ → (A → A) → Map ℕ A → Map ℕ A
update_row id f m = elim (get id m) [ none ↦ m | some row ↦ insert id (f row) m ]

abbrev pub started_row : ℕ → String → NodeRow → NodeRow
started_row now desired_hash row = record row {
  desired_spec_hash = some desired_hash;
  last_push_at = some now;
  last_push_status = some "started";
  last_push_message = none;
}

unfoldable pub start_node_push : ℕ → ℕ → String → String → Option ℕ → Registry → ℕ × Registry
start_node_push now node_id desired_hash source actor_admin_id r = (
  r.next_event,
  record r {
    events =
        insert r.next_event
          (record {
            node_id = node_id;
            desired_hash = desired_hash;
            applied_hash = none;
            source = source;
            status = "started";
            message = none;
            actor_admin_id = actor_admin_id;
            finished_at = none;
          })
          r.events;
    next_event = r.next_event + 1;
    nodes = update_row node_id (started_row now desired_hash) r.nodes;
  },
)

abbrev pub finished_row :
    ℕ → Option String → String → Option String → Option String → NodeRow → NodeRow
finished_row now applied_hash status message applied_summary row = record row {
  last_push_at = some now;
  last_push_status = some status;
  last_push_message = message;
  applied_spec_hash = elim applied_hash [ none ↦ row.applied_spec_hash | some h ↦ some h ];
  applied_spec_summary = if is_some applied_hash then applied_summary else row.applied_spec_summary;
  applied_at = if is_some applied_hash then some now else row.applied_at;
}

unfoldable pub finish_node_push :
    ℕ → ℕ → ℕ → String → String → Option String → Option String → Registry → Registry
finish_node_push now event_id node_id desired_hash status message applied_summary r =
    let applied_hash =
      if str_eq status "applied" || str_eq status "unchanged" then some desired_hash else none in
    record r {
      events =
          update_row event_id
            (λ e. record e {
              status = status;
              message = message;
              applied_hash = applied_hash;
              finished_at = some now;
            })
            r.events;
      nodes =
          update_row node_id (finished_row now applied_hash status message applied_summary) r.nodes;
    }

-- The call of the agent. A node that is not connected is not asked.
unfoldable pub apply : ℕ → Reply → Registry → Outcome String × Registry
apply node_id reply r = elim (get node_id r.conns) [
  | none ↦ (failed not_connected, r)
  | some conn ↦ elim reply [
    | applied message ↦ (done message, r)
    | rejected ↦ (failed apply_rejected, r)
    | rpc_failure ↦ (failed transport, record r { conns = remove node_id r.conns })
  ]
]

abbrev pub public_message : String
public_message = "push failed; inspect correlated master and agent logs"

abbrev pub finish : ℕ → ℕ → ℕ → Desired → Outcome String × Registry → Outcome String × Registry
finish now event node_id desired (failed why, r) = (
  failed why,
  finish_node_push now event node_id desired.hash "failed" (some public_message) none r,
)
finish now event node_id desired (done message, r) = (
  done message,
  finish_node_push now event node_id desired.hash "applied" (some message) (some desired.summary) r,
)

abbrev pub push_desired :
    ℕ → ℕ → String → Option ℕ → Desired → Reply → Registry → Outcome String × Registry
push_desired now node_id source actor desired reply r =
    let started = start_node_push now node_id desired.hash source actor r in
    finish now started.0 node_id desired (apply node_id reply started.1)

unfoldable pub push_with_context :
    ℕ → ℕ → String → Option ℕ → Option Desired → Reply → Registry → Outcome String × Registry
push_with_context now node_id source actor built reply r =
    let r' : Registry = record r { deferred_pushes = remove node_id r.deferred_pushes } in
    elim built [
      | none ↦ (failed not_built, r')
      | some desired ↦ push_desired now node_id source actor desired reply r'
    ]

-- `auto_push` does nothing while the setting is 0.
unfoldable pub auto_push :
    ℕ → ℕ → ℕ → Option Desired → Reply → Registry → Outcome (Option String) × Registry
auto_push enabled now node_id built reply r =
    let result = push_with_context now node_id "automatic" none built reply r in
    if leb enabled 0 then (done none, r) else (
      elim (result.0) [ failed why ↦ failed why | done message ↦ done (some message) ],
      result.1,
    )

-- The task that `defer_push` spawns, from the deadline on: the push that it takes is dropped if the
-- node is not connected by then.
unfoldable pub wake_task : ℕ → ℕ → ℕ → Option Desired → Reply → Registry → Registry
unfolding take_due_push auto_push
wake_task enabled now node_id built reply r =
    let due = take_due_push node_id now r.deferred_pushes in
    let taken : Registry = record r { deferred_pushes = due.1 } in
    let pushed = (auto_push enabled now node_id built reply taken).1 in
    if due.0 && is_some (get node_id r.conns) then pushed else taken

abbrev pub pushed_outcome : Outcome String × Registry → Outcome PushOutcome × Registry
pushed_outcome (failed why, r) = (failed why, r)
pushed_outcome (done message, r) = (done pushed, r)

abbrev pub reconcile_row :
    ℕ → ℕ → Desired → Reply → Registry → Option NodeRow → Outcome PushOutcome × Registry
reconcile_row now node_id desired reply r none = (failed node_missing, r)
reconcile_row now node_id desired reply r (some row) =
    if is_some_and row.applied_spec_hash (λ h. str_eq h desired.hash)
    then (done unchanged, r)
    else pushed_outcome (push_with_context now node_id "reconcile" none (some desired) reply r)

unfoldable pub reconcile_push :
    ℕ → ℕ → Option Desired → Reply → Registry → Outcome PushOutcome × Registry
reconcile_push now node_id built reply r =
    if is_some (get node_id r.deferred_pushes) then (done deferred, r) else elim built [
      | none ↦ (failed not_built, r)
      | some desired ↦ reconcile_row now node_id desired reply r (get node_id r.nodes)
    ]
