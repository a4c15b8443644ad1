-- ===== src/Reconcile.antt =====
-- The reconcile loop's tick, `tick` of master/src/reconcile.rs, with `connect_serve` and `heartbeat` of
-- master/src/registry.rs: nodes are dialled, asked for a sign of life and pushed to. What an agent
-- presents and answers, and what is built for a node, are arguments; the database answers. A node that
-- is found down is noted for the alert, and the versions that an agent reports are left out.
pub mod Joining
use text.Mathlib.Text.{◌==◌ as str_eq}
use honey.Prelude.{
  ℕ, String, Bool, true, false, not, ◌&&◌, Option, none, some, List, [], ◌∷◌, ◌++◌, ◌==◌,
  if◌then◌else◌, is_some,
}
use honey.Prelude.Keys.{nat_eq, Map, get, insert, remove}
use honey.Registry.{Registry, Desired, Reply, reconcile_push}
use honey.Fleet.{Node, Nodes, NodeCertificate, authorize_certificate}

-- What is found at a node's address: the channel, the fingerprint that it presents, and the answer to
-- `whoru`.
pub record Peer : Type 0 where
  pub client : ℕ
  pub fingerprint : String
  pub who : Option ℕ

pub record Fleet : Type 0 where
  pub registry : Registry
  pub last_seen : Map ℕ ℕ
  pub down : List ℕ

-- The agents, and the desired state.
pub record World : Type 0 where
  pub dial : ℕ → Option Peer
  pub pings : ℕ → Bool
  pub certificates : List NodeCertificate
  pub built : ℕ → Option Desired
  pub reply : ℕ → Reply

module _ (world : World) (now : ℕ) where
  -- `touch_node` and `register`
  abbrev joined : ℕ → ℕ → Fleet → Fleet
  joined id client s = record s {
    registry = record s.registry { conns = insert id client s.registry.conns };
    last_seen = insert id now s.last_seen;
  }

  -- The checks of `connect_serve`: the certificate is authorized and the agent is the node.
  abbrev pub is_trusted : ℕ → Peer → Bool
  is_trusted id peer =
      authorize_certificate id peer.fingerprint now world.certificates
      && (elim peer.who [ none ↦ false | some reported ↦ reported == id ])

  abbrev pub meet : ℕ → Option Peer → Fleet → Fleet
  meet id none s = s
  meet id (some peer) s = if is_trusted id peer then joined id peer.client s else s

  unfoldable pub connect_serve : ℕ → Fleet → Fleet
  connect_serve id s = meet id (world.dial id) s

  abbrev pub is_connected : ℕ → Fleet → Bool
  is_connected id s = is_some (get id s.registry.conns)

  unfoldable pub heartbeat : ℕ → Fleet → Bool × Fleet
  heartbeat id s =
      if not (is_connected id s)
      then (false, s)
      else if world.pings id
      then (true, record s { last_seen = insert id now s.last_seen })
      else (false, record s { registry = record s.registry { conns = remove id s.registry.conns } })

  abbrev pub pushed : ℕ → Fleet → Fleet
  pushed id s = record s {
    registry = (reconcile_push now id (world.built id) (world.reply id) s.registry).1;
  }

  abbrev pub after_heartbeat : Bool → ℕ → Bool × Fleet → Fleet
  after_heartbeat auto id (true, s) = if auto then pushed id s else s
  after_heartbeat auto id (false, s) = record s { down = s.down ++ (id ∷ []) }

  abbrev pub dials : ℕ → Node → Fleet → Bool
  dials id node s = not (str_eq node.transport "dial") && not (is_connected id s)

  abbrev pub reached : ℕ → Node → Fleet → Fleet
  reached id node s = if dials id node s then connect_serve id s else s

  abbrev pub converge : Bool → ℕ → Fleet → Fleet
  converge auto id s = if is_connected id s then after_heartbeat auto id (heartbeat id s) else s

  unfoldable pub visit_node : Bool → ℕ → Node → Fleet → Fleet
  unfolding connect_serve heartbeat
  visit_node auto id node s = if node.enabled then converge auto id (reached id node s) else s

  -- `auto` is the setting `auto_push_enabled`.
  unfoldable pub tick : Bool → Nodes → Fleet → Fleet
  unfolding visit_node
  tick auto [] s = s
  tick auto ((id, node) ∷ nodes) s = tick auto nodes (visit_node auto id node s)
