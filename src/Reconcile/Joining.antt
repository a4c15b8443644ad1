-- ===== src/Reconcile/Joining.antt =====
-- Which nodes a tick of the reconcile loop connects, master/src/reconcile.rs and
-- master/src/registry.rs.
use text.Mathlib.Text.{◌==◌ as str_eq}
use honey.Prelude.{ℕ, Bool, not, ◌&&◌, ◌==◌, is_some, is_some_and}
use honey.Prelude.Keys.{nat_eq, get}
use honey.Registry.{Registry}
use honey.Fleet.{Node}
use honey.Reconcile.{Fleet, World, is_trusted, visit_node}

abbrev has : ℕ → Registry → Bool
has j r = is_some (get j r.conns)

module _ (world : World) (now : ℕ) where
  abbrev after_visit : Bool → ℕ → Node → Fleet → Fleet
  after_visit = visit_node world now

  -- The node may be dialled, and what answers there may be let in.
  abbrev pub may_join : ℕ → Node → Bool
  may_join id node =
      node.enabled
      && not (str_eq node.transport "dial")
      && is_some_and (world.dial id) (is_trusted world now id)
