-- ===== src/Registry/Deferral.antt =====
-- Deferred pushes: a burst of changes to one node ends in one push, the tasks of `defer_push` of
-- master/src/registry.rs taken together.
use honey.Prelude.{ℕ, ◌+◌, Bool, not, ◌&&◌, some, List, [], ◌∷◌, leb, is_some}
use honey.Prelude.Keys.{nat_eq, get}
use honey.Registry.{Registry, Desired, Reply, defer_push, wake_task}

-- The changes of one burst: when each comes, and for how long it is put off.
pub defer_all : ℕ → List (ℕ × ℕ) → Registry → Registry
defer_all node_id [] r = r
defer_all node_id ((now, delay) ∷ later) r =
    defer_all node_id later (defer_push node_id now delay r)

abbrev pub deadline_of : ℕ → List (ℕ × ℕ) → ℕ
deadline_of deadline [] = deadline
deadline_of deadline ((now, delay) ∷ later) = deadline_of (now + delay) later

-- What is built at each instant, and what the agent answers then.
module _ (enabled node_id : ℕ) (desired : ℕ → Desired) (reply : ℕ → Reply) where
  abbrev task : ℕ → Registry → Registry
  task t = wake_task enabled t node_id (some (desired t)) (reply t)

  -- The tasks of a node that wake at the given times, one after the other.
  pub wake : List ℕ → Registry → Registry
  wake [] r = r
  wake (now ∷ later) r = wake later (task now r)

  -- Whether a push is let through.
  abbrev pub is_pushed : Registry → Bool
  is_pushed r = is_some (get node_id r.conns) && not (leb enabled 0)
