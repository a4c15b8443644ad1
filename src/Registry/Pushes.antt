-- ===== src/Registry/Pushes.antt =====
-- What a push leaves behind, and what the reconcile loop makes of it.
use text.Mathlib.Text.{◌==◌ as str_eq}
use text.Mathlib.TextPositions.{eq_refl}
use honey.Prelude.{
  ℕ, ◌+◌, String, Option, none, some, ◌≡◌, refl, ap, ◌∙◌, arith, ◌==◌, if◌then◌else◌, Option-cases,
  inl, inr,
}
use honey.Prelude.Keys.{nat_eq, string_eq, Map, get, remove, get-insert, get-remove}
use honey.Registry.{
  Registry, NodeRow, Desired, Reply, applied, rejected, rpc_failure, Outcome, failed, done,
  unchanged, started_row, finished_row, update_row, start_node_push, finish_node_push, apply,
  finish, push_with_context, reconcile_push, public_message,
}

update_row-get :
    (id j : ℕ) (f : NodeRow → NodeRow) (m : Map ℕ NodeRow)
    → get j (update_row id f m)
      ≡ (if id == j then elim (get id m) [ none ↦ none | some row ↦ some (f row) ] else get j m)
update_row-get id j f m = elim (Option-cases (get id m)) [
  | inl e ↦ ground (arith, nat_eq.beq_iff id j)
  | inr (row, e) ↦ ground (arith, get-insert id j (f row) m, nat_eq.beq_iff id j)
]

start-nodes :
    (now node_id j : ℕ) (hash source : String) (actor : Option ℕ) (r : Registry) (row : NodeRow)
    → get node_id r.nodes ≡ some row
    → get j (start_node_push now node_id hash source actor r).1.nodes
      ≡ (if node_id == j then some (started_row now hash row) else get j r.nodes)
unfolding start_node_push
start-nodes now node_id j hash source actor r row h =
    rw (update_row-get node_id j (started_row now hash) r.nodes) (rw h refl)

apply-nodes :
    (node_id : ℕ) (reply : Reply) (r : Registry) → (apply node_id reply r).1.nodes ≡ r.nodes
unfolding apply
apply-nodes node_id reply r = ground arith

-- The node's row after a push of `desired`, by what the agent made of it.
abbrev pub row_after : ℕ → Desired → Outcome String → NodeRow → NodeRow
row_after now desired (failed why) row =
    finished_row now none "failed" (some public_message) none (started_row now desired.hash row)
row_after now desired (done message) row =
    finished_row now (some desired.hash) "applied" (some message) (some desired.summary)
      (started_row now desired.hash row)

finish-nodes :
    (now event node_id j : ℕ) (desired : Desired) (o : Outcome String) (r : Registry)
    (row : NodeRow)
    → get node_id r.nodes ≡ some (started_row now desired.hash row)
    → get j (finish now event node_id desired (o, r)).1.nodes
      ≡ (if node_id == j then some (row_after now desired o row) else get j r.nodes)
unfolding finish_node_push
finish-nodes now event node_id j desired (failed why) r row h =
    rw (update_row-get node_id j _ r.nodes) (rw h refl)
finish-nodes now event node_id j desired (done message) r row h =
    rw (update_row-get node_id j _ r.nodes) (rw h refl)

finish-result :
    (now event node_id : ℕ) (desired : Desired) (p : Outcome String × Registry)
    → (finish now event node_id desired p).0 ≡ p.0
finish-result now event node_id desired (failed why, r) = refl
finish-result now event node_id desired (done message, r) = refl

finish-maps :
    (now event node_id : ℕ) (desired : Desired) (p : Outcome String × Registry)
    → ((finish now event node_id desired p).1.deferred_pushes ≡ p.1.deferred_pushes)
      × ((finish now event node_id desired p).1.conns ≡ p.1.conns)
unfolding finish_node_push
finish-maps now event node_id desired (failed why, r) = (refl, refl)
finish-maps now event node_id desired (done message, r) = (refl, refl)

apply-maps :
    (node_id j : ℕ) (reply : Reply) (r : Registry)
    → ((apply node_id reply r).1.deferred_pushes ≡ r.deferred_pushes)
      × (get j (apply node_id reply r).1.conns ≡ elim reply [
        | applied m ↦ get j r.conns
        | rejected ↦ get j r.conns
        | rpc_failure ↦ if node_id == j then none else get j r.conns
      ])
unfolding apply
apply-maps node_id j reply r =
    ground (arith, get-remove node_id j r.conns, nat_eq.beq_iff node_id j)

finish-next_event :
    (now event node_id : ℕ) (desired : Desired) (p : Outcome String × Registry)
    → (finish now event node_id desired p).1.next_event ≡ p.1.next_event
unfolding finish_node_push
finish-next_event now event node_id desired (failed why, r) = refl
finish-next_event now event node_id desired (done message, r) = refl

apply-next_event :
    (node_id : ℕ) (reply : Reply) (r : Registry)
    → (apply node_id reply r).1.next_event ≡ r.next_event
unfolding apply
apply-next_event node_id reply r = ground arith

-- A push of a specification that was built writes one event, and nothing is deferred after it.
pub push-next_event :
    (now node_id : ℕ) (source : String) (actor : Option ℕ) (desired : Desired) (reply : Reply)
    (r : Registry)
    → let after = (push_with_context now node_id source actor (some desired) reply r).1 in
      (after.next_event ≡ r.next_event + 1) × (get node_id after.deferred_pushes ≡ none)
unfolding push_with_context start_node_push
push-next_event now node_id source actor desired reply r =
    let r' : Registry = record r { deferred_pushes = remove node_id r.deferred_pushes } in
    let s = start_node_push now node_id desired.hash source actor r' in
    let p = apply node_id reply s.1 in
    (
      finish-next_event now s.0 node_id desired p ∙ apply-next_event node_id reply s.1,
      ap (get node_id)
            ((finish-maps now s.0 node_id desired p).0 ∙ (apply-maps node_id node_id reply s.1).0)
          ∙ get-remove node_id node_id r.deferred_pushes
          ∙ ground arith,
    )

module _ (now node_id : ℕ) (source : String) (actor : Option ℕ) (desired : Desired) (reply : Reply)
    (r : Registry) (row : NodeRow) where
  abbrev pub result : Outcome String × Registry
  result = push_with_context now node_id source actor (some desired) reply r

  -- A push of a node that exists writes that node's row, by the outcome, and no other node's.
  push-nodes :
      (j : ℕ)
      → get node_id r.nodes ≡ some row
      → get j result.1.nodes
        ≡ (if node_id == j then some (row_after now desired result.0 row) else get j r.nodes)
  unfolding push_with_context
  push-nodes j h =
      let r' : Registry = record r { deferred_pushes = remove node_id r.deferred_pushes } in
      let s = start_node_push now node_id desired.hash source actor r' in
      let p = apply node_id reply s.1 in
      let mid = λ (k : ℕ).
        ap (get k) (apply-nodes node_id reply s.1)
        ∙ start-nodes now node_id k desired.hash source actor r' row h in
      rw (finish-result now s.0 node_id desired p) (
        finish-nodes now s.0 node_id j desired p.0 p.1 row (mid node_id ∙ ground arith)
        ∙ ground (arith, mid j))

  push-deferred : get node_id result.1.deferred_pushes ≡ none
  unfolding push_with_context start_node_push apply finish_node_push
  push-deferred =
      let r' : Registry = record r { deferred_pushes = remove node_id r.deferred_pushes } in
      let s = start_node_push now node_id desired.hash source actor r' in
      ap (get node_id) (
        (finish-maps now s.0 node_id desired (apply node_id reply s.1)).0
        ∙ (apply-maps node_id node_id reply s.1).0)
      ∙ get-remove node_id node_id r.deferred_pushes
      ∙ ground arith

  -- Only a failure of the transport takes the connection away, and only this node's.
  pub push-conns :
      (j : ℕ)
      → get j result.1.conns ≡ elim reply [
        | applied m ↦ get j r.conns
        | rejected ↦ get j r.conns
        | rpc_failure ↦ if node_id == j then none else get j r.conns
      ]
  unfolding push_with_context start_node_push apply finish_node_push
  push-conns j =
      let r' : Registry = record r { deferred_pushes = remove node_id r.deferred_pushes } in
      let s = start_node_push now node_id desired.hash source actor r' in
      ap (get j) (finish-maps now s.0 node_id desired (apply node_id reply s.1)).1
      ∙ (apply-maps node_id j reply s.1).1

  push-row :
      (o : Outcome String)
      → get node_id r.nodes ≡ some row
      → result.0 ≡ o
      → get node_id result.1.nodes ≡ some (row_after now desired o row)
  push-row o h e =
      push-nodes node_id h ∙ ground arith ∙ ap (λ o'. some (row_after now desired o' row)) e

-- Once a push has succeeded, the reconcile loop that builds the same specification leaves the node
-- and the tables alone, whatever the agent would answer.
pub pushed_then_unchanged :
    (now later node_id : ℕ) (source message : String) (actor : Option ℕ) (desired : Desired)
    (reply reply' : Reply) (r : Registry) (row : NodeRow)
    → get node_id r.nodes ≡ some row
    → (push_with_context now node_id source actor (some desired) reply r).0 ≡ done message
    → reconcile_push later node_id
        (some desired)
        reply'
        (push_with_context now node_id source actor (some desired) reply r).1
      ≡ (done unchanged, (push_with_context now node_id source actor (some desired) reply r).1)
unfolding reconcile_push
pushed_then_unchanged now later node_id source message actor desired reply reply' r row h ok =
    rw (push-deferred now node_id source actor desired reply r row) (
      rw (push-row now node_id source actor desired reply r row (done message) h ok)
        (rw (eq_refl desired.hash) refl))
