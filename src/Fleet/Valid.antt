-- ===== src/Fleet/Valid.antt =====
-- The nodes that the handlers of master/src/api/mod.rs store through master/src/db/repo.rs.
use honey.Prelude.{
  ℕ, Bool, true, false, not, ◌&&◌, Option, none, some, [], unwrap_or, is_none_or, map_option,
  Bool-cases, inl, inr, ◌≡◌, ◌∙◌, sym, ap, subst, refl, arith,
}
use honey.Prelude.Keys.{nat_eq, ◌==◌, get, insert, get-insert}
use honey.Api.{
  ApiError, is_ok, IsAccepted, ok, err, Check, ◌≫◌, Checked, ℤ, pos, negsuc, is_port, is_negative,
  max_zero,
}
use honey.Fleet.Changes.{node_snapshot, revert_node, node_named, apply_node}
use honey.Fleet.{
  Node, NewNode, UpdateNode, Nodes, is_blank, is_transport, validate_node,
  validate_name_address_port_transport, validate_update_node, created_node, updated_node,
  create_node, update_node, update_row,
}

abbrev is_well_formed : Node → Bool
is_well_formed n =
    not (is_blank n.name)
    && not (is_blank n.address)
    && not (is_blank n.tls_server_name)
    && is_port n.grpc_port
    && is_transport n.transport
    && not (is_negative n.monthly_cost_cents)

abbrev pub AllWellFormed : Nodes → Type 0
AllWellFormed nodes = (id : ℕ) (n : Node) → get id nodes ≡ some n → is_well_formed n ≡ true

-- The tables that `create_node`, `update_node` and `revert_node` lead to. A revert restores a row that
-- stood in such a table. The configuration that is applied as a whole is not among them.
pub data Stored : Nodes → Type 0 where
  empty : (nodes : Nodes) → nodes ≡ [] → Stored nodes
  created :
      (fresh : ℕ) (input : NewNode) (nodes nodes' : Nodes)
      → Stored nodes
      → create_node fresh input nodes ≡ ok nodes'
      → Stored nodes'
  updated :
      (id : ℕ) (input : UpdateNode) (nodes nodes' : Nodes)
      → Stored nodes
      → update_node id input nodes ≡ ok nodes'
      → Stored nodes'
  reverted :
      (id : ℕ) (old : Node) (earlier nodes nodes' : Nodes)
      → Stored earlier
      → get id earlier ≡ some old
      → Stored nodes
      → revert_node id old nodes ≡ ok nodes'
      → Stored nodes'

not-negative-max_zero : (z : ℤ) → is_negative (max_zero z) ≡ false
not-negative-max_zero (pos n) = refl
not-negative-max_zero (negsuc n) = refl

created-is_well_formed :
    (input : NewNode)
    → IsAccepted (validate_node input)
    → is_well_formed (created_node input) ≡ true
unfolding validate_node validate_name_address_port_transport created_node
created-is_well_formed input h = ground (arith, not-negative-max_zero input.monthly_cost_cents)

max_kept :
    (o : Option ℤ) (old : ℤ)
    → is_negative old ≡ false
    → is_negative (unwrap_or (map_option max_zero o) old) ≡ false
max_kept none old h = h
max_kept (some z) old h = not-negative-max_zero z

updated-is_well_formed :
    (input : UpdateNode) (row : Node)
    → IsAccepted (validate_update_node input)
    → is_well_formed row ≡ true
    → is_well_formed (updated_node input row) ≡ true
unfolding validate_update_node updated_node
updated-is_well_formed input row h k =
    ground (arith, h, k, max_kept input.monthly_cost_cents row.monthly_cost_cents)

IsAccepted-then {ℓ} :
    {A : Type ℓ} (c : Check) (next : Checked A) (a : A)
    → (c ≫ next) ≡ ok a
    → IsAccepted c × (next ≡ ok a)
IsAccepted-then (err e) next a h = absurd (cc)
IsAccepted-then (ok u) next a h = (refl, h)

insert-AllWellFormed :
    (k : ℕ) (n : Node) (nodes : Nodes)
    → is_well_formed n ≡ true
    → AllWellFormed nodes
    → AllWellFormed (insert k n nodes)
insert-AllWellFormed k n nodes h all j m e = elim (Bool-cases (k == j)) [
  | inl same ↦
      let here : some n ≡ some m = sym (rw same at (get-insert k j n nodes)) ∙ e in
      sym (ap (λ (o : Option Node). is_none_or o is_well_formed) here) ∙ h
  | inr other ↦ all j m (sym (rw other at (get-insert k j n nodes)) ∙ e)
]

unwrap : Nodes → Checked Nodes → Nodes
unwrap d (err e) = d
unwrap d (ok nodes) = nodes

ok_path : {m n : Nodes} → ok m ≡ ok n → m ≡ n
unfolding unwrap
ok_path {m} h = ap (unwrap m) h

none_stored : AllWellFormed []
unfolding get
none_stored id n h = absurd (cc)

create_node-AllWellFormed :
    (fresh : ℕ) (input : NewNode) (nodes nodes' : Nodes)
    → create_node fresh input nodes ≡ ok nodes'
    → AllWellFormed nodes
    → AllWellFormed nodes'
unfolding create_node
create_node-AllWellFormed fresh input nodes nodes' h all =
    let parts = IsAccepted-then (validate_node input) _ nodes' h in
    let kept =
      insert-AllWellFormed fresh (created_node input) nodes (created-is_well_formed input parts.0)
        all in
    subst AllWellFormed (ok_path parts.1) kept

update_row-AllWellFormed :
    (id : ℕ) (input : UpdateNode) (nodes nodes' : Nodes) (o : Option Node)
    → get id nodes ≡ o
    → ((row : Node) → is_well_formed row ≡ true → is_well_formed (updated_node input row) ≡ true)
    → update_row id input nodes o ≡ ok nodes'
    → AllWellFormed nodes
    → AllWellFormed nodes'
update_row-AllWellFormed id input nodes nodes' none g keep h all = absurd (cc)
update_row-AllWellFormed id input nodes nodes' (some row) g keep h all =
    subst AllWellFormed (ok_path h)
      (insert-AllWellFormed id (updated_node input row) nodes (keep row (all id row g)) all)

reverted-is_well_formed :
    (old row : Node)
    → is_well_formed old ≡ true
    → is_well_formed (updated_node (node_snapshot old) row) ≡ true
unfolding updated_node node_snapshot
reverted-is_well_formed old row h = ground (arith, h, not-negative-max_zero old.monthly_cost_cents)

-- Every node in a table that the requests to create, change and revert a node lead to has a name, an
-- address and a TLS name that are not blank, a port in range, one of the three transports, and a cost
-- that is not negative.
pub Stored-AllWellFormed : (nodes : Nodes) → Stored nodes → AllWellFormed nodes
unfolding update_node revert_node
Stored-AllWellFormed nodes (empty _ e) = subst AllWellFormed (sym e) none_stored
Stored-AllWellFormed nodes (created fresh input old _ s h) =
    create_node-AllWellFormed fresh input old nodes h (Stored-AllWellFormed old s)
Stored-AllWellFormed nodes (updated id input old _ s h) =
    let parts = IsAccepted-then (validate_update_node input) _ nodes h in
    update_row-AllWellFormed id input old nodes (get id old) refl
      (λ row w. updated-is_well_formed input row parts.0 w) parts.1 (Stored-AllWellFormed old s)
Stored-AllWellFormed nodes (reverted id old earlier before _ s there r h) =
    update_row-AllWellFormed id (node_snapshot old) before nodes (get id before) refl
      (λ row w. reverted-is_well_formed old row (Stored-AllWellFormed earlier s id old there)) h
      (Stored-AllWellFormed before r)

is_ok-validate_node :
    (input : NewNode) → is_ok (validate_node input) ≡ is_well_formed (created_node input)
unfolding validate_node validate_name_address_port_transport created_node
is_ok-validate_node input = ground (arith, not-negative-max_zero input.monthly_cost_cents)

refused_check :
    (c : Check) (nodes : Nodes) (why : ApiError) → (c ≫ ok nodes) ≡ err why → is_ok c ≡ false
refused_check (err e) nodes why k = refl
refused_check (ok u) nodes why k = absurd (cc)

-- A configuration that is applied is not checked: a node that a request to create it would be refused,
-- of a name that no node has, is stored all the same, and it is not well-formed.
refused_applied :
    (fresh : ℕ) (spec : NewNode) (existing nodes : Nodes) (why : ApiError)
    → create_node fresh spec nodes ≡ err why
    → node_named spec.name existing ≡ none
    → (row : Node) × (get fresh (apply_node existing fresh spec nodes) ≡ some row)
      × (is_well_formed row ≡ false)
unfolding apply_node create_node
refused_applied fresh spec existing nodes why h absent = (
  created_node spec,
  rw absent (
      get-insert fresh fresh (created_node spec) nodes
      ∙ ground (arith, nat_eq.beq_iff fresh fresh)),
  sym (is_ok-validate_node spec) ∙ refused_check (validate_node spec) _ why h,
)
