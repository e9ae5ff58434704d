-- ===== src/State/Node/Runs.antt =====
-- A register over any sequence of additions, changes of weight and removals.
use topia.Base.{ℕ, ◌+◌, ◌<◌, ◌≡◌, inr, String, List, [], ◌∷◌, Option, none, some}
use topia.Base.Eq.{string_eq}
use topia.Base.Map.{lookup, insert, delete}
use topia.Base.Words.{i64_sign}
use topia.State.Store.{get_state_data}
use topia.State.Node.{NodeInfo, Store, get_node, add_node, update_weight}
use topia.State.Node.Totals.{Nodes, Register, IsProper, Registered, weight_sum, ids_of}
use topia.State.Node.Refines.{add_node-Registered}
use topia.State.Node.Changes.{update_weight-Registered, remove_node-Registered, found_node}
use topia.State.Node.Registers.{remove_found, weight_or_zero, ids_or_nil}
use topia.State.Node.Overall.{register_total, register_ids}

-- The calls on a register that change it.
pub data Call : Type 0 where
  adds : NodeInfo → Call
  weighs : String → ℕ → Call
  removes : String → Call

-- The call on the store; `remove…` reads the node first.
unfoldable pub call : Register → Store → Call → Store
call r st (adds i) = (add_node st r.name r.ids_key r.weight_key (some i)).0
call r st (weighs id w) = (update_weight st r.name id r.weight_key w).0
call r st (removes id) =
    (remove_found st r.name r.ids_key r.weight_key id (get_node st r.name id)).0

unfoldable pub call_all : Register → Store → List Call → Store
call_all r st [] = st
call_all r st (c ∷ cs) = call_all r (call r st c) cs

-- What the calls mean on a map of nodes.
abbrev pub weighed : Option NodeInfo → String → ℕ → Nodes → Nodes
weighed none id w nodes = nodes
weighed (some i) id w nodes = insert id (record i { weight = w }) nodes

abbrev pub meaning : Nodes → Call → Nodes
meaning nodes (adds i) = insert i.node_id i nodes
meaning nodes (weighs id w) = weighed (lookup id nodes) id w nodes
meaning nodes (removes id) = delete id nodes

unfoldable pub meaning_all : Nodes → List Call → Nodes
meaning_all nodes [] = nodes
meaning_all nodes (c ∷ cs) = meaning_all (meaning nodes c) cs

-- A call that the register can take: a new id to add, an id that is there to weigh or remove, none that
-- is empty or a key of the register's own, and sums of weights below 2 ^ 63.
pub data Allowed (r : Register) (nodes : Nodes) : Call → Type 0 where
  add_new :
      (i : NodeInfo)
      → IsProper r i.node_id
      → lookup i.node_id nodes ≡ none
      → weight_sum nodes + i.weight < i64_sign
      → Allowed r nodes (adds i)
  weigh_known :
      (id : String) (i : NodeInfo) (w : ℕ)
      → IsProper r id
      → lookup id nodes ≡ some i
      → weight_sum nodes + w < i64_sign + i.weight
      → Allowed r nodes (weighs id w)
  remove_known :
      (id : String) (i : NodeInfo)
      → IsProper r id
      → lookup id nodes ≡ some i
      → Allowed r nodes (removes id)

abbrev pub AllAllowed : Register → Nodes → List Call → Type 0
AllAllowed r nodes [] = Unit
AllAllowed r nodes (c ∷ cs) = Allowed r nodes c × AllAllowed r (meaning nodes c) cs

call-Registered :
    (r : Register) (st : Store) (nodes : Nodes) (c : Call)
    → Registered r st nodes
    → Allowed r nodes c
    → Registered r (call r st c) (meaning nodes c)
unfolding call
call-Registered r st nodes c g (add_new i p new small) =
    let (st', e, g', others) = add_node-Registered r st nodes i g p new small in rw (call, e) g'
call-Registered r st nodes c g (weigh_known id i w p there small) =
    let (st', e, g', others) = update_weight-Registered r st nodes id i w g p there small in
    rw (call, e, there) g'
call-Registered r st nodes c g (remove_known id i p there) =
    let found = found_node r st g.0 nodes id i g.1 g.2 p there in
    let (st', e, g', others) = remove_node-Registered r st nodes id i g p there in
    rw (call, found, e) g'

call_all-Registered :
    (r : Register) (st : Store) (nodes : Nodes) (cs : List Call)
    → Registered r st nodes
    → AllAllowed r nodes cs
    → Registered r (call_all r st cs) (meaning_all nodes cs)
unfolding call_all meaning_all
call_all-Registered r st nodes [] g ok = g
call_all-Registered r st nodes (c ∷ cs) g ok =
    call_all-Registered r (call r st c) (meaning nodes c) cs (call-Registered r st nodes c g ok.0)
      ok.1

-- From a store in which a register holds nodes, after any sequence of additions of new nodes, changes of
-- weight and removals of nodes that are there, with ids that are not empty and not the register's own two
-- keys of totals, and sums of weights below 2 ^ 63: the register's total weight reads as the sum of the
-- weights of the nodes that the sequence leaves, and its list of ids as theirs.
pub call_all-totals :
    (r : Register) (st : Store) (nodes : Nodes) (cs : List Call)
    → Registered r st nodes
    → AllAllowed r nodes cs
    → (weight_or_zero (get_state_data (call_all r st cs) r.name r.weight_key)
        ≡ inr (weight_sum (meaning_all nodes cs)))
      × (ids_or_nil (get_state_data (call_all r st cs) r.name r.ids_key)
          ≡ inr (ids_of (meaning_all nodes cs)))
call_all-totals r st nodes cs g ok =
    let after = call_all-Registered r st nodes cs g ok in
    (
      register_total r (call_all r st cs) (meaning_all nodes cs) after,
      register_ids r (call_all r st cs) (meaning_all nodes cs) after,
    )
