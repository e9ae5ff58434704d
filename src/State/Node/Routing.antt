-- ===== src/State/Node/Routing.antt =====
-- The routed calls of state/node/node.go on all registers together.
use topia.Base.{
  ℕ, ◌+◌, ◌<◌, ◌≡◌, ◌≢◌, refl, sym, ◌∙◌, subst, String, ◌⊎◌, inl, inr, Option, none, some, arith,
  Bool-cases,
}
use topia.Base.Eq.{◌==◌, ==_iff, string_eq}
use topia.Base.Map.{lookup, insert, lookup-insert}
use topia.Base.Words.{i64_sign}
use topia.State.Store.Laws.{Holds, put_lem, get_state_data_lem}
use topia.State.Node.{
  NodeInfo, NodeStateMetaInfo, Error, meta_json, Store, get_node, add_node, update_weight,
}
use topia.State.Node.Totals.{Nodes, weight_sum, IsProper, Registered}
use topia.State.Node.Refines.{add_node-Registered}
use topia.State.Node.Changes.{update_weight-Registered, found_node}
use topia.State.Node.Registers.Executor.{
  get_active_executor, add_active_executor, update_active_executor_weight,
}
use topia.State.Node.Registers.Proposer.{
  get_active_proposer, add_active_proposer, update_active_proposer_weight,
}
use topia.State.Node.Registers.Validator.{
  get_active_validator, add_active_validator, update_active_validator_weight,
}
use topia.State.Node.Registers.Inactive.{
  get_inactive_node, add_inactive_node, update_inactive_node_weight,
}
use topia.State.Node.Router.{
  node_store_name, get_node_info, add_to_register, add_node_info, update_node_weight,
}
use topia.State.Node.Routes.{
  Kind, executors, proposers, validators, inactives, register_of, register_with, kind_of, choose,
  by_role_and_state-choose, same_store, own_store, with_nodes, Routed, Registered-other,
  Routes-write,
}

get_chosen :
    (st : Store) (id : String) (o : Error ⊎ Option NodeInfo) (k : Kind)
    → get_node st (register_of k).name id ≡ o
    → choose k
        (get_active_executor st id)
        (get_active_proposer st id)
        (get_active_validator st id)
        (get_inactive_node st id)
      ≡ o
unfolding register_of register_with get_active_executor get_active_proposer get_active_validator
    get_inactive_node
get_chosen st id o executors e = e
get_chosen st id o proposers e = e
get_chosen st id o validators e = e
get_chosen st id o inactives e = e

-- `GetNode` finds every node of every register, through the role and state that the router has for it.
pub get_node_info-Routed :
    (st : Store) (nodes : Kind → Nodes) (k : Kind) (id : String) (i : NodeInfo)
    → Routed st nodes
    → IsProper (register_of k) id
    → lookup id (nodes k) ≡ some i
    → get_node_info st id ≡ inr (some i)
unfolding get_node_info
get_node_info-Routed st nodes k id i v p e =
    let (routes, h, to) = v.routes in
    let (meta, at, kind) = to id k i e in
    let g = get_state_data_lem st node_store_name id routes h.1 p.named in
    let (m, hm, rep) = v.registered k in
    let found = found_node (register_of k) st m (nodes k) id i hm rep p e in
    rw (get_node_info, g, at)
      (by_role_and_state-choose meta.role meta.state k _ _ _ _ _ _ kind
        ∙ get_chosen st id _ k found)

add_chosen :
    (st : Store) (i : NodeInfo) (k : Kind)
    → choose k
        (add_active_executor st (some i))
        (add_active_proposer st (some i))
        (add_active_validator st (some i))
        (add_inactive_node st (some i))
      ≡ add_node st (register_of k).name (register_of k).ids_key (register_of k).weight_key (some i)
unfolding register_of register_with add_active_executor add_active_proposer add_active_validator
    add_inactive_node
add_chosen st i executors = refl
add_chosen st i proposers = refl
add_chosen st i validators = refl
add_chosen st i inactives = refl

update_chosen :
    (st : Store) (id : String) (w : ℕ) (k : Kind)
    → choose k
        (update_active_executor_weight st id w)
        (update_active_proposer_weight st id w)
        (update_active_validator_weight st id w)
        (update_inactive_node_weight st id w)
      ≡ update_weight st (register_of k).name id (register_of k).weight_key w
unfolding register_of register_with update_active_executor_weight update_active_proposer_weight
    update_active_validator_weight update_inactive_node_weight
update_chosen st id w executors = refl
update_chosen st id w proposers = refl
update_chosen st id w validators = refl
update_chosen st id w inactives = refl

add_to_register-chosen :
    (st : Store) (k : Kind) (i : NodeInfo)
    → kind_of i.role i.state ≡ some k
    → add_to_register st i
      ≡ add_node st (register_of k).name (register_of k).ids_key (register_of k).weight_key (some i)
unfolding add_to_register
add_to_register-chosen st k i h =
    by_role_and_state-choose i.role i.state k _ _ _ _ _ _ h ∙ add_chosen st i k

-- The registers after a write to one of them, and to no other store.
registers_after :
    (st st' : Store) (nodes : Kind → Nodes) (k : Kind) (ns : Nodes)
    → ((k' : Kind) → Registered (register_of k') st (nodes k'))
    → Registered (register_of k) st' ns
    → ((other : String)
        → other ≢ (register_of k).name
        → lookup other st'.store_map ≡ lookup other st.store_map)
    → (k' : Kind) → Registered (register_of k') st' (with_nodes k ns nodes k')
registers_after st st' nodes k ns old new others k' =
    elim (Bool-cases ((register_of k).name == (register_of k').name)) [
      | inl same ↦
          rw same
            (subst (λ (j : Kind). Registered (register_of j) st' ns) (same_store k k' same) new)
      | inr apart ↦ rw apart (
          Registered-other (register_of k') st st' (nodes k') (old k') new.1.0 (
            others (register_of k').name (λ e.
              ground
                (arith, apart, (==_iff (register_of k).name (register_of k').name).1 (sym e)))))
    ]

-- In a store that holds the four registers and the routes to them: `AddNode` of a node whose role and
-- state lead to a register, with an id that is not empty, not one of that register's own two keys of
-- totals and in none of the four registers, and the register's sum of weights below 2 ^ 63: it succeeds,
-- adds the node to that register and its route, and changes no other register.
pub add_node_info-Routed :
    (st : Store) (nodes : Kind → Nodes) (k : Kind) (i : NodeInfo)
    → Routed st nodes
    → kind_of i.role i.state ≡ some k
    → IsProper (register_of k) i.node_id
    → ((k' : Kind) → lookup i.node_id (nodes k') ≡ none)
    → weight_sum (nodes k) + i.weight < i64_sign
    → (st' : Store) × (add_node_info st (some i) ≡ (st', none))
      × Routed st' (with_nodes k (insert i.node_id i (nodes k)) nodes)
unfolding add_node_info
add_node_info-Routed st nodes k i v kind p new small =
    let id = i.node_id in
    let r = register_of k in
    let meta : NodeStateMetaInfo = record { role = i.role; state = i.state } in
    let (routes, h, to) = v.routes in
    let (st1, w1, reg, others) =
      add_node-Registered r st (nodes k) i (v.registered k) p (new k) small in
    let registers =
      registers_after st st1 nodes k (insert id i (nodes k)) v.registered reg others in
    let routes_there : Holds st1 node_store_name routes =
      (reg.1.0, others node_store_name (λ e. own_store k (sym e)) ∙ h.1) in
    let (st2, w2, b2) =
      put_lem st1 node_store_name id (meta_json meta) routes routes_there p.named in
    (
      st2,
      rw (add_to_register-chosen st k i kind, w1) w2,
      record {
        registered = λ k'.
            Registered-other (register_of k') st1 st2 _ (registers k') b2.holds.0
              (b2.others (register_of k').name (own_store k'));
        routes = (
          insert id (meta_json meta) routes,
          b2.holds,
          Routes-write routes (insert id (meta_json meta) routes) nodes k id i to
              (
                meta,
                ground (arith, lookup-insert id id (meta_json meta) routes, ==_iff id id),
                kind,
              )
              (λ k' n e. ground (arith, new k', e))
              (λ j miss. ground (arith, lookup-insert id j (meta_json meta) routes)),
        );
      },
    )

-- `UpdateWeight` of a node of a register that is in no other register, with the register's new sum below
-- 2 ^ 63: it succeeds, gives the node the weight there, and changes no other register and no route.
update_node_weight-Routed :
    (st : Store) (nodes : Kind → Nodes) (k : Kind) (id : String) (i : NodeInfo) (w : ℕ)
    → Routed st nodes
    → IsProper (register_of k) id
    → lookup id (nodes k) ≡ some i
    → ((k' : Kind) (n : NodeInfo) → lookup id (nodes k') ≡ some n → k ≡ k')
    → weight_sum (nodes k) + w < i64_sign + i.weight
    → (st' : Store) × (update_node_weight st id w ≡ (st', none))
      × Routed st' (with_nodes k (insert id (record i { weight = w }) (nodes k)) nodes)
unfolding update_node_weight
update_node_weight-Routed st nodes k id i w v p e alone small =
    let r = register_of k in
    let i' : NodeInfo = record i { weight = w } in
    let (routes, h, to) = v.routes in
    let (meta, at, kind) = to id k i e in
    let g = get_state_data_lem st node_store_name id routes h.1 p.named in
    let (st1, w1, reg, others) =
      update_weight-Registered r st (nodes k) id i w (v.registered k) p e small in
    let routed_to =
      by_role_and_state-choose meta.role meta.state k _ _ _ _ _ _ kind ∙ update_chosen st id w k in
    (
      st1,
      rw (update_node_weight, g, at) (routed_to ∙ w1),
      record {
        registered =
            registers_after st st1 nodes k (insert id i' (nodes k)) v.registered reg others;
        routes = (
          routes,
          (reg.1.0, others node_store_name (λ e. own_store k (sym e)) ∙ h.1),
          Routes-write routes routes nodes k id i' to (meta, at, kind) alone (λ j miss. refl),
        );
      },
    )
