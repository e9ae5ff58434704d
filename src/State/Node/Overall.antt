-- ===== src/State/Node/Overall.antt =====
-- What the router reads over all registers: the total weight and the ids.
use topia.Base.{◌+◌, ◌<◌, ◌≡◌, refl, sym, ap, inl, inr, ◌++◌, arith}
use topia.Base.Eq.{string_eq}
use topia.Base.Words.{u64_mod, add_u64}
use topia.State.Store.{get_state_data}
use topia.State.Store.Laws.{get_state_data_lem}
use topia.State.Node.{Store}
use topia.State.Node.Totals.{Nodes, Register, Registered, ids_of, weight_sum}
use topia.State.Node.Registers.{ids_or_nil, weight_or_zero}
use topia.State.Node.Registers.Executor.{get_active_executors_total_weight, get_active_executor_ids}
use topia.State.Node.Registers.Proposer.{get_active_proposers_total_weight, get_active_proposer_ids}
use topia.State.Node.Registers.Validator.{
  get_active_validators_total_weight, get_active_validator_ids,
}
use topia.State.Node.Registers.Inactive.{get_inactive_node_ids}
use topia.State.Node.Router.{get_total_weight, get_all_consensus_node_ids}
use topia.State.Node.Routes.{
  Kind, executors, proposers, validators, inactives, register_of, register_with, Routed,
}

pub register_total :
    (r : Register) (st : Store) (ns : Nodes)
    → Registered r st ns
    → weight_or_zero (get_state_data st r.name r.weight_key) ≡ inr (weight_sum ns)
register_total r st ns (m, h, v) =
    let g = get_state_data_lem st r.name r.weight_key m h.1 r.weight_named in
    elim v.totals [
      | inl (empty, a, b) ↦ rw (g, b) (ap (λ x. inr x) (sym (ap weight_sum empty)))
      | inr (a, b) ↦ rw (g, b) refl
    ]

pub register_ids :
    (r : Register) (st : Store) (ns : Nodes)
    → Registered r st ns
    → ids_or_nil (get_state_data st r.name r.ids_key) ≡ inr (ids_of ns)
register_ids r st ns (m, h, v) =
    let g = get_state_data_lem st r.name r.ids_key m h.1 r.ids_named in
    elim v.totals [
      | inl (empty, a, b) ↦ rw (g, a) (ap (λ x. inr x) (sym (ap ids_of empty)))
      | inr (a, b) ↦ rw (g, a) refl
    ]

-- `GetTotalWeight` is the sum of the weights of all active nodes, while it is below 2 ^ 64; the inactive
-- ones do not count.
get_total_weight-Routed :
    (st : Store) (nodes : Kind → Nodes)
    → Routed st nodes
    → weight_sum (nodes executors) + weight_sum (nodes proposers) + weight_sum (nodes validators)
      < u64_mod
    → get_total_weight st
      ≡ inr (
          weight_sum (nodes executors)
          + weight_sum (nodes proposers)
          + weight_sum (nodes validators))
unfolding get_total_weight get_active_executors_total_weight get_active_proposers_total_weight
    get_active_validators_total_weight register_of register_with
get_total_weight-Routed st nodes v small =
    let e = register_total (register_of executors) st (nodes executors) (v.registered executors) in
    let p = register_total (register_of proposers) st (nodes proposers) (v.registered proposers) in
    let w =
      register_total (register_of validators) st (nodes validators) (v.registered validators) in
    let sum : add_u64 (add_u64 (weight_sum (nodes executors)) (weight_sum (nodes proposers)))
          (weight_sum (nodes validators))
        ≡ weight_sum (nodes executors)
          + weight_sum (nodes proposers)
          + weight_sum (nodes validators) =
      omega (arith, small) in
    rw (e, p, w, sum) refl

-- `GetAllConsensusNodeIDs` lists the ids of all nodes: executors, proposers, validators, inactive ones.
pub get_all_consensus_node_ids-Routed :
    (st : Store) (nodes : Kind → Nodes)
    → Routed st nodes
    → get_all_consensus_node_ids st
      ≡ inr (
          ids_of (nodes executors)
          ++ ids_of (nodes proposers)
          ++ ids_of (nodes validators)
          ++ ids_of (nodes inactives))
unfolding get_all_consensus_node_ids get_active_executor_ids get_active_proposer_ids
    get_active_validator_ids get_inactive_node_ids register_of register_with
get_all_consensus_node_ids-Routed st nodes v =
    let e = register_ids (register_of executors) st (nodes executors) (v.registered executors) in
    let p = register_ids (register_of proposers) st (nodes proposers) (v.registered proposers) in
    let w = register_ids (register_of validators) st (nodes validators) (v.registered validators) in
    let n = register_ids (register_of inactives) st (nodes inactives) (v.registered inactives) in
    rw (e, p, w, n) refl
