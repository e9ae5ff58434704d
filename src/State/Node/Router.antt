-- ===== src/State/Node/Router.antt =====
-- state/node/node.go: each node's role and state under its id, and the calls that these lead to one of the
-- four registers.
use topia.Base.{
  ℕ, String, Bool, List, [], ◌∷◌, ◌++◌, Option, none, some, ◌⊎◌, inl, inr, ◌=?◌, ◌||◌,
  if◌then◌else◌,
}
use topia.Base.Eq.{string_eq}
use topia.Base.Map.{Map, insert}
use topia.Base.Words.{add_u64}
use topia.State.Store.{
  malformed, nil_node_info, invalid_role, invalid_state, Written, and_then, put, get_state_data,
  add_named_state_store,
}
use topia.State.Node.{NodeInfo, NodeStateMetaInfo, Stored, meta_json, Store, Error, is_node_exist}
use topia.State.Node.Registers.Executor.{
  get_active_executor_ids, get_active_executor, get_active_executors_total_weight,
  add_active_executor, update_active_executor_weight, update_active_executor_dkg_part_pub_key,
  update_active_executor_dkg_pri_share,
}
use topia.State.Node.Registers.Proposer.{
  get_active_proposer_ids, get_active_proposer, get_active_proposers_total_weight,
  get_all_active_proposers, add_active_proposer, update_active_proposer_weight,
  update_active_proposer_dkg_part_pub_key, update_active_proposer_dkg_pri_share,
}
use topia.State.Node.Registers.Validator.{
  get_active_validator_ids, get_active_validator, get_active_validators_total_weight,
  get_all_active_validators, add_active_validator, update_active_validator_weight,
  update_active_validator_dkg_part_pub_key, update_active_validator_dkg_pri_share,
}
use topia.State.Node.Registers.Inactive.{
  get_inactive_node_ids, get_inactive_node, add_inactive_node, update_inactive_node_weight,
  update_inactive_node_dkg_part_pub_key, update_inactive_node_dkg_pri_share,
}

abbrev pub node_store_name : String
node_store_name = "node"

-- common/types.go
abbrev pub state_standby : ℕ
state_standby = 1

abbrev pub state_active : ℕ
state_active = 2

abbrev pub state_frozen : ℕ
state_frozen = 3

abbrev pub role_executor : ℕ
role_executor = 1

abbrev pub role_proposer : ℕ
role_proposer = 2

abbrev pub role_validator : ℕ
role_validator = 4

unfoldable pub new_node_state : Store → Store
new_node_state st = add_named_state_store st node_store_name

unfoldable pub is_node_known : Store → String → Bool
is_node_known st node_id = is_node_exist st node_store_name node_id

-- The two switches that every routed call has: one result for each register, and the two errors.
abbrev pub by_role_and_state {ℓ} : {A : Type ℓ} → ℕ → ℕ → A → A → A → A → A → A → A
by_role_and_state role state executor proposer validator inactive bad_role bad_state =
    if state =? state_active
    then (if role =? role_executor
        then executor
        else (if role =? role_proposer
            then proposer
            else (if role =? role_validator then validator else bad_role)))
    else (if (state =? state_standby) || (state =? state_frozen) then inactive else bad_state)

-- A register's answer for an error, for no role and state, and for those of the node.
abbrev pub routed {ℓ} :
    {A : Type ℓ} → (Error → A) → A → (NodeStateMetaInfo → A) → Error ⊎ Option Stored → A
routed failed absent found (inl e) = failed e
routed failed absent found (inr none) = absent
routed failed absent found (inr (some (meta_json m))) = found m
routed failed absent found (inr (some v)) = failed malformed

unfoldable pub get_node_info : Store → String → Error ⊎ Option NodeInfo
get_node_info st node_id =
    routed (λ e. inl e) (inr none)
      (λ m.
        by_role_and_state m.role m.state (get_active_executor st node_id)
          (get_active_proposer st node_id) (get_active_validator st node_id)
          (get_inactive_node st node_id) (inl invalid_role) (inl invalid_state))
      (get_state_data st node_store_name node_id)

abbrev pub bind_error {ℓ κ} : {A : Type ℓ} {B : Type κ} → Error ⊎ A → (A → Error ⊎ B) → Error ⊎ B
bind_error (inl e) f = inl e
bind_error (inr a) f = f a

unfoldable pub get_all_consensus_node_ids : Store → Error ⊎ List String
get_all_consensus_node_ids st = bind_error (get_active_executor_ids st) λ executors.
    bind_error (get_active_proposer_ids st) λ proposers.
      bind_error (get_active_validator_ids st) λ validators.
        bind_error (get_inactive_node_ids st)
          λ others. inr (executors ++ proposers ++ validators ++ others)

unfoldable pub get_total_weight : Store → Error ⊎ ℕ
get_total_weight st = bind_error (get_active_executors_total_weight st) λ executors.
    bind_error (get_active_proposers_total_weight st) λ proposers.
      bind_error (get_active_validators_total_weight st)
        λ validators. inr (add_u64 (add_u64 executors proposers) validators)

abbrev pub weight_of : Option NodeInfo → ℕ
weight_of none = 0
weight_of (some i) = i.weight

unfoldable pub get_node_weight : Store → String → Error ⊎ ℕ
unfolding get_node_info
get_node_weight st node_id = bind_error (get_node_info st node_id) λ i. inr (weight_of i)

unfoldable pub add_to_register : Store → NodeInfo → Written Stored
add_to_register st i =
    by_role_and_state i.role i.state (add_active_executor st (some i))
      (add_active_proposer st (some i)) (add_active_validator st (some i))
      (add_inactive_node st (some i)) (st, some invalid_role) (st, some invalid_state)

-- The register's part first, then the node's role and state.
unfoldable pub add_node_info : Store → Option NodeInfo → Written Stored
unfolding add_to_register
add_node_info st none = (st, some nil_node_info)
add_node_info st (some i) =
    and_then (add_to_register st i) λ st1.
      put st1 node_store_name i.node_id (meta_json (record { role = i.role; state = i.state }))

-- for _, nodeInfo := range nodeInfos { keys[nodeInfo.NodeID] = nodeInfo.DKGPartPubKey }
unfoldable pub put_keys : List NodeInfo → Map String String → Map String String
put_keys [] keys = keys
put_keys (i ∷ is) keys = put_keys is (insert i.node_id i.dkg_part_pub_key keys)

unfoldable pub get_dkg_part_pub_keys_for_verify : Store → Error ⊎ Map String String
unfolding put_keys
get_dkg_part_pub_keys_for_verify st = bind_error (get_all_active_proposers st) λ proposers.
    bind_error (get_all_active_validators st)
      λ validators. inr (put_keys validators (put_keys proposers []))

-- The three updates: a node without role and state is left alone, without an error.
unfoldable pub update_node_weight : Store → String → ℕ → Written Stored
update_node_weight st node_id weight =
    routed (λ e. (st, some e)) (st, none)
      (λ m.
        by_role_and_state m.role m.state (update_active_executor_weight st node_id weight)
          (update_active_proposer_weight st node_id weight)
          (update_active_validator_weight st node_id weight)
          (update_inactive_node_weight st node_id weight) (st, some invalid_role)
          (st, some invalid_state))
      (get_state_data st node_store_name node_id)

unfoldable pub update_node_dkg_part_pub_key : Store → String → String → Written Stored
update_node_dkg_part_pub_key st node_id pub_key =
    routed (λ e. (st, some e)) (st, none)
      (λ m.
        by_role_and_state m.role m.state
          (update_active_executor_dkg_part_pub_key st node_id pub_key)
          (update_active_proposer_dkg_part_pub_key st node_id pub_key)
          (update_active_validator_dkg_part_pub_key st node_id pub_key)
          (update_inactive_node_dkg_part_pub_key st node_id pub_key) (st, some invalid_role)
          (st, some invalid_state))
      (get_state_data st node_store_name node_id)

unfoldable pub update_node_dkg_pri_share : Store → String → String → Written Stored
update_node_dkg_pri_share st node_id pri_share =
    routed (λ e. (st, some e)) (st, none)
      (λ m.
        by_role_and_state m.role m.state (update_active_executor_dkg_pri_share st node_id pri_share)
          (update_active_proposer_dkg_pri_share st node_id pri_share)
          (update_active_validator_dkg_pri_share st node_id pri_share)
          (update_inactive_node_dkg_pri_share st node_id pri_share) (st, some invalid_role)
          (st, some invalid_state))
      (get_state_data st node_store_name node_id)
