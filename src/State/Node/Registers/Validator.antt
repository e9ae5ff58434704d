-- ===== src/State/Node/Registers/Validator.antt =====
-- state/node/node_validator.go: the register of the active validators.
use topia.Base.{ℕ, String, Bool, List, Option, ◌⊎◌}
use topia.State.Store.{Written, get_state_data, get_all_state_data, add_named_state_store}
use topia.State.Node.{
  NodeInfo, Stored, Store, Error, is_node_exist, get_node, add_node, update_weight,
  update_dkg_part_pub_key, update_dkg_pri_share,
}
use topia.State.Node.Registers.{ids_or_nil, weight_or_zero, all_nodes, remove_found}

abbrev pub validator_store_name : String
validator_store_name = "validator"

abbrev pub validator_ids_key : String
validator_ids_key = "totalavnodeids"

abbrev pub validator_weight_key : String
validator_weight_key = "totalavweight"

unfoldable pub new_node_validator_state : Store → Store
new_node_validator_state st = add_named_state_store st validator_store_name

unfoldable pub is_exist_active_validator : Store → String → Bool
is_exist_active_validator st node_id = is_node_exist st validator_store_name node_id

unfoldable pub get_active_validator_ids : Store → Error ⊎ List String
get_active_validator_ids st = ids_or_nil (get_state_data st validator_store_name validator_ids_key)

unfoldable pub get_active_validator : Store → String → Error ⊎ Option NodeInfo
get_active_validator st node_id = get_node st validator_store_name node_id

unfoldable pub get_active_validators_total_weight : Store → Error ⊎ ℕ
get_active_validators_total_weight st =
    weight_or_zero (get_state_data st validator_store_name validator_weight_key)

unfoldable pub get_all_active_validators : Store → Error ⊎ List NodeInfo
get_all_active_validators st =
    all_nodes validator_ids_key validator_weight_key (get_all_state_data st validator_store_name)

unfoldable pub add_active_validator : Store → Option NodeInfo → Written Stored
add_active_validator st i =
    add_node st validator_store_name validator_ids_key validator_weight_key i

unfoldable pub update_active_validator_weight : Store → String → ℕ → Written Stored
update_active_validator_weight st node_id weight =
    update_weight st validator_store_name node_id validator_weight_key weight

unfoldable pub update_active_validator_dkg_part_pub_key : Store → String → String → Written Stored
update_active_validator_dkg_part_pub_key st node_id pub_key =
    update_dkg_part_pub_key st validator_store_name node_id pub_key

unfoldable pub update_active_validator_dkg_pri_share : Store → String → String → Written Stored
update_active_validator_dkg_pri_share st node_id pri_share =
    update_dkg_pri_share st validator_store_name node_id pri_share

unfoldable pub remove_active_validator : Store → String → Written Stored
remove_active_validator st node_id =
    remove_found st validator_store_name validator_ids_key validator_weight_key node_id
      (get_active_validator st node_id)
